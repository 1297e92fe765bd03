-- ===== src/Rules/File/Refused.antt =====
-- The texts of which `_stoi` of dpi/rule_manager.py makes no number, and the names of no application.
use python_deep_packet_inspe.Prelude.{
  leb, ℕ, ◌+◌, ◌-◌, ◌*◌, ◌^◌, ◌<◌, ◌≡◌, ◌≢◌, refl, Bool, true, false, ◌||◌, none, List, [], ◌∷◌,
  ◌++◌, foldl, arith, All, ◌==◌, if◌then◌else◌, ok, raise, value_error, inl, inr, Bool-cases,
}
use python_deep_packet_inspe.Text.{same}
use python_deep_packet_inspe.Text.Laws.{same→eq}
use python_deep_packet_inspe.Sni.{Name}
use python_deep_packet_inspe.Apps.{AppType, app_type_to_string}
use python_deep_packet_inspe.Rules.File.{
  is_space, is_digit, skip_spaces, leading_digits, read_digits, read_sign, check_number, stoi,
  find_app,
}
use python_deep_packet_inspe.Rules.File.Numbers.{AreDecimal}

-- Whether a text begins with such a character.
abbrev pub starts : (ℕ → Bool) → Name → Bool
starts p [] = false
starts p (c ∷ text) = p c

-- White space and signs.
abbrev pub is_mark : ℕ → Bool
is_mark c = is_space c || c == b'+' || c == b'-'

-- A digit, or a character beyond Latin-1, which `str.isdigit` or `str.isspace` may take.
abbrev pub may_be_digit : ℕ → Bool
may_be_digit c = is_digit c || leb 256 c

-- A text with its sign taken off, and whether the sign is a minus.
pub data IsSigned : Name → Bool → Name → Type 0 where
  unsigned : {rest : Name} → starts is_mark rest ≡ false → IsSigned rest false rest
  plus : {rest : Name} → IsSigned (b'+' ∷ rest) false rest
  minus : {rest : Name} → IsSigned (b'-' ∷ rest) true rest

-- The number that a list of digits stands for.
abbrev pub numeral : Name → ℕ
numeral digits = foldl (λ n c. n * 10 + (c - 48)) 0 digits

-- After white space and a sign there is no digit, or the digits stand for a number that an integer of
-- 32 bits with this sign does not have. What follows the digits does not matter, but for a character
-- beyond Latin-1 next to them.
pub data IsNoNumber : Name → Type 0 where
  no_digits :
      (spaces text : Name) {rest : Name} {negative : Bool}
      → All (λ c. is_space c ≡ true) spaces
      → IsSigned text negative rest
      → starts may_be_digit rest ≡ false
      → IsNoNumber (spaces ++ text)
  too_large :
      (spaces text digits rest : Name) (negative : Bool)
      → All (λ c. is_space c ≡ true) spaces
      → IsSigned text negative (digits ++ rest)
      → AreDecimal digits
      → starts may_be_digit rest ≡ false
      → (if negative then 2 ^ 31 else 2 ^ 31 - 1) < numeral digits
      → IsNoNumber (spaces ++ text)

no_digit : (rest : Name) → starts may_be_digit rest ≡ false → starts is_digit rest ≡ false
no_digit [] h = refl
no_digit (c ∷ rest) h = ground (arith, h)

skip_spaces-append :
    (spaces text : Name)
    → All (λ c. is_space c ≡ true) spaces
    → starts is_space text ≡ false
    → skip_spaces (spaces ++ text) ≡ text
unfolding skip_spaces
skip_spaces-append [] [] h s = refl
skip_spaces-append [] (c ∷ text) h s = rw s refl
skip_spaces-append (c ∷ spaces) text h s =
    let a = h.0 in rw a (skip_spaces-append spaces text h.1 s)

leading_digits-append :
    (digits rest : Name)
    → AreDecimal digits
    → starts is_digit rest ≡ false
    → leading_digits (digits ++ rest) ≡ digits
unfolding leading_digits
leading_digits-append [] [] h s = refl
leading_digits-append [] (c ∷ rest) h s = rw s refl
leading_digits-append (c ∷ digits) rest h s =
    let a = h.0 in ground (arith, a, leading_digits-append digits rest h.1 s)

read_digits-numeral :
    (value : ℕ) (digits : Name)
    → AreDecimal digits
    → read_digits value digits ≡ ok (foldl (λ n c. n * 10 + (c - 48)) value digits)
unfolding read_digits
read_digits-numeral value [] h = refl
read_digits-numeral value (c ∷ digits) h =
    let a = h.0 in rw a (read_digits-numeral (value * 10 + (c - 48)) digits h.1)

unspaced :
    (text rest : Name) (negative : Bool)
    → IsSigned text negative rest
    → starts is_space text ≡ false
unspaced [] rest negative s = refl
unspaced (c ∷ text) rest negative (unsigned m) = ground (arith, m)
unspaced (c ∷ text) rest negative plus = refl
unspaced (c ∷ text) rest negative minus = refl

read_sign_of :
    (text rest : Name) (negative : Bool)
    → IsSigned text negative rest
    → read_sign text ≡ (negative, rest)
unfolding read_sign
read_sign_of [] rest negative (unsigned m) = refl
read_sign_of (c ∷ text) rest negative (unsigned m) = ground (arith, m)
read_sign_of text rest negative plus = refl
read_sign_of text rest negative minus = refl

check-too_large :
    (negative : Bool) (digits : Name)
    → AreDecimal digits
    → (if negative then 2 ^ 31 else 2 ^ 31 - 1) < numeral digits
    → check_number negative digits ≡ raise value_error
unfolding check_number
check-too_large true digits h l = let r = read_digits-numeral 0 digits h in ground (arith, r, l)
check-too_large false digits h l = let r = read_digits-numeral 0 digits h in ground (arith, r, l)

-- `_stoi` raises for such a text.
pub stoi-IsNoNumber : (text : Name) → IsNoNumber text → stoi text ≡ raise value_error
unfolding stoi check_number
stoi-IsNoNumber text (no_digits spaces signed {rest = rest} {negative = negative} h s d) =
    rw (skip_spaces-append spaces signed h (unspaced signed rest negative s)) (
      rw (read_sign_of signed rest negative s)
        (rw (leading_digits-append [] rest tt (no_digit rest d)) refl))
stoi-IsNoNumber text (too_large spaces signed digits rest negative h s a d l) =
    rw (skip_spaces-append spaces signed h (unspaced signed (digits ++ rest) negative s)) (
      rw (read_sign_of signed (digits ++ rest) negative s) (
        rw (leading_digits-append digits rest a (no_digit rest d))
          (check-too_large negative digits a l)))

-- `load_rules` finds no application for the name of none.
pub find_app-none :
    (line : Name) (apps : List AppType)
    → All (λ app. app_type_to_string app ≢ line) apps
    → find_app line apps ≡ none
unfolding find_app
find_app-none line [] h = refl
find_app-none line (app ∷ apps) h = elim (Bool-cases (same (app_type_to_string app) line)) [
  | inl e ↦ absurd (h.0 (same→eq (app_type_to_string app) line e))
  | inr e ↦ rw e (find_app-none line apps h.1)
]
