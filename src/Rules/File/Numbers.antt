-- ===== src/Rules/File/Numbers.antt =====
-- The numbers of a rules file: `_stoi` of dpi/rule_manager.py reads what `str` of a port writes.
use python_deep_packet_inspe.Prelude.{
  All-append, length-append, ◌-◌, ℕ, zero, suc, ◌+◌, ◌*◌, ◌/◌, ◌%◌, ◌^◌, ◌<◌, ◌≤◌, false, true,
  Bool, List, [], ◌∷◌, ◌++◌, ◌≡◌, refl, arith, All, ◌∙◌, ltb, if◌then◌else◌, ok, length, ◌-◌,
}
use python_deep_packet_inspe.Sni.{Name}
use python_deep_packet_inspe.Rules.{digits, decimal}
use python_deep_packet_inspe.Rules.File.{
  is_decimal, skip_spaces, leading_digits, read_digits, read_sign, check_number, stoi,
}

-- Digits of ASCII.
abbrev pub AreDecimal : Name → Type 0
AreDecimal text = All (λ c. is_decimal c ≡ true) text

pub digits-AreDecimal : (fuel n : ℕ) → AreDecimal (digits fuel n)
unfolding digits
digits-AreDecimal zero n = tt
digits-AreDecimal (suc fuel) n = by_size (ltb n 10) refl (digits-AreDecimal fuel (n / 10))
  where
    by_size :
        (b : Bool)
        → ltb n 10 ≡ b
        → AreDecimal (digits fuel (n / 10))
        → AreDecimal (if b then (48 + n) ∷ [] else digits fuel (n / 10) ++ (48 + n % 10) ∷ [])
    by_size true e rest = (ground (arith, e), tt)
    by_size false e rest =
        All-append (λ c. is_decimal c ≡ true) (digits fuel (n / 10)) ((48 + n % 10) ∷ []) rest
          (ground arith, tt)

read_digits-append :
    (text more : List ℕ) (value n : ℕ)
    → read_digits value text ≡ ok n
    → read_digits value (text ++ more) ≡ read_digits n more
unfolding read_digits
read_digits-append [] more value n h = ground (arith, h)
read_digits-append (c ∷ text) more value n h =
    let rest = read_digits-append text more (value * 10 + (c - 48)) n in ground (arith, h, rest)

leading_digits_lem : (text : List ℕ) → AreDecimal text → leading_digits text ≡ text
unfolding leading_digits
leading_digits_lem [] h = refl
leading_digits_lem (c ∷ text) h = ground (arith, h, leading_digits_lem text h.1)

skip_spaces_lem : (text : List ℕ) → AreDecimal text → skip_spaces text ≡ text
unfolding skip_spaces
skip_spaces_lem [] h = refl
skip_spaces_lem (c ∷ text) h = ground (arith, h)

read_sign_lem : (text : List ℕ) → AreDecimal text → read_sign text ≡ (false, text)
unfolding read_sign
read_sign_lem [] h = refl
read_sign_lem (c ∷ text) h = ground (arith, h)

read_digits-digits : (fuel n : ℕ) → n < fuel → read_digits 0 (digits fuel n) ≡ ok n
unfolding digits read_digits
read_digits-digits zero n h = elim h [ ]
read_digits-digits (suc fuel) n h = by_size (ltb n 10) refl (read_digits-digits fuel (n / 10))
  where
    by_size :
        (b : Bool)
        → ltb n 10 ≡ b
        → (n / 10 < fuel → read_digits 0 (digits fuel (n / 10)) ≡ ok (n / 10))
        → read_digits 0 (if b then (48 + n) ∷ [] else digits fuel (n / 10) ++ (48 + n % 10) ∷ [])
          ≡ ok n
    by_size true e rest = ground (arith, e)
    by_size false e rest =
        let r = rest (grind (arith, e, h)) in
        read_digits-append (digits fuel (n / 10)) ((48 + n % 10) ∷ []) 0 (n / 10) r ∙ ground arith

-- A number with one digit more.
longer :
    (k m : ℕ)
    → ((fuel n : ℕ) → n < m → length (digits fuel n) ≤ k)
    → (fuel n : ℕ) → n < m * 10
    → length (digits fuel n) ≤ suc k
unfolding digits
longer k m h zero n l = omega arith
longer k m h (suc fuel) n l =
    let r = h fuel (n / 10) (omega (arith, l)) in
    let a = length-append (digits fuel (n / 10)) ((48 + n % 10) ∷ []) in ground (arith, r, a)

single : (fuel n : ℕ) → n < 1 → length (digits fuel n) ≤ 1
unfolding digits
single zero n h = omega arith
single (suc fuel) n h = ground (arith, h)

length-digits : (fuel n : ℕ) → n < 10 * 10 * 10 * 10 * 10 → length (digits fuel n) ≤ 6
length-digits fuel n h =
    longer 5 (10 * 10 * 10 * 10)
      (longer 4 (10 * 10 * 10) (longer 3 (10 * 10) (longer 2 10 (longer 1 1 single)))) fuel n h

pub digits-some : (fuel n : ℕ) → 0 < length (digits (suc fuel) n)
unfolding digits
digits-some fuel n =
    let a = length-append (digits fuel (n / 10)) ((48 + n % 10) ∷ []) in ground (arith, a)

-- A port that was written is the number that is read.
pub stoi-decimal : (n : ℕ) → n < 2 ^ 16 → stoi (decimal n) ≡ ok (false, n)
unfolding stoi check_number decimal
stoi-decimal n h =
    let a = digits-AreDecimal (suc n) n in
    let s = skip_spaces_lem (digits (suc n) n) a in
    let g = read_sign_lem (digits (suc n) n) a in
    let l = leading_digits_lem (digits (suc n) n) a in
    let r = read_digits-digits (suc n) n (omega arith) in
    let x = length-digits (suc n) n (omega (arith, h)) in
    let y = digits-some n n in rw s (rw g (rw l (ground (arith, r, x, y, h))))
