-- ===== src/Redaction/Ascii.antt =====
-- What ai/redaction.py relies on of the strings of Python, and the ASCII characters of a text.
use python_deep_packet_inspe.Prelude.{
  ◌+◌, ltb, leb, not, ◌&&◌, ◌||◌, ℕ, ◌≤◌, ◌≡◌, Bool, true, List, [], ◌∷◌, arith, length,
  if◌then◌else◌,
}
use python_deep_packet_inspe.Redaction.{
  Unicode, strip_left, strip_right, is_separator, is_allowed, strip, keep_allowed,
}

-- A character of ASCII, and one that is not a capital.
abbrev pub is_ascii : ℕ → Bool
is_ascii c = ltb c 128

abbrev pub is_plain : ℕ → Bool
is_plain c = is_ascii c && not (leb b'A' c && leb c b'Z')

unfoldable pub count_ascii : List ℕ → ℕ
count_ascii [] = 0
count_ascii (c ∷ s) = if is_ascii c then count_ascii s + 1 else count_ascii s

abbrev pub all_plain : List ℕ → Bool
all_plain [] = true
all_plain (c ∷ s) = is_plain c && all_plain s

-- What the code relies on of Python: text of ASCII without capitals is its own lower case, the lower
-- case of a character has one character of ASCII at most, as U+0130 has two characters and one of
-- them is an `i`, and the white space of ASCII is that of `str.isspace`.
pub record IsPython (unicode : Unicode) : Type 0 where
  pub plain_lower : (s : List ℕ) → all_plain s ≡ true → unicode.lower_case s ≡ s
  pub narrow : (s : List ℕ) → count_ascii (unicode.lower_case s) ≤ length s
  pub plain_space :
      (c : ℕ)
      → is_plain c ≡ true
      → unicode.is_space c ≡ (leb 9 c && leb c 13 || leb 28 c && leb c 32)

pub length-keep_allowed : (s : List ℕ) → length (keep_allowed s) ≤ count_ascii s
unfolding keep_allowed count_ascii is_allowed is_separator
length-keep_allowed [] = omega arith
length-keep_allowed (c ∷ s) = ground (arith, length-keep_allowed s)

module _ (p : ℕ → Bool) where
  count-strip_left : (s : List ℕ) → count_ascii (strip_left p s) ≤ count_ascii s
  unfolding strip_left count_ascii
  count-strip_left [] = omega arith
  count-strip_left (c ∷ s) = ground (arith, count-strip_left s)

  count-strip_right : (s : List ℕ) → count_ascii (strip_right p s) ≤ count_ascii s
  unfolding strip_right count_ascii
  count-strip_right [] = omega arith
  count-strip_right (c ∷ s) = ground (arith, count-strip_right s)

  pub count-strip : (s : List ℕ) → count_ascii (strip p s) ≤ count_ascii s
  unfolding strip
  count-strip s = omega (arith, count-strip_left s, count-strip_right (strip_left p s))
