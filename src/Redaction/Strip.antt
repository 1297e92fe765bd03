-- ===== src/Redaction/Strip.antt =====
-- What str.strip leaves of a string, which ai/redaction.py and ai/rag/chunking.py call.
use python_deep_packet_inspe.Prelude.{
  ℕ, ◌≤◌, ◌≡◌, refl, ap, ◌∙◌, Bool, true, false, ◌&&◌, List, [], ◌∷◌, arith, length, All, ◌==◌,
  if◌then◌else◌, on_branches,
}
use python_deep_packet_inspe.Redaction.{strip_left, strip_right, strip}

-- The first and the last character of a string are none of `p`.
abbrev pub StartsOutside : (ℕ → Bool) → List ℕ → Type 0
StartsOutside p [] = Unit
StartsOutside p (c ∷ s) = p c ≡ false

abbrev pub EndsOutside : (ℕ → Bool) → List ℕ → Type 0
EndsOutside p [] = Unit
EndsOutside p (c ∷ []) = p c ≡ false
EndsOutside p (c ∷ d ∷ s) = EndsOutside p (d ∷ s)

module _ (p : ℕ → Bool) where
  length-strip_left : (s : List ℕ) → length (strip_left p s) ≤ length s
  unfolding strip_left
  length-strip_left [] = omega arith
  length-strip_left (c ∷ s) = ground (arith, length-strip_left s)

  length-strip_right : (s : List ℕ) → length (strip_right p s) ≤ length s
  unfolding strip_right
  length-strip_right [] = omega arith
  length-strip_right (c ∷ s) = ground (arith, length-strip_right s)

  pub length-strip : (s : List ℕ) → length (strip p s) ≤ length s
  unfolding strip
  length-strip s = omega (arith, length-strip_left s, length-strip_right (strip_left p s))

  module _ (P : ℕ → Type 0) where
    strip_left-All : (s : List ℕ) → All P s → All P (strip_left p s)
    unfolding strip_left
    strip_left-All [] h = tt
    strip_left-All (c ∷ s) h = on_branches (All P) (p c) (strip_left-All s h.1) h

    strip_right-All : (s : List ℕ) → All P s → All P (strip_right p s)
    unfolding strip_right
    strip_right-All [] h = tt
    strip_right-All (c ∷ s) h =
        on_branches (All P) (p c && length (strip_right p s) == 0) tt (h.0, strip_right-All s h.1)

    pub strip-All : (s : List ℕ) → All P s → All P (strip p s)
    unfolding strip
    strip-All s h = strip_right-All (strip_left p s) (strip_left-All s h)

  strip_left-StartsOutside : (s : List ℕ) → StartsOutside p (strip_left p s)
  unfolding strip_left
  strip_left-StartsOutside [] = tt
  strip_left-StartsOutside (c ∷ s) = by_char (p c) refl (strip_left-StartsOutside s)
    where
      by_char :
          (b : Bool)
          → p c ≡ b
          → StartsOutside p (strip_left p s)
          → StartsOutside p (if b then strip_left p s else c ∷ s)
      by_char true e h = h
      by_char false e h = e

  strip_right-StartsOutside : (s : List ℕ) → StartsOutside p s → StartsOutside p (strip_right p s)
  unfolding strip_right
  strip_right-StartsOutside [] h = tt
  strip_right-StartsOutside (c ∷ s) h =
      on_branches (StartsOutside p) (p c && length (strip_right p s) == 0) tt h

  strip_right-EndsOutside : (s : List ℕ) → EndsOutside p (strip_right p s)
  unfolding strip_right
  strip_right-EndsOutside [] = tt
  strip_right-EndsOutside (c ∷ s) = by_rest (strip_right p s) (p c) refl (strip_right-EndsOutside s)
    where
      by_rest :
          (rest : List ℕ) (b : Bool)
          → p c ≡ b
          → EndsOutside p rest
          → EndsOutside p (if b && length rest == 0 then [] else c ∷ rest)
      by_rest [] true e h = tt
      by_rest [] false e h = e
      by_rest (d ∷ rest) true e h =
          let z : (length (d ∷ rest) == 0) ≡ false = ground arith in rw z h
      by_rest (d ∷ rest) false e h = h

  pub strip-StartsOutside : (s : List ℕ) → StartsOutside p (strip p s)
  unfolding strip
  strip-StartsOutside s = strip_right-StartsOutside (strip_left p s) (strip_left-StartsOutside s)

  pub strip-EndsOutside : (s : List ℕ) → EndsOutside p (strip p s)
  unfolding strip
  strip-EndsOutside s = strip_right-EndsOutside (strip_left p s)

  strip_left_same : (s : List ℕ) → StartsOutside p s → strip_left p s ≡ s
  unfolding strip_left
  strip_left_same [] h = refl
  strip_left_same (c ∷ s) h = rw h refl

  strip_right_same : (s : List ℕ) → EndsOutside p s → strip_right p s ≡ s
  unfolding strip_right
  strip_right_same [] h = refl
  strip_right_same (c ∷ []) h = rw h refl
  strip_right_same (c ∷ d ∷ s) h = let e = strip_right_same (d ∷ s) h in rw e (ground arith)

  pub strip_same : (s : List ℕ) → StartsOutside p s → EndsOutside p s → strip p s ≡ s
  unfolding strip
  strip_same s h k = ap (strip_right p) (strip_left_same s h) ∙ strip_right_same s k
