-- ===== src/Redaction/Letters.antt =====
-- The letters of a label of ai/redaction.py as a number.
use python_deep_packet_inspe.Prelude.{
  ℕ, zero, suc, ◌+◌, ◌-◌, ◌*◌, ◌/◌, ◌%◌, ◌<◌, ◌≡◌, ◌≢◌, sym, ap, ◌∙◌, inl, inr, List, [], ◌∷◌,
  arith, drop, ◌==◌, ==_iff, Bool-cases,
}
use python_deep_packet_inspe.Redaction.{letters_loop, host_label}

-- The number that letters stand for, `a` for one: numbers without a zero, in base 26.
number_of : ℕ → List ℕ → ℕ
number_of acc [] = acc
number_of acc (c ∷ letters) = number_of (acc * 26 + (c - 96)) letters

number_of-loop :
    (fuel n : ℕ) (letters : List ℕ)
    → n < fuel
    → number_of 0 (letters_loop fuel n letters) ≡ number_of (n + 1) letters
unfolding letters_loop number_of
number_of-loop zero n letters h = elim h [ ]
number_of-loop (suc fuel) n letters h =
    let grown = (b'a' + n % 26) ∷ letters in
    let small : n / 26 ≡ 0 → 0 * 26 + (b'a' + n % 26 - 96) ≡ n + 1 = λ z. omega (arith, z) in
    let large : n / 26 ≢ 0 → (n / 26 - 1 + 1) * 26 + (b'a' + n % 26 - 96) ≡ n + 1 =
      λ z. let w : 0 < n / 26 = ground (arith, z) in omega (arith, w) in
    elim (Bool-cases (n / 26 == 0)) [
      | inl e ↦ rw e (ap (λ a. number_of a letters) (small ((==_iff _ _).0 e)))
      | inr e ↦ rw e (
          number_of-loop fuel (n / 26 - 1) grown (ground (arith, e, h))
          ∙ ap (λ a. number_of a letters) (large (λ z. cc ((==_iff (n / 26) 0).1 z, e))))
    ]

pub host_label-injective : (m n : ℕ) → host_label m ≡ host_label n → m ≡ n
unfolding host_label
host_label-injective m n e =
    let f : letters_loop (suc m) m [] ≡ letters_loop (suc n) n [] = ap (drop 5) e in
    let a = number_of-loop (suc m) m [] (omega arith) in
    let b = number_of-loop (suc n) n [] (omega arith) in
    let g : m + 1 ≡ n + 1 = unfold number_of in (sym a ∙ ap (number_of 0) f ∙ b) in omega (arith, g)
