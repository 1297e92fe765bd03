-- ===== src/Summary/Counts.antt =====
-- The counts of `get_global_stats` of dpi/connection_tracker.py are those of the connections.
use python_deep_packet_inspe.Prelude.{
  ℕ, ◌+◌, ◌≡◌, Bool, true, false, List, [], ◌∷◌, if◌then◌else◌, All, arith, refl, ap, ◌∙◌, sym,
  subst, Bool-cases, inl, inr,
}
use python_deep_packet_inspe.Rules.Sets.{member, add_key, Distinct, add_key-Distinct, eq_sym}
use python_deep_packet_inspe.Summary.{bump}

module _ {A : Type 0} where
  unfoldable pub keys : List (A × ℕ) → List A
  keys [] = []
  keys ((x, n) ∷ counts) = x ∷ keys counts

module _ {A : Type 0} (eq : A → A → Bool) where
  -- `counts.get(key, 0)`.
  unfoldable pub count_of : A → List (A × ℕ) → ℕ
  count_of key [] = 0
  count_of key ((other, n) ∷ counts) = if eq key other then n else count_of key counts

  -- How often a key stands in a list.
  unfoldable pub occurrences : A → List A → ℕ
  occurrences key [] = 0
  occurrences key (other ∷ keys) = (if eq key other then 1 else 0) + occurrences key keys

  -- Every entry has the count of its key.
  abbrev pub AreCounts : List (A × ℕ) → List (A × ℕ) → Type 0
  AreCounts counts entries = All (λ entry. entry.1 ≡ count_of entry.0 counts) entries

module _ {A : Type 0} (eq : A → A → Bool) (eq_refl : (x : A) → eq x x ≡ true)
    (eq→same : (x y : A) → eq x y ≡ true → x ≡ y) where
  pub count_of-bump :
      (key x : A) (counts : List (A × ℕ))
      → count_of eq key (bump eq x counts) ≡ (if eq key x then 1 else 0) + count_of eq key counts
  unfolding count_of bump
  count_of-bump key x [] = ground arith
  count_of-bump key x ((y, n) ∷ counts) = elim (Bool-cases (eq x y)) [
    | inl e ↦ let f = ap (eq key) (eq→same x y e) in ground (arith, e, f)
    | inr e ↦ elim (Bool-cases (eq key y)) [
      | inl f ↦
          let g = ap (λ z. eq z x) (eq→same key y f) ∙ eq_sym eq eq_refl eq→same x y e in
          ground (arith, e, f, g)
      | inr f ↦ ground (arith, e, f, count_of-bump key x counts)
    ]
  ]

  keys-bump : (x : A) (counts : List (A × ℕ)) → keys (bump eq x counts) ≡ add_key eq x (keys counts)
  unfolding keys bump add_key
  keys-bump x [] = refl
  keys-bump x ((y, n) ∷ counts) = ground (arith, keys-bump x counts)

  pub bump-Distinct :
      (x : A) (counts : List (A × ℕ))
      → Distinct eq (keys counts)
      → Distinct eq (keys (bump eq x counts))
  bump-Distinct x counts h =
      subst (Distinct eq) (sym (keys-bump x counts))
        (add_key-Distinct eq eq_refl eq→same x (keys counts) h)

  pub AreCounts-cons :
      (x : A) (n : ℕ) (counts entries : List (A × ℕ))
      → member eq x (keys entries) ≡ false
      → AreCounts eq counts entries
      → AreCounts eq ((x, n) ∷ counts) entries
  unfolding count_of keys member
  AreCounts-cons x n counts [] m h = tt
  AreCounts-cons x n counts ((y, k) ∷ entries) m (e, h) =
      let a : eq x y ≡ false = ground (arith, m) in
      let b : member eq x (keys entries) ≡ false = ground (arith, m) in
      let c = eq_sym eq eq_refl eq→same x y a in
      (ground (arith, c, e), AreCounts-cons x n counts entries b h)

  pub counts-AreCounts :
      (counts : List (A × ℕ)) → Distinct eq (keys counts) → AreCounts eq counts counts
  unfolding count_of keys
  counts-AreCounts [] h = tt
  counts-AreCounts ((x, n) ∷ counts) (m, h) =
      (ground (arith, eq_refl x), AreCounts-cons x n counts counts m (counts-AreCounts counts h))
