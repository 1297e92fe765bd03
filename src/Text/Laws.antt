-- ===== src/Text/Laws.antt =====
-- Laws of the string operations: what the tests decide, and folding.
use python_deep_packet_inspe.Prelude.{
  ℕ, ◌≡◌, refl, sym, ap, ap₂, ◌∙◌, inl, inr, Bool, true, false, List, [], ◌∷◌, ◌++◌, arith, ◌==◌,
  if◌then◌else◌, Bool-cases,
}
use python_deep_packet_inspe.Text.{
  same, is_prefix, is_infix, is_suffix, split, join, lower, lower_char, grow,
}

pub same_refl : (s : List ℕ) → same s s ≡ true
unfolding same
same_refl [] = refl
same_refl (c ∷ s) = ground (arith, same_refl s)

pub same→eq : (s t : List ℕ) → same s t ≡ true → s ≡ t
unfolding same
same→eq [] [] h = refl
same→eq [] (d ∷ t) h = cc
same→eq (c ∷ s) [] h = cc
same→eq (c ∷ s) (d ∷ t) h = ground (arith, same→eq s t)

pub lower_char-lower_char : (c : ℕ) → lower_char (lower_char c) ≡ lower_char c
lower_char-lower_char c = ground arith

pub lower-lower : (s : List ℕ) → lower (lower s) ≡ lower s
unfolding lower
lower-lower [] = refl
lower-lower (c ∷ s) = ap₂ (λ d t. d ∷ t) (lower_char-lower_char c) (lower-lower s)

pub is_suffix-append : (pre s : List ℕ) → is_suffix s (pre ++ s) ≡ true
unfolding is_suffix same
is_suffix-append [] [] = refl
is_suffix-append [] (c ∷ s) = ground (arith, same_refl s)
is_suffix-append (d ∷ pre) s = ground (arith, is_suffix-append pre s)

pub is_suffix→append : (s t : List ℕ) → is_suffix s t ≡ true → (pre : List ℕ) × (t ≡ pre ++ s)
unfolding is_suffix
is_suffix→append s [] h = ([], sym (same→eq s [] h))
is_suffix→append s (d ∷ t) h = elim (Bool-cases (same s (d ∷ t))) [
  | inl e ↦ ([], sym (same→eq s (d ∷ t) e))
  | inr e ↦ let (pre, e') = is_suffix→append s t (ground arith) in (d ∷ pre, ap (λ u. d ∷ u) e')
]

pub is_prefix-append : (s post : List ℕ) → is_prefix s (s ++ post) ≡ true
unfolding is_prefix
is_prefix-append [] post = refl
is_prefix-append (c ∷ s) post = ground (arith, is_prefix-append s post)

pub is_infix-append : (pre s post : List ℕ) → is_infix s (pre ++ s ++ post) ≡ true
unfolding is_infix is_prefix
is_infix-append [] [] [] = refl
is_infix-append [] [] (d ∷ post) = refl
is_infix-append [] (c ∷ s) post = ground (arith, is_prefix-append s post)
is_infix-append (d ∷ pre) s post = ground (arith, is_infix-append pre s post)

-- A split has a first part.
pub split-some :
    (sep : ℕ) (s : List ℕ)
    → (part : List ℕ) × (parts : List (List ℕ)) × (split sep s ≡ part ∷ parts)
unfolding split
split-some sep [] = ([], [], refl)
split-some sep (c ∷ s) =
    let (part, parts, e) = split-some sep s in
    elim (Bool-cases (c == sep)) [
      | inl t ↦ ([], split sep s, ground (arith, t))
      | inr f ↦ (c ∷ part, parts, rw (f, e) refl)
    ]

join-grow :
    (sep c : ℕ) (part : List ℕ) (parts : List (List ℕ))
    → join sep (grow c (part ∷ parts)) ≡ c ∷ join sep (part ∷ parts)
unfolding join
join-grow sep c part [] = refl
join-grow sep c part (next ∷ parts) = refl

join_step :
    (sep c : ℕ) (s part : List ℕ) (parts : List (List ℕ)) (b : Bool)
    → c == sep ≡ b
    → join sep (part ∷ parts) ≡ s
    → join sep (if b then [] ∷ part ∷ parts else grow c (part ∷ parts)) ≡ c ∷ s
unfolding join
join_step sep c s part parts true h e = ap₂ (λ d t. d ∷ t) (ground (arith, h)) e
join_step sep c s part parts false h e = join-grow sep c part parts ∙ ap (λ t. c ∷ t) e

-- The labels of a name, joined again, are the name.
pub join-split : (sep : ℕ) (s : List ℕ) → join sep (split sep s) ≡ s
unfolding join split
join-split sep [] = refl
join-split sep (c ∷ s) =
    let (part, parts, e) = split-some sep s in
    rw e (join_step sep c s part parts (c == sep) refl (ap (join sep) (sym e) ∙ join-split sep s))
