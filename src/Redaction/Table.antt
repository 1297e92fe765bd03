-- ===== src/Redaction/Table.antt =====
-- The table of pseudonyms of ai/redaction.py: its entries stand in the order of their labels.
use python_deep_packet_inspe.Prelude.{
  ℕ, suc, ◌+◌, ◌≡◌, refl, sym, ap, ap₂, ◌∙◌, subst, Bool, true, false, Option, none, some, List, [],
  ◌∷◌, ◌++◌, append-nil, arith, length, get_elem?, length-append,
}
use python_deep_packet_inspe.Text.{same}
use python_deep_packet_inspe.Text.Laws.{same_refl, same→eq}
use python_deep_packet_inspe.Redaction.{HostPseudonymiser, get_label, host_label, label_for}
use python_deep_packet_inspe.Redaction.Letters.{host_label-injective}

abbrev Labels : Type 0
Labels = List (List ℕ × List ℕ)

-- The labels from the `k`th on.
abbrev Numbered : ℕ → Labels → Type 0
Numbered k [] = Unit
Numbered k ((address, label) ∷ labels) = (label ≡ host_label k) × Numbered (k + 1) labels

abbrev pub IsNumbered : HostPseudonymiser → Type 0
IsNumbered p = Numbered 0 p.labels × (p.next ≡ length p.labels)

-- The label found is that of the entry's place.
get_label-place :
    (k : ℕ) (address label : List ℕ) (labels : Labels)
    → Numbered k labels
    → get_label address labels ≡ some label
    → (i : ℕ) × (get_elem? labels i ≡ some (address, label)) × (label ≡ host_label (k + i))
unfolding get_label
get_label-place k address label [] n h = cc
get_label-place k address label ((other, l) ∷ labels) n h =
    by_key (same address other) refl (λ h. get_label-place (k + 1) address label labels n.1 h)
  where
    by_key :
        (b : Bool)
        → same address other ≡ b
        → (get_label address labels ≡ some label
            → (i : ℕ) × (get_elem? labels i ≡ some (address, label))
              × (label ≡ host_label (k + 1 + i)))
        → (i : ℕ) × (get_elem? ((other, l) ∷ labels) i ≡ some (address, label))
          × (label ≡ host_label (k + i))
    by_key true e go =
        let f : l ≡ label = ground (arith, h, e) in
        let z : k ≡ k + 0 = omega arith in
        (
          0,
          ap₂ (λ x y. some (x, y)) (sym (same→eq address other e)) f,
          sym f ∙ n.0 ∙ ap host_label z,
        )
    by_key false e go =
        let (i, g, m) = go (ground (arith, h, e)) in
        let z : k + 1 + i ≡ k + suc i = omega arith in (suc i, g, m ∙ ap host_label z)

-- No two addresses have one label.
pub get_label-injective :
    (a b label : List ℕ) (labels : Labels)
    → Numbered 0 labels
    → get_label a labels ≡ some label
    → get_label b labels ≡ some label
    → a ≡ b
get_label-injective a b label labels n h g =
    let (i, x, u) = get_label-place 0 a label labels n h in
    let (j, y, v) = get_label-place 0 b label labels n g in
    let e : i ≡ j = omega (arith, host_label-injective (0 + i) (0 + j) (sym u ∙ v)) in
    ap (λ (q : List ℕ × List ℕ). q.0)
      (pair_inj (a, label) (b, label) (sym x ∙ ap (get_elem? labels) e ∙ y))
  where
    pair_inj : (p q : List ℕ × List ℕ) → some p ≡ some q → p ≡ q
    pair_inj p q h = cc

pub get_label-append :
    (address label : List ℕ) (labels more : Labels)
    → get_label address labels ≡ some label
    → get_label address (labels ++ more) ≡ some label
unfolding get_label
get_label-append address label [] more h = cc
get_label-append address label ((other, l) ∷ labels) more h =
    ground (arith, h, get_label-append address label labels more)

get_label-new :
    (address label : List ℕ) (labels : Labels)
    → get_label address labels ≡ none
    → get_label address (labels ++ (address, label) ∷ []) ≡ some label
unfolding get_label
get_label-new address label [] h = rw (same_refl address) refl
get_label-new address label ((other, l) ∷ labels) h =
    ground (arith, h, get_label-new address label labels)

Numbered-append :
    (k : ℕ) (labels : Labels) (address : List ℕ)
    → Numbered k labels
    → Numbered k (labels ++ (address, host_label (k + length labels)) ∷ [])
Numbered-append k [] address n = let z : k + 0 ≡ k = omega arith in (ap host_label z, tt)
Numbered-append k ((other, l) ∷ labels) address n =
    let z : k + 1 + length labels ≡ k + suc (length labels) = omega arith in
    (
      n.0,
      subst (λ j. Numbered (k + 1) (labels ++ (address, host_label j) ∷ [])) z
          (Numbered-append (k + 1) labels address n.1),
    )

module _ (address : List ℕ) (p : HostPseudonymiser) (n : IsNumbered p) where
  -- What a call leaves: its address has the label that it returned, and all others keep theirs.
  pub record IsLabelled (result : HostPseudonymiser × List ℕ) : Type 0 where
    pub numbered : IsNumbered result.0
    pub found : get_label address result.0.labels ≡ some result.1
    pub more : Labels
    pub kept : result.0.labels ≡ p.labels ++ more

  pub label_for-IsLabelled : IsLabelled (label_for address p)
  unfolding label_for
  label_for-IsLabelled = by_label (get_label address p.labels) refl
    where
      by_label :
          (o : Option (List ℕ))
          → get_label address p.labels ≡ o
          → IsLabelled (elim o [
            | some existing ↦ (p, existing)
            | none ↦
                let label = host_label p.next in
                (record { labels = p.labels ++ (address, label) ∷ []; next = p.next + 1 }, label)
          ])
      by_label (some existing) e = record {
        numbered = n;
        found = e;
        more = [];
        kept = sym (append-nil p.labels);
      }
      by_label none e =
          let l = length-append p.labels ((address, host_label p.next) ∷ []) in
          let c = n.1 in
          let z : 0 + length p.labels ≡ p.next = omega (arith, c) in
          record {
            numbered = (
              subst (λ j. Numbered 0 (p.labels ++ (address, host_label j) ∷ [])) z
                  (Numbered-append 0 p.labels address n.0),
              omega (arith, l, c),
            );
            found = get_label-new address (host_label p.next) p.labels e;
            more = (address, host_label p.next) ∷ [];
            kept = refl;
          }
