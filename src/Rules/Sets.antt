-- ===== src/Rules/Sets.antt =====
-- A dictionary whose values are ignored, the ordered set of dpi/rule_manager.py: its keys in order,
-- and `list.remove`, which takes the first equal element out.
use python_deep_packet_inspe.Prelude.{
  ◌++◌, ◌≡◌, refl, sym, ap, ◌∙◌, subst, inl, inr, Bool, true, false, not, ◌&&◌, ◌||◌, List, [], ◌∷◌,
  arith, if◌then◌else◌, Bool-cases,
}

module _ {ℓ} {A : Type ℓ} (eq : A → A → Bool) where
  -- `x in keys`.
  unfoldable pub member : A → List A → Bool
  member x [] = false
  member x (y ∷ ys) = eq x y || member x ys

  -- `keys[x] = None`.
  unfoldable pub add_key : A → List A → List A
  add_key x [] = x ∷ []
  add_key x (y ∷ ys) = if eq x y then y ∷ ys else y ∷ add_key x ys

  -- `keys.pop(x, None)`.
  unfoldable pub pop_key : A → List A → List A
  pop_key x [] = []
  pop_key x (y ∷ ys) = if eq x y then ys else y ∷ pop_key x ys

  -- No key twice.
  abbrev pub Distinct : List A → Type 0
  Distinct [] = Unit
  Distinct (y ∷ ys) = (member y ys ≡ false) × Distinct ys

module _ {ℓ} {A : Type ℓ} (eq : A → A → Bool) (eq_refl : (x : A) → eq x x ≡ true)
    (eq→same : (x y : A) → eq x y ≡ true → x ≡ y) where
  pub eq_sym : (x y : A) → eq x y ≡ false → eq y x ≡ false
  eq_sym x y h = elim (Bool-cases (eq y x)) [
    | inl e ↦ let there : true ≡ false = sym (eq_refl x) ∙ ap (eq x) (sym (eq→same y x e)) ∙ h in cc
    | inr e ↦ e
  ]

  pub member-add_key :
      (x y : A) (ys : List A) → member eq x (add_key eq y ys) ≡ (eq x y || member eq x ys)
  unfolding member add_key
  member-add_key x y [] = refl
  member-add_key x y (z ∷ ys) = elim (Bool-cases (eq y z)) [
    | inl e ↦
        subst (λ w. member eq x (add_key eq y (w ∷ ys)) ≡ (eq x y || member eq x (w ∷ ys)))
          (eq→same y z e) (ground (arith, eq_refl y))
    | inr e ↦ ground (arith, e, member-add_key x y ys)
  ]

  pub add_key-Distinct : (x : A) (ys : List A) → Distinct eq ys → Distinct eq (add_key eq x ys)
  unfolding member add_key
  add_key-Distinct x [] h = (refl, tt)
  add_key-Distinct x (y ∷ ys) h = by_eq (eq x y) refl (add_key-Distinct x ys h.1)
    where
      by_eq :
          (b : Bool)
          → eq x y ≡ b
          → Distinct eq (add_key eq x ys)
          → Distinct eq (if b then y ∷ ys else y ∷ add_key eq x ys)
      by_eq true e rest = h
      by_eq false e rest = (ground (arith, member-add_key y x ys, eq_sym x y e, h.0), rest)

  member-pop_none :
      (x y : A) (ys : List A) → member eq x ys ≡ false → member eq x (pop_key eq y ys) ≡ false
  unfolding member pop_key
  member-pop_none x y [] h = refl
  member-pop_none x y (z ∷ ys) h = ground (arith, h, member-pop_none x y ys)

  pub pop_key-Distinct : (x : A) (ys : List A) → Distinct eq ys → Distinct eq (pop_key eq x ys)
  unfolding member pop_key
  pop_key-Distinct x [] h = tt
  pop_key-Distinct x (y ∷ ys) h = by_eq (eq x y) (pop_key-Distinct x ys h.1)
    where
      by_eq :
          (b : Bool)
          → Distinct eq (pop_key eq x ys)
          → Distinct eq (if b then ys else y ∷ pop_key eq x ys)
      by_eq true rest = h.1
      by_eq false rest = (member-pop_none y x ys h.0, rest)

  member_same :
      (x z : A) (ys : List A) → eq x z ≡ true → member eq z ys ≡ false → member eq x ys ≡ false
  member_same x z ys e h = ap (λ w. member eq w ys) (eq→same x z e) ∙ h

  pub member-pop_key :
      (x y : A) (ys : List A)
      → Distinct eq ys
      → member eq x (pop_key eq y ys) ≡ (not (eq x y) && member eq x ys)
  unfolding member pop_key
  member-pop_key x y [] h = ground arith
  member-pop_key x y (z ∷ ys) h = elim (Bool-cases (eq y z)) [
    | inl e ↦ ground (arith, e, ap (eq x) (eq→same y z e), member_same x z ys, h.0)
    | inr e ↦ elim (Bool-cases (eq x z)) [
      | inl f ↦ ground (arith, e, f, ap (λ w. eq w y) (eq→same x z f) ∙ eq_sym y z e)
      | inr f ↦ ground (arith, e, f, member-pop_key x y ys h.1)
    ]
  ]

  pub add_key-new : (x : A) (ys : List A) → member eq x ys ≡ false → add_key eq x ys ≡ ys ++ x ∷ []
  unfolding member add_key
  add_key-new x [] h = refl
  add_key-new x (y ∷ ys) h = ground (arith, h, add_key-new x ys)

  member-append : (x : A) (ys zs : List A) → member eq x (ys ++ zs) ≡ false → member eq x zs ≡ false
  unfolding member
  member-append x [] zs h = h
  member-append x (y ∷ ys) zs h = ground (arith, h, member-append x ys zs)

  -- A key is not among those before it.
  pub Distinct-before :
      (x : A) (ys zs : List A) → Distinct eq (ys ++ x ∷ zs) → member eq x ys ≡ false
  unfolding member
  Distinct-before x [] zs h = refl
  Distinct-before x (y ∷ ys) zs h =
      let m = member-append y ys (x ∷ zs) h.0 in
      let r = Distinct-before x ys zs h.1 in
      let e : eq y x ≡ false = ground (arith, m) in let f = eq_sym y x e in ground (arith, f, r)
