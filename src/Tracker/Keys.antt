-- ===== src/Tracker/Keys.antt =====
-- The flow table of dpi/connection_tracker.py as a dictionary: every entry stands under its own
-- tuple, and a conversation has one entry, whichever its direction.
use python_deep_packet_inspe.Prelude.{
  suc, ◌≡◌, refl, sym, ap, ◌∙◌, subst, inl, inr, Bool, true, false, none, some, [], ◌∷◌, arith,
  length, if◌then◌else◌, Bool-cases,
}
use python_deep_packet_inspe.Flow.{FiveTuple, reverse, tuple_eq}
use python_deep_packet_inspe.Flow.Symmetry.{reverse-reverse, tuple_eq_iff}
use python_deep_packet_inspe.Tracker.{Connection, Table, find, put, remove}

abbrev pub IsKeyed : Table → Type 0
IsKeyed [] = Unit
IsKeyed ((k, conn) ∷ table) =
    (conn.tuple ≡ k) × (find k table ≡ none) × (find (reverse k) table ≡ none) × IsKeyed table

pub tuple_eq_refl : (t : FiveTuple) → tuple_eq t t ≡ true
tuple_eq_refl t = (tuple_eq_iff t t).1 refl

pub tuple_eq→eq : (s t : FiveTuple) → tuple_eq s t ≡ true → s ≡ t
tuple_eq→eq s t h = (tuple_eq_iff s t).0 h

pub tuple_eq_sym : (s t : FiveTuple) → tuple_eq s t ≡ tuple_eq t s
unfolding tuple_eq
tuple_eq_sym s t = ground arith

pub tuple_eq-reverse : (s t : FiveTuple) → tuple_eq (reverse s) t ≡ tuple_eq s (reverse t)
unfolding tuple_eq reverse
tuple_eq-reverse s t = ground arith

pub some_inj : {A : Type 0} (a b : A) → some a ≡ some b → a ≡ b
some_inj a b h = cc

module _ (t k : FiveTuple) (conn : Connection) (table : Table) where
  pub find-here : tuple_eq t k ≡ true → find t ((k, conn) ∷ table) ≡ some conn
  unfolding find
  find-here e = rw e refl

  pub find-later : tuple_eq t k ≡ false → find t ((k, conn) ∷ table) ≡ find t table
  unfolding find
  find-later e = rw e refl

  pub put-here :
      (c : Connection) → tuple_eq t k ≡ true → put t c ((k, conn) ∷ table) ≡ (k, c) ∷ table
  unfolding put
  put-here c e = rw e refl

  pub put-later :
      (c : Connection)
      → tuple_eq t k ≡ false
      → put t c ((k, conn) ∷ table) ≡ (k, conn) ∷ put t c table
  unfolding put
  put-later c e = rw e refl

pub find-put :
    (t : FiveTuple) (conn : Connection) (table : Table) → find t (put t conn table) ≡ some conn
unfolding find put
find-put t conn [] = rw (tuple_eq_refl t) refl
find-put t conn ((k, conn') ∷ table) = grind (arith, find-put t conn table)

pub find-put-other :
    (s t : FiveTuple) (conn : Connection) (table : Table)
    → tuple_eq s t ≡ false
    → find s (put t conn table) ≡ find s table
unfolding find put
find-put-other s t conn [] h = rw h refl
find-put-other s t conn ((k, conn') ∷ table) h = elim (Bool-cases (tuple_eq t k)) [
  | inl e ↦
      let f : tuple_eq s k ≡ false = subst (λ x. tuple_eq s x ≡ false) (tuple_eq→eq t k e) h in
      ap (find s) (put-here t k conn' table conn e)
      ∙ find-later s k conn table f
      ∙ sym (find-later s k conn' table f)
  | inr e ↦ grind (arith, find-put-other s t conn table, e)
]

pub find-remove :
    (s t : FiveTuple) (table : Table) → find s table ≡ none → find s (remove t table) ≡ none
unfolding find remove
find-remove s t [] h = refl
find-remove s t ((k, conn) ∷ table) h = ground (arith, find-remove s t table)

pub find-tuple :
    (t : FiveTuple) (conn : Connection) (table : Table)
    → IsKeyed table
    → find t table ≡ some conn
    → conn.tuple ≡ t
unfolding find
find-tuple t conn [] keyed h = cc
find-tuple t conn ((k, conn') ∷ table) keyed h = elim (Bool-cases (tuple_eq t k)) [
  | inl e ↦
      let same : conn' ≡ conn = some_inj conn' conn (sym (find-here t k conn' table e) ∙ h) in
      ap (λ c. c.tuple) (sym same) ∙ keyed.0 ∙ sym (tuple_eq→eq t k e)
  | inr e ↦ find-tuple t conn table keyed.3 (sym (find-later t k conn' table e) ∙ h)
]

-- A conversation has one entry.
pub one_entry :
    (t : FiveTuple) (conn conn' : Connection) (table : Table)
    → IsKeyed table
    → find t table ≡ some conn
    → find (reverse t) table ≡ some conn'
    → conn ≡ conn'
unfolding find
one_entry t conn conn' [] keyed h h' = cc
one_entry t conn conn' ((k, c) ∷ table) keyed h h' = elim (Bool-cases (tuple_eq t k)) [
  | inl e ↦ elim (Bool-cases (tuple_eq (reverse t) k)) [
    | inl e' ↦
        some_inj conn conn'
          (sym h ∙ find-here t k c table e ∙ sym (find-here (reverse t) k c table e') ∙ h')
    | inr e' ↦
        let gone : find (reverse t) table ≡ none =
          ap (λ x. find (reverse x) table) (tuple_eq→eq t k e) ∙ keyed.2 in
        let there : none ≡ some conn' = sym gone ∙ sym (find-later (reverse t) k c table e') ∙ h' in
        cc
  ]
  | inr e ↦ elim (Bool-cases (tuple_eq (reverse t) k)) [
    | inl e' ↦
        let back : t ≡ reverse k =
          sym (reverse-reverse t) ∙ ap reverse (tuple_eq→eq (reverse t) k e') in
        let there : none ≡ some conn =
          sym (ap (λ x. find x table) back ∙ keyed.2) ∙ sym (find-later t k c table e) ∙ h in
        cc
    | inr e' ↦
        one_entry t conn conn' table keyed.3 (sym (find-later t k c table e) ∙ h)
          (sym (find-later (reverse t) k c table e') ∙ h')
  ]
]

pub remove-IsKeyed : (t : FiveTuple) (table : Table) → IsKeyed table → IsKeyed (remove t table)
unfolding remove
remove-IsKeyed t [] keyed = tt
remove-IsKeyed t ((k, conn) ∷ table) keyed = by_key (tuple_eq t k) (remove-IsKeyed t table keyed.3)
  where
    by_key :
        (b : Bool)
        → IsKeyed (remove t table)
        → IsKeyed (if b then table else (k, conn) ∷ remove t table)
    by_key true rest = keyed.3
    by_key false rest =
        (keyed.0, find-remove k t table keyed.1, find-remove (reverse k) t table keyed.2, rest)

pub length-remove :
    (t : FiveTuple) (conn : Connection) (table : Table)
    → find t table ≡ some conn
    → suc (length (remove t table)) ≡ length table
unfolding remove find
length-remove t conn [] h = cc
length-remove t conn ((k, conn') ∷ table) h = ground (arith, length-remove t conn table)

pub length-put_new :
    (t : FiveTuple) (conn : Connection) (table : Table)
    → find t table ≡ none
    → length (put t conn table) ≡ suc (length table)
unfolding put find
length-put_new t conn [] h = refl
length-put_new t conn ((k, conn') ∷ table) h = ground (arith, length-put_new t conn table)

pub length-put_old :
    (t : FiveTuple) (conn conn' : Connection) (table : Table)
    → find t table ≡ some conn'
    → length (put t conn table) ≡ length table
unfolding put find
length-put_old t conn conn' [] h = cc
length-put_old t conn conn' ((k, c) ∷ table) h = ground (arith, length-put_old t conn conn' table)

pub not_same :
    (s t : FiveTuple) (conn : Connection) (table : Table)
    → find s table ≡ none
    → find t table ≡ some conn
    → tuple_eq s t ≡ false
not_same s t conn table h h' = elim (Bool-cases (tuple_eq s t)) [
  | inl e ↦
      let there : none ≡ some conn = sym h ∙ ap (λ x. find x table) (tuple_eq→eq s t e) ∙ h' in cc
  | inr e ↦ e
]

module _ (s k : FiveTuple) (conn : Connection) (table : Table)
    (h : find s ((k, conn) ∷ table) ≡ none) where
  pub not_key : tuple_eq s k ≡ false
  unfolding find
  not_key = ground (arith, h)

  pub not_later : find s table ≡ none
  unfolding find
  not_later = ground (arith, h)
