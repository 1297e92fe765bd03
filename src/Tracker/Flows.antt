-- ===== src/Tracker/Flows.antt =====
-- What the methods of `ConnectionTracker` of dpi/connection_tracker.py keep: one entry for each
-- conversation, under its own tuple, and the bound on the size of the table.
use python_deep_packet_inspe.Prelude.{
  ℕ, ◌≡◌, refl, sym, ap, ◌∙◌, subst, inl, inr, Bool, true, false, Option, none, some, [], ◌∷◌,
  arith, length, leb, if◌then◌else◌, Bool-cases,
}
use python_deep_packet_inspe.Flow.{FiveTuple, reverse, tuple_eq}
use python_deep_packet_inspe.Flow.Symmetry.{reverse-reverse}
use python_deep_packet_inspe.Tracker.{
  Connection, Table, Tracker, find, put, oldest, evict_oldest, new_connection, create,
  get_or_create_connection,
}
use python_deep_packet_inspe.Tracker.Keys.{
  IsKeyed, not_same, not_key, not_later, tuple_eq→eq, tuple_eq_sym, tuple_eq-reverse, find-later,
  put-here, put-later, find-put, find-put-other, find-remove, one_entry, remove-IsKeyed,
}

put_later-IsKeyed :
    (t k : FiveTuple) (conn c : Connection) (table : Table)
    → IsKeyed ((k, c) ∷ table)
    → tuple_eq t k ≡ false
    → tuple_eq (reverse k) t ≡ false
    → IsKeyed (put t conn table)
    → IsKeyed (put t conn ((k, c) ∷ table))
put_later-IsKeyed t k conn c table keyed e e' rest =
    subst IsKeyed (sym (put-later t k c table conn e)) (
      keyed.0,
      find-put-other k t conn table (tuple_eq_sym k t ∙ e) ∙ keyed.1,
      find-put-other (reverse k) t conn table e' ∙ keyed.2,
      rest,
    )

pub put_old-IsKeyed :
    (t : FiveTuple) (conn conn' : Connection) (table : Table)
    → conn.tuple ≡ t
    → IsKeyed table
    → find t table ≡ some conn'
    → IsKeyed (put t conn table)
unfolding find
put_old-IsKeyed t conn conn' [] own keyed h = cc
put_old-IsKeyed t conn conn' ((k, c) ∷ table) own keyed h = elim (Bool-cases (tuple_eq t k)) [
  | inl e ↦
      subst IsKeyed (sym (put-here t k c table conn e))
        (own ∙ tuple_eq→eq t k e, keyed.1, keyed.2, keyed.3)
  | inr e ↦
      let later : find t table ≡ some conn' = sym (find-later t k c table e) ∙ h in
      put_later-IsKeyed t k conn c table keyed e (not_same (reverse k) t conn' table keyed.2 later)
        (put_old-IsKeyed t conn conn' table own keyed.3 later)
]

pub put_new-IsKeyed :
    (t : FiveTuple) (conn : Connection) (table : Table)
    → conn.tuple ≡ t
    → IsKeyed table
    → find t table ≡ none
    → find (reverse t) table ≡ none
    → IsKeyed (put t conn table)
unfolding put find
put_new-IsKeyed t conn [] own keyed h h' = (own, refl, refl, tt)
put_new-IsKeyed t conn ((k, c) ∷ table) own keyed h h' =
    put_later-IsKeyed t k conn c table keyed (not_key t k c table h)
      (tuple_eq-reverse k t ∙ tuple_eq_sym k (reverse t) ∙ not_key (reverse t) k c table h')
      (put_new-IsKeyed t conn table own keyed.3 (not_later t k c table h)
        (not_later (reverse t) k c table h'))

find-evict :
    (s : FiveTuple) (table : Table) → find s table ≡ none → find s (evict_oldest table) ≡ none
unfolding evict_oldest
find-evict s [] h = h
find-evict s ((k, conn) ∷ table) h =
    find-remove s (oldest k conn.last_seen table) ((k, conn) ∷ table) h

evict-IsKeyed : (table : Table) → IsKeyed table → IsKeyed (evict_oldest table)
unfolding evict_oldest
evict-IsKeyed [] keyed = keyed
evict-IsKeyed ((k, conn) ∷ table) keyed =
    remove-IsKeyed (oldest k conn.last_seen table) ((k, conn) ∷ table) keyed

-- The table that a new entry goes into.
unfoldable pub make_room : Tracker → Table
unfolding evict_oldest
make_room tracker =
    if leb tracker.max_connections (length tracker.connections)
    then evict_oldest tracker.connections
    else tracker.connections

pub find-make_room :
    (s : FiveTuple) (tracker : Tracker)
    → find s tracker.connections ≡ none
    → find s (make_room tracker) ≡ none
unfolding make_room
find-make_room s tracker h = ground (arith, find-evict s tracker.connections, h)

pub make_room-IsKeyed :
    (tracker : Tracker) → IsKeyed tracker.connections → IsKeyed (make_room tracker)
unfolding make_room
make_room-IsKeyed tracker keyed = by_size (leb tracker.max_connections (length tracker.connections))
  where
    by_size :
        (b : Bool) → IsKeyed (if b then evict_oldest tracker.connections else tracker.connections)
    by_size true = evict-IsKeyed tracker.connections keyed
    by_size false = keyed

module _ (now : ℕ) (t : FiveTuple) (tracker : Tracker) where
  pub found :
      (conn : Connection)
      → find t tracker.connections ≡ some conn
      → get_or_create_connection now t tracker ≡ (tracker, conn)
  unfolding get_or_create_connection
  found conn h = rw (get_or_create_connection, h) refl

  pub found_back :
      (conn : Connection)
      → find t tracker.connections ≡ none
      → find (reverse t) tracker.connections ≡ some conn
      → get_or_create_connection now t tracker ≡ (tracker, conn)
  unfolding get_or_create_connection
  found_back conn h h' = rw (get_or_create_connection, h, h') refl

  pub created :
      find t tracker.connections ≡ none
      → find (reverse t) tracker.connections ≡ none
      → get_or_create_connection now t tracker ≡ create now t tracker
  unfolding get_or_create_connection
  created h h' = rw (get_or_create_connection, h, h') refl

  -- The entry is there after its creation.
  pub find-create : find t ((create now t tracker).0).connections ≡ some (create now t tracker).1
  unfolding create make_room
  find-create = find-put t (new_connection now t) (make_room tracker)

  create-other :
      (s : FiveTuple)
      → tuple_eq s t ≡ false
      → find s tracker.connections ≡ none
      → find s ((create now t tracker).0).connections ≡ none
  unfolding create make_room
  create-other s e h =
      find-put-other s t (new_connection now t) (make_room tracker) e ∙ find-make_room s tracker h

create-again :
    (now now' : ℕ) (t : FiveTuple) (tracker : Tracker)
    → find t tracker.connections ≡ none
    → find (reverse t) tracker.connections ≡ none
    → get_or_create_connection now' (reverse t) (create now t tracker).0 ≡ create now t tracker
create-again now now' t tracker h h' =
    let next = (create now t tracker).0 in
    let conn = (create now t tracker).1 in
    elim (Bool-cases (tuple_eq (reverse t) t)) [
      | inl e ↦ found now' (reverse t) next conn (
          ap (λ x. find x next.connections) (tuple_eq→eq (reverse t) t e)
          ∙ find-create now t tracker)
      | inr e ↦
          found_back now' (reverse t) next conn (create-other now t tracker (reverse t) e h')
            (ap (λ x. find x next.connections) (reverse-reverse t) ∙ find-create now t tracker)
    ]

abbrev FoundAgain : ℕ → FiveTuple → Tracker × Connection → Type 0
FoundAgain now' t r = get_or_create_connection now' (reverse t) r.0 ≡ r

-- Both directions of a conversation have one record: when the packet after the one that a record
-- was returned for runs the other way, it gets the same record, and the table stays as it is.
pub get_or_create_connection-reverse :
    (now now' : ℕ) (t : FiveTuple) (tracker : Tracker)
    → IsKeyed tracker.connections
    → get_or_create_connection now' (reverse t) (get_or_create_connection now t tracker).0
      ≡ get_or_create_connection now t tracker
get_or_create_connection-reverse now now' t tracker keyed =
    by_entry (find t tracker.connections) (find (reverse t) tracker.connections) refl refl
  where
    twice : find (reverse (reverse t)) tracker.connections ≡ find t tracker.connections
    twice = ap (λ x. find x tracker.connections) (reverse-reverse t)

    by_entry :
        (o o' : Option Connection)
        → find t tracker.connections ≡ o
        → find (reverse t) tracker.connections ≡ o'
        → FoundAgain now' t (get_or_create_connection now t tracker)
    by_entry (some conn) (some conn') h h' =
        subst (FoundAgain now' t) (sym (found now t tracker conn h)) (
          found now' (reverse t) tracker conn
            (h' ∙ ap some (sym (one_entry t conn conn' tracker.connections keyed h h'))))
    by_entry (some conn) none h h' =
        subst (FoundAgain now' t) (sym (found now t tracker conn h))
          (found_back now' (reverse t) tracker conn h' (twice ∙ h))
    by_entry none (some conn') h h' =
        subst (FoundAgain now' t) (sym (found_back now t tracker conn' h h'))
          (found now' (reverse t) tracker conn' h')
    by_entry none none h h' =
        subst (FoundAgain now' t) (sym (created now t tracker h h'))
          (create-again now now' t tracker h h')
