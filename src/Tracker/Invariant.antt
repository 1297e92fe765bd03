-- ===== src/Tracker/Invariant.antt =====
-- The invariant of a `ConnectionTracker` of dpi/connection_tracker.py, over all of its methods.
use python_deep_packet_inspe.Prelude.{
  ℕ, suc, ◌≤◌, max, ◌≡◌, refl, sym, ap, ◌∙◌, subst, ◌⊎◌, inl, inr, Bool, true, false, Option, none,
  some, arith, length, leb, if◌then◌else◌,
}
use python_deep_packet_inspe.Flow.{FiveTuple, reverse}
use python_deep_packet_inspe.Tracker.{
  Connection, Tracker, closed, find, put, evict_oldest, new_connection, create,
  get_or_create_connection, store, close_connection, cleanup_stale, clear,
}
use python_deep_packet_inspe.Tracker.Keys.{IsKeyed, find-tuple, length-put_new, length-put_old}
use python_deep_packet_inspe.Tracker.Flows.{
  make_room, find-make_room, make_room-IsKeyed, put_old-IsKeyed, put_new-IsKeyed, found, found_back,
  created, find-create,
}
use python_deep_packet_inspe.Tracker.Aging.{length-evict_oldest, sweep-IsKeyed, sweep-length}

pub record IsTracked (tracker : Tracker) : Type 0 where
  pub keyed : IsKeyed tracker.connections
  pub bounded : length tracker.connections ≤ max 1 tracker.max_connections

-- One call of a method. `changed` puts back an object that a lookup gave, whatever was done to it
-- but for its tuple.
pub data Method : Tracker → Tracker → Type 0 where
  looked_up :
      (now : ℕ) (t : FiveTuple) (tracker : Tracker)
      → Method tracker (get_or_create_connection now t tracker).0
  changed :
      (conn conn' : Connection) (tracker : Tracker)
      → find conn'.tuple tracker.connections ≡ some conn
      → Method tracker (store conn' tracker)
  closed_one : (t : FiveTuple) (tracker : Tracker) → Method tracker (close_connection t tracker)
  swept :
      (now timeout : ℕ) (tracker : Tracker) → Method tracker (cleanup_stale now timeout tracker).0
  cleared : (tracker : Tracker) → Method tracker (clear tracker)

make_room-length :
    (tracker : Tracker)
    → IsTracked tracker
    → suc (length (make_room tracker)) ≤ max 1 tracker.max_connections
unfolding make_room
make_room-length tracker h = by_size (leb tracker.max_connections (length tracker.connections)) refl
  where
    by_size :
        (b : Bool)
        → leb tracker.max_connections (length tracker.connections) ≡ b
        → suc (length (if b then evict_oldest tracker.connections else tracker.connections))
          ≤ max 1 tracker.max_connections
    by_size true e = grind (arith, length-evict_oldest tracker.connections h.keyed, h.bounded)
    by_size false e = grind (arith, e)

create-IsTracked :
    (now : ℕ) (t : FiveTuple) (tracker : Tracker)
    → IsTracked tracker
    → find t tracker.connections ≡ none
    → find (reverse t) tracker.connections ≡ none
    → IsTracked (create now t tracker).0
unfolding create make_room
create-IsTracked now t tracker h e e' = record {
  keyed =
      put_new-IsKeyed t (new_connection now t) (make_room tracker) refl
        (make_room-IsKeyed tracker h.keyed) (find-make_room t tracker e)
        (find-make_room (reverse t) tracker e');
  bounded =
      subst (λ n. n ≤ max 1 tracker.max_connections)
        (sym (
          length-put_new t (new_connection now t) (make_room tracker) (find-make_room t tracker e)))
        (make_room-length tracker h);
}

store_lem :
    (t : FiveTuple) (conn conn' : Connection) (tracker : Tracker)
    → IsTracked tracker
    → conn'.tuple ≡ t
    → find t tracker.connections ≡ some conn
    → IsTracked (record tracker { connections = put t conn' tracker.connections })
store_lem t conn conn' tracker h own e = record {
  keyed = put_old-IsKeyed t conn' conn tracker.connections own h.keyed e;
  bounded =
      subst (λ n. n ≤ max 1 tracker.max_connections)
        (sym (length-put_old t conn' conn tracker.connections e)) h.bounded;
}

-- Every entry stands under its own tuple, no conversation has two entries, and the table holds at
-- most `max_connections` entries, one if that is 0: every method keeps this.
pub Method-IsTracked :
    {tracker next : Tracker} → Method tracker next → IsTracked tracker → IsTracked next
unfolding store close_connection cleanup_stale clear
Method-IsTracked (looked_up now t tracker) h =
    by_entry (find t tracker.connections) (find (reverse t) tracker.connections) refl refl
  where
    by_entry :
        (o o' : Option Connection)
        → find t tracker.connections ≡ o
        → find (reverse t) tracker.connections ≡ o'
        → IsTracked (get_or_create_connection now t tracker).0
    by_entry (some conn) o' e e' = subst (λ r. IsTracked r.0) (sym (found now t tracker conn e)) h
    by_entry none (some conn) e e' =
        subst (λ r. IsTracked r.0) (sym (found_back now t tracker conn e e')) h
    by_entry none none e e' =
        subst (λ r. IsTracked r.0) (sym (created now t tracker e e'))
          (create-IsTracked now t tracker h e e')
Method-IsTracked (changed conn conn' tracker e) h =
    store_lem conn'.tuple conn conn' tracker h refl e
Method-IsTracked (closed_one t tracker) h = by_entry (find t tracker.connections) refl
  where
    by_entry :
        (o : Option Connection)
        → find t tracker.connections ≡ o
        → IsTracked (elim o [
          | none ↦ tracker
          | some conn ↦ record tracker {
            connections = put t (record conn { state = closed }) tracker.connections;
          }
        ])
    by_entry none e = h
    by_entry (some conn) e =
        store_lem t conn (record conn { state = closed }) tracker h
          (find-tuple t conn tracker.connections h.keyed e) e
Method-IsTracked (swept now timeout tracker) h = record {
  keyed = sweep-IsKeyed now timeout tracker.connections h.keyed;
  bounded = grind (arith, sweep-length now timeout tracker.connections, h.bounded);
}
Method-IsTracked (cleared tracker) h = record { keyed = tt; bounded = ground arith }

-- The object stands in the table under its own tuple, which is `t` or its reverse.
abbrev pub IsThere : FiveTuple → Tracker × Connection → Type 0
IsThere t r =
    (find (r.1).tuple (r.0).connections ≡ some r.1)
    × (((r.1).tuple ≡ t) ⊎ ((r.1).tuple ≡ reverse t))

-- The object that `get_or_create_connection` returns is the one in the table, under its own tuple,
-- which is the tuple of the packet or its reverse.
pub get_or_create_connection-IsThere :
    (now : ℕ) (t : FiveTuple) (tracker : Tracker)
    → IsKeyed tracker.connections
    → IsThere t (get_or_create_connection now t tracker)
unfolding create
get_or_create_connection-IsThere now t tracker keyed =
    by_entry (find t tracker.connections) (find (reverse t) tracker.connections) refl refl
  where
    by_entry :
        (o o' : Option Connection)
        → find t tracker.connections ≡ o
        → find (reverse t) tracker.connections ≡ o'
        → IsThere t (get_or_create_connection now t tracker)
    by_entry (some conn) o' e e' = subst (IsThere t) (sym (found now t tracker conn e)) (
        let own = find-tuple t conn tracker.connections keyed e in
        (ap (λ x. find x tracker.connections) own ∙ e, inl own))
    by_entry none (some conn) e e' = subst (IsThere t) (sym (found_back now t tracker conn e e')) (
        let own = find-tuple (reverse t) conn tracker.connections keyed e' in
        (ap (λ x. find x tracker.connections) own ∙ e', inr own))
    by_entry none none e e' =
        subst (IsThere t) (sym (created now t tracker e e')) (find-create now t tracker, inl refl)
