-- ===== src/Tracker/Aging.antt =====
-- Eviction and the sweep of dpi/connection_tracker.py: which entries go, and how many.
use python_deep_packet_inspe.Prelude.{
  ℕ, suc, ◌+◌, ◌≤◌, ◌<◌, max, ◌≡◌, refl, sym, ap, ◌∙◌, Bool, true, false, Option, none, some, [],
  ◌∷◌, arith, length, ltb, if◌then◌else◌,
}
use python_deep_packet_inspe.Flow.{FiveTuple, reverse, tuple_eq}
use python_deep_packet_inspe.Tracker.{
  Connection, Table, Tracker, find, remove, oldest, evict_oldest, is_stale, sweep, cleanup_stale,
}
use python_deep_packet_inspe.Tracker.Keys.{
  IsKeyed, tuple_eq→eq, tuple_eq_sym, tuple_eq_refl, find-here, find-later, length-remove, not_same,
  not_later,
}

-- No entry of the table was seen before `seen`.
abbrev pub SeenFrom : ℕ → Table → Type 0
SeenFrom seen [] = Unit
SeenFrom seen ((k, conn) ∷ table) = (seen ≤ conn.last_seen) × SeenFrom seen table

-- The entry under `o` is one of those that were not seen for the longest time.
pub record IsOldest (o : FiveTuple) (table : Table) : Type 0 where
  pub entry : Connection
  pub there : find o table ≡ some entry
  pub least : SeenFrom entry.last_seen table

module _ (k k' : FiveTuple) (conn conn' : Connection) (o : FiveTuple) (table : Table) where
  later_IsOldest :
      IsKeyed ((k, conn) ∷ (k', conn') ∷ table)
      → conn'.last_seen < conn.last_seen
      → IsOldest o ((k', conn') ∷ table)
      → IsOldest o ((k, conn) ∷ (k', conn') ∷ table)
  later_IsOldest keyed lt h = record {
    entry = h.entry;
    there =
        find-later o k conn ((k', conn') ∷ table)
          (tuple_eq_sym o k ∙ not_same k o h.entry ((k', conn') ∷ table) keyed.1 h.there)
        ∙ h.there;
    least = (omega (arith, lt, h.least.0), h.least);
  }

  same_IsOldest :
      IsKeyed ((k', conn') ∷ table)
      → conn.last_seen ≤ conn'.last_seen
      → IsOldest o ((k, conn) ∷ table)
      → IsOldest o ((k, conn) ∷ (k', conn') ∷ table)
  same_IsOldest keyed le h =
      let rest : SeenFrom h.entry.last_seen ((k', conn') ∷ table) =
        (omega (arith, le, h.least.0), h.least.1) in
      record { entry = h.entry; there = by_key (tuple_eq o k) refl; least = (h.least.0, rest) }
    where
      by_key :
          (b : Bool) → tuple_eq o k ≡ b → find o ((k, conn) ∷ (k', conn') ∷ table) ≡ some h.entry
      by_key true e =
          find-here o k conn ((k', conn') ∷ table) e ∙ sym (find-here o k conn table e) ∙ h.there
      by_key false e =
          let deep : find o table ≡ some h.entry = sym (find-later o k conn table e) ∙ h.there in
          find-later o k conn ((k', conn') ∷ table) e
          ∙ find-later o k' conn' table
              (tuple_eq_sym o k' ∙ not_same k' o h.entry table keyed.1 deep)
          ∙ deep

oldest_lem :
    (k : FiveTuple) (conn : Connection) (table : Table)
    → IsKeyed ((k, conn) ∷ table)
    → IsOldest (oldest k conn.last_seen table) ((k, conn) ∷ table)
unfolding oldest
oldest_lem k conn [] keyed = record {
  entry = conn;
  there = find-here k k conn [] (tuple_eq_refl k);
  least = (omega arith, tt);
}
oldest_lem k conn ((k', conn') ∷ table) keyed =
    by_time (ltb conn'.last_seen conn.last_seen) refl
      (oldest_lem k conn table (
        keyed.0,
        not_later k k' conn' table keyed.1,
        not_later (reverse k) k' conn' table keyed.2,
        keyed.3.3,
      ))
      (oldest_lem k' conn' table keyed.3)
  where
    by_time :
        (b : Bool)
        → ltb conn'.last_seen conn.last_seen ≡ b
        → IsOldest (oldest k conn.last_seen table) ((k, conn) ∷ table)
        → IsOldest (oldest k' conn'.last_seen table) ((k', conn') ∷ table)
        → IsOldest
            (if b then oldest k' conn'.last_seen table else oldest k conn.last_seen table)
            ((k, conn) ∷ (k', conn') ∷ table)
    by_time true e h h' =
        later_IsOldest k k' conn conn' (oldest k' conn'.last_seen table) table keyed
          (ground (arith, e)) h'
    by_time false e h h' =
        same_IsOldest k k' conn conn' (oldest k conn.last_seen table) table keyed.3
          (ground (arith, e)) h

-- A full table loses one entry, and no entry of the table was seen earlier than this one.
pub evict_oldest-IsOldest :
    (table : Table)
    → 0 < length table
    → IsKeyed table
    → (o : FiveTuple) × IsOldest o table
      × (evict_oldest table ≡ remove o table)
      × (suc (length (evict_oldest table)) ≡ length table)
unfolding evict_oldest
evict_oldest-IsOldest [] h keyed = ground (arith, h)
evict_oldest-IsOldest ((k, conn) ∷ table) h keyed =
    let o = oldest k conn.last_seen table in
    let taken = oldest_lem k conn table keyed in
    (o, taken, refl, length-remove o taken.entry ((k, conn) ∷ table) taken.there)

pub length-evict_oldest :
    (table : Table) → IsKeyed table → suc (length (evict_oldest table)) ≤ max 1 (length table)
unfolding evict_oldest
length-evict_oldest [] keyed = omega arith
length-evict_oldest ((k, conn) ∷ table) keyed =
    let (o, taken, same, shorter) =
      evict_oldest-IsOldest ((k, conn) ∷ table) (ground arith) keyed in
    grind (arith, shorter)

-- `conn` if it is not stale.
abbrev pub unless_stale : ℕ → ℕ → Option Connection → Option Connection
unless_stale now timeout none = none
unless_stale now timeout (some conn) = if is_stale now timeout conn then none else some conn

sweep-none :
    (now timeout : ℕ) (t : FiveTuple) (table : Table)
    → find t table ≡ none
    → find t (sweep now timeout table).0 ≡ none
unfolding sweep find
sweep-none now timeout t [] h = refl
sweep-none now timeout t ((k, conn) ∷ table) h = ground (arith, h, sweep-none now timeout t table)

head_only :
    (t k : FiveTuple) (table : Table)
    → find k table ≡ none
    → tuple_eq t k ≡ true
    → find t table ≡ none
head_only t k table h e = ap (λ x. find x table) (tuple_eq→eq t k e) ∙ h

sweep-find :
    (now timeout : ℕ) (t : FiveTuple) (table : Table)
    → IsKeyed table
    → find t (sweep now timeout table).0 ≡ unless_stale now timeout (find t table)
unfolding sweep find
sweep-find now timeout t [] keyed = refl
sweep-find now timeout t ((k, conn) ∷ table) keyed = ground (
  arith,
  head_only t k table keyed.1,
  sweep-none now timeout t table,
  sweep-find now timeout t table keyed.3,
)

pub sweep-length :
    (now timeout : ℕ) (table : Table)
    → length (sweep now timeout table).0 + (sweep now timeout table).1 ≡ length table
unfolding sweep
sweep-length now timeout [] = refl
sweep-length now timeout ((k, conn) ∷ table) = ground (arith, sweep-length now timeout table)

-- After a sweep a lookup finds what it found before, unless that entry had been idle for more whole
-- seconds than the limit or was closed; and the number returned is the number of entries that went.
pub cleanup_stale-find :
    (now timeout : ℕ) (tracker : Tracker) (t : FiveTuple)
    → IsKeyed tracker.connections
    → (find t ((cleanup_stale now timeout tracker).0).connections
        ≡ unless_stale now timeout (find t tracker.connections))
      × (length ((cleanup_stale now timeout tracker).0).connections
            + (cleanup_stale now timeout tracker).1
          ≡ length tracker.connections)
unfolding cleanup_stale
cleanup_stale-find now timeout tracker t keyed = (
  sweep-find now timeout t tracker.connections keyed,
  sweep-length now timeout tracker.connections,
)

pub sweep-IsKeyed :
    (now timeout : ℕ) (table : Table) → IsKeyed table → IsKeyed (sweep now timeout table).0
unfolding sweep
sweep-IsKeyed now timeout [] keyed = tt
sweep-IsKeyed now timeout ((k, conn) ∷ table) keyed =
    by_age (is_stale now timeout conn) (sweep-IsKeyed now timeout table keyed.3)
  where
    swept : Bool → Table × ℕ
    swept b =
        let (kept, removed) = sweep now timeout table in
        if b then (kept, removed + 1) else ((k, conn) ∷ kept, removed)

    by_age : (b : Bool) → IsKeyed (sweep now timeout table).0 → IsKeyed (swept b).0
    by_age true rest = rest
    by_age false rest = (
      keyed.0,
      sweep-none now timeout k table keyed.1,
      sweep-none now timeout (reverse k) table keyed.2,
      rest,
    )
