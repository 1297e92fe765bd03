-- ===== src/Tracker.antt =====
-- `ConnectionTracker` of dpi/connection_tracker.py, with `Connection`, `ConnectionState` and
-- `PacketAction` of dpi/types.py. The dictionary is its list of entries, in order. A connection
-- object stands under its own tuple: a method that changes one takes it as a value and returns it,
-- and `store` puts it back where the caller's turn ends. Its callers never pass `None` for it.
-- A time is in nanoseconds of the monotonic clock, and `int(now - last_seen)` is whole seconds.
pub mod Owner
pub mod Keys
pub mod Flows
pub mod Aging
pub mod Invariant
use python_deep_packet_inspe.Prelude.{
  ℕ, ◌+◌, ◌-◌, ◌/◌, ◌^◌, Bool, true, false, ◌||◌, Option, none, some, List, [], ◌∷◌, length, ltb,
  leb, if◌then◌else◌,
}
use python_deep_packet_inspe.Flow.{FiveTuple, reverse, tuple_eq}
use python_deep_packet_inspe.Apps.{AppType, unknown}
use python_deep_packet_inspe.Sni.{Name}

pub data ConnectionState : Type 0 where
  new established classified state_blocked closed : ConnectionState

pub data PacketAction : Type 0 where
  forward drop_packet inspect log_only : PacketAction

pub record Connection : Type 0 where
  pub tuple : FiveTuple
  pub state : ConnectionState
  pub app_type : AppType
  pub sni : Name
  pub packets_in : ℕ
  pub packets_out : ℕ
  pub bytes_in : ℕ
  pub bytes_out : ℕ
  pub first_seen : ℕ
  pub last_seen : ℕ
  pub action : PacketAction
  pub syn_seen : Bool
  pub syn_ack_seen : Bool
  pub fin_seen : Bool

abbrev pub Table : Type 0
Table = List (FiveTuple × Connection)

pub record Tracker : Type 0 where
  pub fp_id : ℕ
  pub max_connections : ℕ
  pub connections : Table
  pub total_seen : ℕ
  pub classified_count : ℕ
  pub blocked_count : ℕ

unfoldable pub init : ℕ → ℕ → Tracker
init fp_id max_connections = record {
  fp_id = fp_id;
  max_connections = max_connections;
  connections = [];
  total_seen = 0;
  classified_count = 0;
  blocked_count = 0;
}

-- `table.get(t)`.
unfoldable pub find : FiveTuple → Table → Option Connection
find t [] = none
find t ((k, conn) ∷ table) = if tuple_eq t k then some conn else find t table

-- `table[t] = conn`: in the place of the key, or at the end.
unfoldable pub put : FiveTuple → Connection → Table → Table
put t conn [] = (t, conn) ∷ []
put t conn ((k, conn') ∷ table) =
    if tuple_eq t k then (k, conn) ∷ table else (k, conn') ∷ put t conn table

-- `del table[t]`, for a key that is there.
unfoldable pub remove : FiveTuple → Table → Table
remove t [] = []
remove t ((k, conn) ∷ table) = if tuple_eq t k then table else (k, conn) ∷ remove t table

-- `min(table, key=last_seen)`, the first of the least, after the entry `(k, seen)`.
unfoldable pub oldest : FiveTuple → ℕ → Table → FiveTuple
oldest k seen [] = k
oldest k seen ((k', conn) ∷ table) =
    if ltb conn.last_seen seen then oldest k' conn.last_seen table else oldest k seen table

unfoldable pub evict_oldest : Table → Table
unfolding remove oldest
evict_oldest [] = []
evict_oldest ((k, conn) ∷ table) = remove (oldest k conn.last_seen table) ((k, conn) ∷ table)

unfoldable pub new_connection : ℕ → FiveTuple → Connection
new_connection now t = record {
  tuple = t;
  state = new;
  app_type = unknown;
  sni = [];
  packets_in = 0;
  packets_out = 0;
  bytes_in = 0;
  bytes_out = 0;
  first_seen = now;
  last_seen = now;
  action = forward;
  syn_seen = false;
  syn_ack_seen = false;
  fin_seen = false;
}

-- The part of `get_or_create_connection` for a flow that has no entry.
unfoldable pub create : ℕ → FiveTuple → Tracker → Tracker × Connection
unfolding evict_oldest put new_connection
create now t tracker =
    let conn = new_connection now t in
    let kept =
      if leb tracker.max_connections (length tracker.connections)
      then evict_oldest tracker.connections
      else tracker.connections in
    (record tracker { connections = put t conn kept; total_seen = tracker.total_seen + 1 }, conn)

-- The entry of either direction.
unfoldable pub get_connection : FiveTuple → Tracker → Option Connection
unfolding find reverse
get_connection t tracker = elim (find t tracker.connections) [
  | some conn ↦ some conn
  | none ↦ find (reverse t) tracker.connections
]

unfoldable pub get_or_create_connection : ℕ → FiveTuple → Tracker → Tracker × Connection
unfolding find reverse create
get_or_create_connection now t tracker = elim (find t tracker.connections) [
  | some conn ↦ (tracker, conn)
  | none ↦ elim (find (reverse t) tracker.connections) [
    | some conn ↦ (tracker, conn)
    | none ↦ create now t tracker
  ]
]

unfoldable pub is_outbound : Connection → FiveTuple → Bool
unfolding tuple_eq
is_outbound conn t = tuple_eq conn.tuple t

-- The object that the dictionary holds, after its methods changed it.
unfoldable pub store : Connection → Tracker → Tracker
unfolding put
store conn tracker = record tracker { connections = put conn.tuple conn tracker.connections }

unfoldable pub update_connection : ℕ → ℕ → Bool → Connection → Connection
update_connection now packet_size outbound conn =
    if outbound
    then record conn {
      last_seen = now;
      packets_out = conn.packets_out + 1;
      bytes_out = conn.bytes_out + packet_size;
    }
    else record conn {
      last_seen = now;
      packets_in = conn.packets_in + 1;
      bytes_in = conn.bytes_in + packet_size;
    }

unfoldable pub classify_connection : AppType → Name → Connection → Tracker → Tracker × Connection
classify_connection app sni conn tracker = elim conn.state [
  | classified ↦ (tracker, conn)
  | _ ↦ (
    record tracker { classified_count = tracker.classified_count + 1 },
    record conn { app_type = app; sni = sni; state = classified },
  )
]

unfoldable pub block_connection : Connection → Tracker → Tracker × Connection
block_connection conn tracker = (
  record tracker { blocked_count = tracker.blocked_count + 1 },
  record conn { state = state_blocked; action = drop_packet },
)

-- Only the tuple itself is looked up.
unfoldable pub close_connection : FiveTuple → Tracker → Tracker
unfolding find put
close_connection t tracker = elim (find t tracker.connections) [
  | none ↦ tracker
  | some conn ↦ record tracker {
    connections = put t (record conn { state = closed }) tracker.connections;
  }
]

unfoldable pub is_closed : Connection → Bool
is_closed conn = elim conn.state [ closed ↦ true | _ ↦ false ]

-- The test of the sweep.
unfoldable pub is_stale : ℕ → ℕ → Connection → Bool
unfolding is_closed
is_stale now timeout_seconds conn =
    ltb timeout_seconds ((now - conn.last_seen) / 10 ^ 9) || is_closed conn

-- The loop of the sweep: what stays, and how many go.
unfoldable pub sweep : ℕ → ℕ → Table → Table × ℕ
unfolding is_stale
sweep now timeout_seconds [] = ([], 0)
sweep now timeout_seconds ((k, conn) ∷ table) =
    let (kept, removed) = sweep now timeout_seconds table in
    if is_stale now timeout_seconds conn then (kept, removed + 1) else ((k, conn) ∷ kept, removed)

unfoldable pub cleanup_stale : ℕ → ℕ → Tracker → Tracker × ℕ
unfolding sweep
cleanup_stale now timeout_seconds tracker =
    let (kept, removed) = sweep now timeout_seconds tracker.connections in
    (record tracker { connections = kept }, removed)

unfoldable pub clear : Tracker → Tracker
clear tracker = record tracker { connections = [] }

-- Active, total, classified and blocked connections.
unfoldable pub get_stats : Tracker → ℕ × ℕ × ℕ × ℕ
get_stats tracker = (
  length tracker.connections,
  tracker.total_seen,
  tracker.classified_count,
  tracker.blocked_count,
)
