-- ===== src/FastPath.antt =====
-- `FastPathProcessor` of dpi/fast_path.py: `_process_packet` with all that it calls, and one round
-- of `_run`. The connection object travels beside the state and `store` puts it back at the end
-- of the turn. Printing is left out; a round's output is what the callback gets. The clock is read
-- twice in a turn, as `now` and `later`. A flag test `flags & mask` is `bit_and`.
pub mod Tuples
pub mod TcpState
pub mod Safety
pub mod Verdict
pub mod Rounds
pub mod Follows
use python_deep_packet_inspe.Prelude.{
  ℕ, ◌+◌, ◌-◌, ◌*◌, ◌%◌, ◌^◌, bit_and, Bool, true, false, not, ◌&&◌, ◌||◌, Option, none, some, [],
  length, ltb, leb, ◌==◌, if◌then◌else◌, Py, ok, ◌>>=◌, drop,
}
use python_deep_packet_inspe.Flow.{uint64_mod}
use python_deep_packet_inspe.Job.{PacketJob}
use python_deep_packet_inspe.Sni.{Name}
use python_deep_packet_inspe.Sni
use python_deep_packet_inspe.Http
use python_deep_packet_inspe.Dns.{extract_query}
use python_deep_packet_inspe.Apps.{AppType, unknown, http, https, dns, same_app, sni_to_app_type}
use python_deep_packet_inspe.Rules.{RuleManager, BlockReason, should_block}
use python_deep_packet_inspe.Tracker.{
  ConnectionState, new, established, classified, state_blocked, closed, PacketAction, forward,
  drop_packet, Connection, Tracker, get_or_create_connection, is_outbound, update_connection,
  classify_connection, block_connection, store, cleanup_stale,
}

-- `AtomicCounter.increment` of dpi/types.py.
unfoldable pub increment : ℕ → ℕ
increment n = (n + 1) % uint64_mod

pub record FastPath : Type 0 where
  pub conn_tracker : Tracker
  pub rule_manager : Option RuleManager
  pub last_cleanup : ℕ
  pub packets_processed : ℕ
  pub packets_forwarded : ℕ
  pub packets_dropped : ℕ
  pub sni_extractions : ℕ
  pub classification_hits : ℕ

-- `flags & mask` as a condition.
unfoldable pub has_flag : ℕ → ℕ → Bool
has_flag flags mask = not (bit_and flags mask == 0)

unfoldable pub is_http_port : ℕ → Bool
is_http_port port = port == 80 || port == 8000 || port == 8080 || port == 8888

unfoldable pub see_syn : ℕ → Connection → Connection
unfolding has_flag
see_syn flags conn =
    if has_flag flags 0x02
    then (if has_flag flags 0x10
        then record conn { syn_ack_seen = true }
        else record conn { syn_seen = true })
    else conn

unfoldable pub establish : ℕ → Connection → Connection
unfolding has_flag
establish flags conn =
    if conn.syn_seen && conn.syn_ack_seen && has_flag flags 0x10
    then elim conn.state [ new ↦ record conn { state = established } | _ ↦ conn ]
    else conn

unfoldable pub see_fin : ℕ → Connection → Connection
unfolding has_flag
see_fin flags conn = if has_flag flags 0x01 then record conn { fin_seen = true } else conn

unfoldable pub see_close : ℕ → Connection → Connection
unfolding has_flag
see_close flags conn =
    let reset = if has_flag flags 0x04 then record conn { state = closed } else conn in
    if reset.fin_seen && has_flag flags 0x10 then record reset { state = closed } else reset

unfoldable pub update_tcp_state : ℕ → Connection → Connection
unfolding see_syn establish see_fin see_close
update_tcp_state flags conn = see_close flags (see_fin flags (establish flags (see_syn flags conn)))

unfoldable pub is_state_blocked : ConnectionState → Bool
is_state_blocked s = elim s [ state_blocked ↦ true | _ ↦ false ]

unfoldable pub is_classified : ConnectionState → Bool
is_classified s = elim s [ classified ↦ true | _ ↦ false ]

-- `classify_connection` on the tracker of the processor.
unfoldable pub classify : AppType → Name → FastPath → Connection → FastPath × Connection
unfolding classify_connection
classify app sni fp conn =
    let (tracker, conn') = classify_connection app sni conn fp.conn_tracker in
    (record fp { conn_tracker = tracker }, conn')

-- A hit is a class other than UNKNOWN and `generic`.
unfoldable pub count_hit : AppType → AppType → FastPath → FastPath
unfolding same_app increment
count_hit generic app fp =
    if not (same_app app unknown) && not (same_app app generic)
    then record fp { classification_hits = increment fp.classification_hits }
    else fp

-- What follows the extraction of a server name.
unfoldable pub on_sni : FastPath → Connection → Option Name → FastPath × Connection × Bool
unfolding classify count_hit increment sni_to_app_type
on_sni fp conn none = (fp, conn, false)
on_sni fp conn (some sni) =
    let app = sni_to_app_type sni in
    let (fp', conn') =
      classify app sni (record fp { sni_extractions = increment fp.sni_extractions }) conn in
    (count_hit https app fp', conn', true)

unfoldable pub try_extract_sni :
    PacketJob → FastPath → Connection → Py (FastPath × Connection × Bool)
unfolding on_sni
try_extract_sni job fp conn =
    if not ((job.tuple).dst_port == 443) && ltb job.payload_length 50
    then ok (fp, conn, false)
    else if leb (length job.content) job.payload_offset || job.payload_length == 0
    then ok (fp, conn, false)
    else do
      name ← Sni.extract (drop job.payload_offset job.content) job.payload_length
      ok (on_sni fp conn name)

-- What follows the extraction of a host.
unfoldable pub on_host : FastPath → Connection → Option Name → FastPath × Connection × Bool
unfolding classify count_hit sni_to_app_type
on_host fp conn none = (fp, conn, false)
on_host fp conn (some host) =
    let app = sni_to_app_type host in
    let (fp', conn') = classify app host fp conn in (count_hit http app fp', conn', true)

unfoldable pub try_extract_http_host :
    PacketJob → FastPath → Connection → Py (FastPath × Connection × Bool)
unfolding on_host is_http_port
try_extract_http_host job fp conn =
    if not (is_http_port (job.tuple).dst_port)
    then ok (fp, conn, false)
    else if leb (length job.content) job.payload_offset || job.payload_length == 0
    then ok (fp, conn, false)
    else do
      name ← Http.extract (drop job.payload_offset job.content) job.payload_length
      ok (on_host fp conn name)

-- The query's name, on port 53 only.
unfoldable pub dns_name : PacketJob → Py (Option Name)
dns_name job =
    if (job.tuple).dst_port == 53 || (job.tuple).src_port == 53
    then extract_query (drop job.payload_offset job.content) job.payload_length
    else ok none

unfoldable pub classify_by_port : PacketJob → FastPath → Connection → FastPath × Connection
unfolding classify is_http_port
classify_by_port job fp conn =
    if is_http_port (job.tuple).dst_port
    then classify http [] fp conn
    else if (job.tuple).dst_port == 443
    then classify https [] fp conn
    else (fp, conn)

-- After the SNI and the Host: the query's name, or the port.
unfoldable pub on_query : PacketJob → FastPath → Connection → Option Name → FastPath × Connection
unfolding classify_by_port classify
on_query job fp conn none = classify_by_port job fp conn
on_query job fp conn (some domain) = classify dns domain fp conn

unfoldable pub inspect_payload : PacketJob → FastPath → Connection → Py (FastPath × Connection)
unfolding try_extract_sni try_extract_http_host dns_name on_query
inspect_payload job fp conn =
    if job.payload_length == 0 || leb (length job.content) job.payload_offset
    then ok (fp, conn)
    else do
      (fp₁, conn₁, by_sni) ← try_extract_sni job fp conn
      if by_sni then ok (fp₁, conn₁) else do
        (fp₂, conn₂, by_host) ← try_extract_http_host job fp₁ conn₁
        if by_host
            then ok (fp₂, conn₂)
            else do name ← dns_name job; ok (on_query job fp₂ conn₂ name)

-- The counters and the TCP state of the connection that the lookup returned.
unfoldable pub track_packet : ℕ → PacketJob → Connection → Connection
unfolding is_outbound update_connection update_tcp_state
track_packet later job conn =
    let conn' = update_connection later (length job.content) (is_outbound conn job.tuple) conn in
    if (job.tuple).protocol == 6 then update_tcp_state job.tcp_flags conn' else conn'

-- The sweep of `_run`: every 30 seconds, of what was idle for more than 300.
unfoldable pub sweep_if_due : ℕ → FastPath → FastPath
unfolding cleanup_stale
sweep_if_due now fp =
    if leb (30 * 10 ^ 9) (now - fp.last_cleanup)
    then record fp { last_cleanup = now; conn_tracker = (cleanup_stale now 300 fp.conn_tracker).0 }
    else fp

unfoldable pub count_verdict : PacketAction → FastPath → FastPath
unfolding increment
count_verdict action fp = elim action [
  | drop_packet ↦ record fp { packets_dropped = increment fp.packets_dropped }
  | _ ↦ record fp { packets_forwarded = increment fp.packets_forwarded }
]

module _ (fnmatchcase : Name → Name → Bool) where
  unfoldable pub block_reason : PacketJob → FastPath → Connection → Option BlockReason
  unfolding should_block
  block_reason job fp conn = elim fp.rule_manager [
    | none ↦ none
    | some rules ↦
        should_block fnmatchcase (job.tuple).src_ip (job.tuple).dst_port conn.app_type conn.sni
          rules
  ]

  unfoldable pub check_rules :
      PacketJob → FastPath → Connection → FastPath × Connection × PacketAction
  unfolding block_reason block_connection
  check_rules job fp conn = elim (block_reason job fp conn) [
    | none ↦ (fp, conn, forward)
    | some reason ↦
        let (tracker, conn') = block_connection conn fp.conn_tracker in
        (record fp { conn_tracker = tracker }, conn', drop_packet)
  ]

  -- From the test for a blocked connection to the verdict.
  unfoldable pub judge :
      PacketJob → FastPath → Connection → Py (FastPath × Connection × PacketAction)
  unfolding is_state_blocked is_classified inspect_payload check_rules
  judge job fp conn =
      if is_state_blocked conn.state
      then ok (fp, conn, drop_packet)
      else if not (is_classified conn.state) && ltb 0 job.payload_length
      then (do (fp₁, conn₁) ← inspect_payload job fp conn; ok (check_rules job fp₁ conn₁))
      else ok (check_rules job fp conn)

  unfoldable pub process_packet : ℕ → ℕ → PacketJob → FastPath → Py (FastPath × PacketAction)
  unfolding judge track_packet get_or_create_connection store
  process_packet now later job fp =
      let (tracker, conn) = get_or_create_connection now job.tuple fp.conn_tracker in
      do
        (fp₁, conn₁, action) ←
            judge job (record fp { conn_tracker = tracker }) (track_packet later job conn)
        ok (record fp₁ { conn_tracker = store conn₁ fp₁.conn_tracker }, action)

  -- A round of `_run` after its pop: the state, and the call of the output callback if there is one.
  unfoldable pub run_round :
      ℕ → ℕ → ℕ → Option PacketJob → FastPath → Py (FastPath × Option (PacketJob × PacketAction))
  unfolding sweep_if_due process_packet count_verdict increment
  run_round polled now later none fp = ok (sweep_if_due polled fp, none)
  run_round polled now later (some job) fp =
      let swept = sweep_if_due polled fp in
      do
        (fp', action) ←
            process_packet now later job
              (record swept { packets_processed = increment swept.packets_processed })
        ok (count_verdict action fp', some (job, action))
