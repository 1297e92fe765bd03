-- ===== src/Tests/Flows.antt =====
-- The theorems on the flow table and the fast path, at a table with one entry.
use python_deep_packet_inspe.Prelude.{
  suc, ◌+◌, ◌≡◌, refl, Option, some, arith, length, if◌then◌else◌, ok,
}
use python_deep_packet_inspe.Flow.{FiveTuple, reverse}
use python_deep_packet_inspe.Text.{same}
use python_deep_packet_inspe.Tracker.{
  new, established, closed, PacketAction, find, remove, evict_oldest, get_or_create_connection,
  cleanup_stale,
}
use python_deep_packet_inspe.Tracker.Flows.{get_or_create_connection-reverse}
use python_deep_packet_inspe.Tracker.Aging.{
  IsOldest, evict_oldest-IsOldest, unless_stale, cleanup_stale-find,
}
use python_deep_packet_inspe.Tracker.Invariant.{IsTracked, swept, Method-IsTracked}
use python_deep_packet_inspe.FastPath.{run_round, FastPath, update_tcp_state, process_packet}
use python_deep_packet_inspe.FastPath.TcpState.{ends, shakes, update_tcp_state-state}
use python_deep_packet_inspe.FastPath.Safety.{process_packet-returns}
use python_deep_packet_inspe.FastPath.Verdict.{IsTurn, process_packet-IsTurn}
use python_deep_packet_inspe.Job.{PacketJob}
use python_deep_packet_inspe.FastPath.Rounds.{IsRound, run_round-IsRound}
use python_deep_packet_inspe.Tests.{client_to_server, http_job, opened, tracker, fast_path}

tracker-IsTracked : IsTracked tracker
unfolding find
tracker-IsTracked = record { keyed = (refl, refl, refl, tt); bounded = omega arith }

get_or_create_connection-reverse_example :
    get_or_create_connection 8
      (reverse client_to_server)
      (get_or_create_connection 7 client_to_server tracker).0
    ≡ get_or_create_connection 7 client_to_server tracker
get_or_create_connection-reverse_example =
    get_or_create_connection-reverse 7 8 client_to_server tracker tracker-IsTracked.keyed

Method-IsTracked_example : IsTracked (cleanup_stale 9 300 tracker).0
Method-IsTracked_example = Method-IsTracked (swept 9 300 tracker) tracker-IsTracked

evict_oldest-IsOldest_example :
    (o : FiveTuple) × IsOldest o tracker.connections
    × (evict_oldest tracker.connections ≡ remove o tracker.connections)
    × (suc (length (evict_oldest tracker.connections)) ≡ 1)
evict_oldest-IsOldest_example =
    evict_oldest-IsOldest tracker.connections (omega arith) tracker-IsTracked.keyed

cleanup_stale-find_example :
    (find client_to_server ((cleanup_stale 9 300 tracker).0).connections
      ≡ unless_stale 9 300 (find client_to_server tracker.connections))
    × (length ((cleanup_stale 9 300 tracker).0).connections + (cleanup_stale 9 300 tracker).1 ≡ 1)
cleanup_stale-find_example =
    cleanup_stale-find 9 300 tracker client_to_server tracker-IsTracked.keyed

update_tcp_state-state_example :
    (update_tcp_state 4 opened).state
    ≡ (if ends 4 opened then closed else if shakes 4 opened then established else new)
update_tcp_state-state_example = update_tcp_state-state 4 opened

process_packet-returns_example :
    (r : FastPath × PacketAction) × (process_packet same 7 8 http_job fast_path ≡ ok r)
process_packet-returns_example = process_packet-returns same http_job (omega arith) 7 8 fast_path

abbrev turn : (r : FastPath × PacketAction) × (process_packet same 7 8 http_job fast_path ≡ ok r)
turn = process_packet-returns same http_job (omega arith) 7 8 fast_path

process_packet-IsTurn_example : IsTurn same http_job fast_path turn.0
process_packet-IsTurn_example =
    process_packet-IsTurn same 7 8 http_job fast_path turn.0 tracker-IsTracked turn.1

run_round-IsRound_example :
    (r : FastPath × Option (PacketJob × PacketAction)) × (run_round same 9 10 11
        (some http_job)
        fast_path
      ≡ ok r)
    × IsRound same 9 http_job fast_path r
run_round-IsRound_example =
    run_round-IsRound same 9 10 11 http_job fast_path (omega arith)
      (record { balanced = refl; tracked = tracker-IsTracked })
