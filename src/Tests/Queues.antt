-- ===== src/Tests/Queues.antt =====
-- The theorems on queues, load balancers and the flow hash, at small states.
use python_deep_packet_inspe.Prelude.{
  ℕ, replicate, ◌≤◌, ◌≡◌, ◌↔◌, ◌⊎◌, true, false, none, List, [], ◌∷◌, ◌++◌, length,
}
use python_deep_packet_inspe.Flow.{reverse, canonical}
use python_deep_packet_inspe.Flow.Symmetry.{canonical-eq_iff}
use python_deep_packet_inspe.Job.{PacketJob}
use python_deep_packet_inspe.Queue.{Queue, done, pop}
use python_deep_packet_inspe.Queue.Fifo.{
  Call, push_call, try_push_call, pop_call, pop_with_timeout_call, shutdown_call, Trace, start,
  step, run, run_fifo,
}
use python_deep_packet_inspe.Queue.Closing.{shutdown_drains}
use python_deep_packet_inspe.Balance.{LoadBalancer, polling}
use python_deep_packet_inspe.Balance
use python_deep_packet_inspe.Tests.{client_to_server, http_job}

canonical-eq_iff_example : (canonical client_to_server ≡ canonical (reverse client_to_server)) ↔ (
    (client_to_server ≡ reverse client_to_server)
    ⊎ (client_to_server ≡ reverse (reverse client_to_server)))
canonical-eq_iff_example = canonical-eq_iff client_to_server (reverse client_to_server)

-- A full queue refuses the third item.
abbrev calls : List (Call ℕ)
calls =
    push_call 1
    ∷ push_call 2
    ∷ try_push_call 3
    ∷ pop_call
    ∷ shutdown_call
    ∷ push_call 4
    ∷ pop_with_timeout_call
    ∷ []

run_fifo_example :
    ((run (start 2) calls).accepted
      ≡ (run (start 2) calls).delivered ++ (run (start 2) calls).queue.items)
    × (length (run (start 2) calls).queue.items ≤ 2)
run_fifo_example = run_fifo 2 calls

abbrev shut : Trace ℕ
shut = record {
  queue = record { items = 1 ∷ 2 ∷ []; max_size = 2; is_shutdown = true };
  accepted = 1 ∷ 2 ∷ [];
  delivered = [];
}

shutdown_drains_example :
    ((run (step shut shutdown_call) (replicate 2 pop_call)).delivered ≡ 1 ∷ 2 ∷ [])
    × (pop (run (step shut shutdown_call) (replicate 2 pop_call)).queue
        ≡ done (record { items = []; max_size = 2; is_shutdown = true }, none))
shutdown_drains_example = shutdown_drains shut

abbrev balancer : LoadBalancer
balancer = record {
  lb_id = 0;
  fp_start_id = 0;
  fp_queues = 0 ∷ 1 ∷ [];
  input_queue = record { items = http_job ∷ []; max_size = 10; is_shutdown = false };
  packets_received = 0;
  packets_dispatched = 0;
  per_fp_counts = 0 ∷ 0 ∷ [];
  running = true;
  phase = polling;
}

abbrev empty_queues : List (Queue PacketJob)
empty_queues =
    record { items = []; max_size = 1; is_shutdown = false }
    ∷ record { items = []; max_size = 1; is_shutdown = false }
    ∷ []
