-- ===== src/Balance/Counts.antt =====
-- The counters of a `LoadBalancer` thread of dpi/load_balancer.py, and that its loop never raises.
use python_deep_packet_inspe.Prelude.{ℕ, ◌+◌, ◌<◌, ◌≡◌, List, [], ◌∷◌, length, Py, ok}
use python_deep_packet_inspe.Job.{PacketJob}
use python_deep_packet_inspe.Queue
use python_deep_packet_inspe.Queue.{Queue}
use python_deep_packet_inspe.Balance.{LoadBalancer, Phase, polling, pushing, stopped}

abbrev pub total : List ℕ → ℕ
total [] = 0
total (n ∷ ns) = n + total ns

-- The job that is counted as received and not yet as dispatched.
abbrev pub in_hand : Phase → ℕ
in_hand polling = 0
in_hand (pushing job fp_index) = 1
in_hand stopped = 0

abbrev pub PicksServed : Phase → ℕ → Type 0
PicksServed polling n = Unit
PicksServed (pushing job fp_index) n = fp_index < n
PicksServed stopped n = Unit

pub record IsCounted (lb : LoadBalancer) : Type 0 where
  pub serves : 0 < length lb.fp_queues
  pub one_each : length lb.per_fp_counts ≡ length lb.fp_queues
  pub summed : total lb.per_fp_counts ≡ lb.packets_dispatched
  pub balance : lb.packets_received ≡ lb.packets_dispatched + in_hand lb.phase
  pub picks : PicksServed lb.phase (length lb.fp_queues)

abbrev GoodStep :
    LoadBalancer → List (Queue PacketJob) → LoadBalancer × List (Queue PacketJob) → Type 0
GoodStep lb queues r = IsCounted r.0 × (r.0.fp_queues ≡ lb.fp_queues) × (length r.1 ≡ length queues)

Received : LoadBalancer → Py LoadBalancer → Type 0
Received lb r = (lb' : LoadBalancer) × (r ≡ ok lb') × IsCounted lb' × (lb'.fp_queues ≡ lb.fp_queues)

Stepped :
    LoadBalancer → List (Queue PacketJob) → Py (LoadBalancer × List (Queue PacketJob)) → Type 0
Stepped lb queues r =
    (s : LoadBalancer × List (Queue PacketJob)) × (r ≡ ok s) × GoodStep lb queues s
