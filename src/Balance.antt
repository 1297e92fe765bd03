-- ===== src/Balance.antt =====
-- dpi/load_balancer.py: the second hash, the choice of a load balancer and of a fast path, and the
-- loop of a `LoadBalancer` thread. Queues are shared objects: a load balancer holds the numbers of
-- the fast-path queues that it serves, and the queues themselves are passed along.
pub mod Affinity
pub mod Counts
use python_deep_packet_inspe.Prelude.{
  ℕ, zero, suc, ◌+◌, ◌*◌, ◌/◌, ◌%◌, ◌^◌, bit_xor, Bool, true, false, Option, none, some, List, [],
  ◌∷◌, ◌==◌, if◌then◌else◌, ltb, length, get_elem?, set, replicate, Py, ok, raise, index_error,
  zero_division, of_option, ◌>>=◌,
}
use python_deep_packet_inspe.Flow.{FiveTuple, flow_hash, uint64_mod}
use python_deep_packet_inspe.Job.{PacketJob}
use python_deep_packet_inspe.Queue
use python_deep_packet_inspe.Queue.{Queue, Outcome, blocked, done}

unfoldable pub mix64 : ℕ → ℕ
mix64 value =
    let a = value % uint64_mod in
    let b = bit_xor a (a / 2 ^ 30) * 0xBF58_476D_1CE4_E5B9 % uint64_mod in
    let c = bit_xor b (b / 2 ^ 27) * 0x94D0_49BB_1331_11EB % uint64_mod in
    bit_xor c (c / 2 ^ 31) % uint64_mod

-- `a % n` of Python.
unfoldable pub py_mod : ℕ → ℕ → Py ℕ
py_mod a n = if n == 0 then raise zero_division else ok (a % n)

unfoldable pub select_fp : ℕ → FiveTuple → Py ℕ
unfolding py_mod
select_fp num_fps t = py_mod (mix64 (flow_hash t)) num_fps

-- Where the thread of a load balancer stands in `_run`: at the head of its loop, about to push a
-- job that it has counted as received, or past the loop.
pub data Phase : Type 0 where
  polling : Phase
  pushing : PacketJob → ℕ → Phase
  stopped : Phase

pub record LoadBalancer : Type 0 where
  pub lb_id : ℕ
  pub fp_start_id : ℕ
  pub fp_queues : List ℕ
  pub input_queue : Queue PacketJob
  pub packets_received : ℕ
  pub packets_dispatched : ℕ
  pub per_fp_counts : List ℕ
  pub running : Bool
  pub phase : Phase

abbrev pub lb_queue_size : ℕ
lb_queue_size = 10000

unfoldable pub init : ℕ → List ℕ → ℕ → LoadBalancer
unfolding Queue.init
init lb_id fp_queues fp_start_id = record {
  lb_id = lb_id;
  fp_start_id = fp_start_id;
  fp_queues = fp_queues;
  input_queue = Queue.init lb_queue_size;
  packets_received = 0;
  packets_dispatched = 0;
  per_fp_counts = replicate (length fp_queues) 0;
  running = false;
  phase = stopped;
}

-- `counts[i] += 1`.
unfoldable pub count_at : List ℕ → ℕ → List ℕ
count_at [] i = []
count_at (n ∷ ns) zero = (n + 1) ∷ ns
count_at (n ∷ ns) (suc i) = n ∷ count_at ns i

received : LoadBalancer → Queue PacketJob × Option PacketJob → Py LoadBalancer
received lb (q, none) = ok (record lb { input_queue = q })
received lb (q, some job) = do
  fp_index ← select_fp (length lb.fp_queues) job.tuple
  ok (record lb {
    input_queue = q;
    packets_received = lb.packets_received + 1;
    phase = pushing job fp_index;
  })

-- The part of `_run` from the head of the loop up to the push.
unfoldable pub receive : LoadBalancer → Py LoadBalancer
unfolding received
receive lb =
    if lb.running
    then received lb (Queue.pop_with_timeout lb.input_queue)
    else ok (record lb { phase = stopped })

-- The state after a push that returned. A push that shutdown cut short counts as well.
abbrev pub dispatched : LoadBalancer → ℕ → LoadBalancer
dispatched lb fp_index = record lb {
  packets_dispatched = lb.packets_dispatched + 1;
  per_fp_counts = count_at lb.per_fp_counts fp_index;
  phase = polling;
}

pushed :
    LoadBalancer
    → List (Queue PacketJob)
    → ℕ
    → ℕ
    → Outcome (Queue PacketJob × Bool)
    → LoadBalancer × List (Queue PacketJob)
pushed lb queues fp_index n blocked = (lb, queues)
pushed lb queues fp_index n (done (q, _)) = (dispatched lb fp_index, set queues n q)

-- The push and the two counters after it. A push that blocks leaves the thread where it is.
unfoldable pub dispatch :
    LoadBalancer
    → List (Queue PacketJob)
    → PacketJob
    → ℕ
    → Py (LoadBalancer × List (Queue PacketJob))
unfolding pushed
dispatch lb queues job fp_index = do
  n ← of_option (get_elem? lb.fp_queues fp_index)
  q ← of_option (get_elem? queues n)
  ok (pushed lb queues fp_index n (Queue.push job q))

dispatch_phase :
    Phase → LoadBalancer → List (Queue PacketJob) → Py (LoadBalancer × List (Queue PacketJob))
dispatch_phase polling lb queues = do lb' ← receive lb; ok (lb', queues)
dispatch_phase (pushing job fp_index) lb queues = dispatch lb queues job fp_index
dispatch_phase stopped lb queues = ok (lb, queues)

-- One step of the thread.
unfoldable pub step :
    LoadBalancer → List (Queue PacketJob) → Py (LoadBalancer × List (Queue PacketJob))
unfolding dispatch_phase receive dispatch
step lb queues = dispatch_phase lb.phase lb queues

-- `[fp_queues[fp_start + i] for i in range(fps_per_lb)]`, with the numbers of the queues.
unfoldable pub queue_slice : ℕ → ℕ → ℕ → Py (List ℕ)
queue_slice num_queues fp_start zero = ok []
queue_slice num_queues fp_start (suc n) =
    if ltb fp_start num_queues
    then (do rest ← queue_slice num_queues (fp_start + 1) n; ok (fp_start ∷ rest))
    else raise index_error

-- The loop of `LBManager.__init__`, from `lb_id` on for `n` rounds.
unfoldable pub make_lbs : ℕ → ℕ → ℕ → ℕ → Py (List LoadBalancer)
unfolding queue_slice
make_lbs fps_per_lb num_queues lb_id zero = ok []
make_lbs fps_per_lb num_queues lb_id (suc n) = do
  slice ← queue_slice num_queues (lb_id * fps_per_lb) fps_per_lb
  rest ← make_lbs fps_per_lb num_queues (lb_id + 1) n
  ok (init lb_id slice (lb_id * fps_per_lb) ∷ rest)

-- `LBManager(num_lbs, fps_per_lb, fp_queues)`, by the number of queues.
unfoldable pub lb_manager : ℕ → ℕ → ℕ → Py (List LoadBalancer)
unfolding make_lbs
lb_manager num_lbs fps_per_lb num_queues = make_lbs fps_per_lb num_queues 0 num_lbs

unfoldable pub get_lb_for_packet : List LoadBalancer → FiveTuple → Py LoadBalancer
unfolding py_mod
get_lb_for_packet lbs t = do i ← py_mod (flow_hash t) (length lbs); of_option (get_elem? lbs i)

-- The number of the fast path that a packet reaches: the balancer that the reader picks, and then
-- the queue that this balancer picks.
unfoldable pub route : List LoadBalancer → FiveTuple → Py ℕ
unfolding get_lb_for_packet select_fp
route lbs t = do
  lb ← get_lb_for_packet lbs t
  fp_index ← select_fp (length lb.fp_queues) t
  of_option (get_elem? lb.fp_queues fp_index)
