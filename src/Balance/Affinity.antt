-- ===== src/Balance/Affinity.antt =====
-- Flow affinity of dpi/load_balancer.py: what keeps the connection tracker free of locks.
use python_deep_packet_inspe.Prelude.{
  ℕ, zero, suc, ◌+◌, ◌*◌, ◌%◌, ◌≤◌, ◌<◌, ◌≡◌, refl, ap, ◌∙◌, some, List, [], ◌∷◌, length, get_elem?,
  get_elem?-some, lt→ltb, ok, of_option, ◌>>=◌, arith,
}
use python_deep_packet_inspe.Flow.{FiveTuple, reverse, flow_hash}
use python_deep_packet_inspe.Flow.Symmetry.{flow_hash-reverse}
use python_deep_packet_inspe.Balance.{
  LoadBalancer, init, py_mod, mix64, select_fp, queue_slice, make_lbs, lb_manager,
  get_lb_for_packet, route,
}

-- Both directions of a conversation are routed alike, errors included, so one fast path sees all
-- packets of a flow.
pub route-reverse : (lbs : List LoadBalancer) (t : FiveTuple) → route lbs (reverse t) ≡ route lbs t
unfolding route
route-reverse lbs t = rw (flow_hash-reverse t).0

-- `count_up s n` is `s, s + 1, …`, of length `n`.
pub count_up : ℕ → ℕ → List ℕ
count_up s zero = []
count_up s (suc n) = s ∷ count_up (s + 1) n

length-count_up : (s n : ℕ) → length (count_up s n) ≡ n
unfolding count_up
length-count_up s zero = refl
length-count_up s (suc n) = ap suc (length-count_up (s + 1) n)

get_elem?-count_up : (s n i : ℕ) → i < n → get_elem? (count_up s n) i ≡ some (s + i)
unfolding count_up
get_elem?-count_up s zero i h = elim h [ ]
get_elem?-count_up s (suc n) zero h = ground arith
get_elem?-count_up s (suc n) (suc i) h = ground (arith, get_elem?-count_up (s + 1) n i)

queue_slice-count_up : (num s n : ℕ) → s + n ≤ num → queue_slice num s n ≡ ok (count_up s n)
unfolding queue_slice count_up
queue_slice-count_up num s zero h = refl
queue_slice-count_up num s (suc n) h =
    rw (lt→ltb s num (omega arith), queue_slice-count_up num (s + 1) n (omega arith))

abbrev lb_at : ℕ → ℕ → LoadBalancer
lb_at fps_per_lb i = init i (count_up (i * fps_per_lb) fps_per_lb) (i * fps_per_lb)

abbrev lbs_from : ℕ → ℕ → ℕ → List LoadBalancer
lbs_from fps_per_lb i zero = []
lbs_from fps_per_lb i (suc n) = lb_at fps_per_lb i ∷ lbs_from fps_per_lb (i + 1) n

make_lbs-lbs_from :
    (fps num i n : ℕ) → (i + n) * fps ≤ num → make_lbs fps num i n ≡ ok (lbs_from fps i n)
unfolding make_lbs
make_lbs-lbs_from fps num i zero h = refl
make_lbs-lbs_from fps num i (suc n) h = rw (
  queue_slice-count_up num (i * fps) fps (grind arith),
  make_lbs-lbs_from fps num (i + 1) n (grind arith),
)

length-lbs_from : (fps i n : ℕ) → length (lbs_from fps i n) ≡ n
length-lbs_from fps i zero = refl
length-lbs_from fps i (suc n) = ap suc (length-lbs_from fps (i + 1) n)

get_elem?-lbs_from :
    (fps i n j : ℕ) → j < n → get_elem? (lbs_from fps i n) j ≡ some (lb_at fps (i + j))
get_elem?-lbs_from fps i zero j h = elim h [ ]
get_elem?-lbs_from fps i (suc n) zero h = ap (λ k. some (lb_at fps k)) (omega arith)
get_elem?-lbs_from fps i (suc n) (suc j) h =
    get_elem?-lbs_from fps (i + 1) n j (omega arith) ∙ ap (λ k. some (lb_at fps k)) (omega arith)

pub py_mod_pos : (a n : ℕ) → 0 < n → (py_mod a n ≡ ok (a % n)) × (a % n < n)
unfolding py_mod
py_mod_pos a n h = (ground arith, omega arith)

-- With a balancer at least, the one of a packet is found by its flow hash.
pub get_lb_for_packet_ok :
    (lbs : List LoadBalancer) (t : FiveTuple)
    → 0 < length lbs
    → (lb : LoadBalancer) × (get_elem? lbs (flow_hash t % length lbs) ≡ some lb)
      × (get_lb_for_packet lbs t ≡ ok lb)
unfolding get_lb_for_packet
get_lb_for_packet_ok lbs t h =
    let (e, l) = py_mod_pos (flow_hash t) (length lbs) h in
    let (lb, g) = get_elem?-some lbs (flow_hash t % length lbs) l in (lb, g, rw e (rw g refl))

get_lb-lbs_from :
    (fps n : ℕ) (t : FiveTuple)
    → 0 < n
    → get_lb_for_packet (lbs_from fps 0 n) t ≡ ok (lb_at fps (flow_hash t % n))
unfolding get_lb_for_packet
get_lb-lbs_from fps n t h =
    rw (length-lbs_from fps 0 n, (py_mod_pos (flow_hash t) n h).0)
      (rw (get_elem?-lbs_from fps 0 n (flow_hash t % n) (py_mod_pos (flow_hash t) n h).1)
        (ap (λ k. ok (lb_at fps k)) (omega arith)))

-- The queue that the balancer with number `i` picks.
select-lb_at :
    (fps i : ℕ) (t : FiveTuple)
    → 0 < fps
    → (select_fp (length (lb_at fps i).fp_queues) t >>= λ j.
        of_option (get_elem? (lb_at fps i).fp_queues j))
      ≡ ok (i * fps + mix64 (flow_hash t) % fps)
unfolding select_fp init
select-lb_at fps i t h =
    rw (length-count_up (i * fps) fps, (py_mod_pos (mix64 (flow_hash t)) fps h).0)
      (rw (get_elem?-count_up (i * fps) fps _ (py_mod_pos (mix64 (flow_hash t)) fps h).1) refl)

route_bound : (a b l f n : ℕ) → a < l → b < f → l * f ≤ n → a * f + b < n
route_bound a b l f n p q h = grind arith

pub route-lb_manager :
    (num_lbs fps_per_lb num_queues : ℕ) (t : FiveTuple)
    → 0 < num_lbs
    → 0 < fps_per_lb
    → num_lbs * fps_per_lb ≤ num_queues
    → (lbs : List LoadBalancer) × (lb_manager num_lbs fps_per_lb num_queues ≡ ok lbs)
      × (length lbs ≡ num_lbs)
      × (route lbs t ≡ ok (flow_hash t % num_lbs * fps_per_lb + mix64 (flow_hash t) % fps_per_lb))
      × (flow_hash t % num_lbs * fps_per_lb + mix64 (flow_hash t) % fps_per_lb < num_queues)
unfolding lb_manager route
route-lb_manager num_lbs fps num t hl hf hq = (
  lbs_from fps 0 num_lbs,
  make_lbs-lbs_from fps num 0 num_lbs (grind arith),
  length-lbs_from fps 0 num_lbs,
  rw (get_lb-lbs_from fps num_lbs t hl) (select-lb_at fps (flow_hash t % num_lbs) t hf),
  route_bound _ _ num_lbs fps num (py_mod_pos (flow_hash t) num_lbs hl).1
      (py_mod_pos (mix64 (flow_hash t)) fps hf).1 hq,
)
