-- ===== src/Drain.antt =====
-- `_wait_until_queues_idle` of dpi/dpi_engine.py: it looks at the queues again and again until the
-- deadline. What it sees is a list of observations, each the sizes of the queues of the output, of
-- the load balancers and of the fast paths.
pub mod Idle
use python_deep_packet_inspe.Prelude.{
  ℕ, ◌+◌, Bool, true, false, List, [], ◌∷◌, leb, ◌==◌, if◌then◌else◌,
}

pub record Observation : Type 0 where
  pub output : ℕ
  pub balancers : List ℕ
  pub fast_paths : List ℕ

unfoldable pub add_depths : ℕ → List ℕ → ℕ
add_depths depth [] = depth
add_depths depth (size ∷ sizes) = add_depths (depth + size) sizes

unfoldable pub depth_of : Observation → ℕ
unfolding add_depths
depth_of seen = add_depths (add_depths seen.output seen.balancers) seen.fast_paths

-- The loop, by the observations before the deadline.
unfoldable pub wait_idle : ℕ → List Observation → Bool
unfolding depth_of
wait_idle stable [] = false
wait_idle stable (seen ∷ later) =
    let stable' = if depth_of seen == 0 then stable + 1 else 0 in
    let rest = wait_idle stable' later in if leb 5 stable' then true else rest

unfoldable pub wait_until_queues_idle : List Observation → Bool
unfolding wait_idle
wait_until_queues_idle seen = wait_idle 0 seen
