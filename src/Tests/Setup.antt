-- ===== src/Tests/Setup.antt =====
-- An engine that was set up, queues that were seen empty, and a number in network order.
use python_deep_packet_inspe.Prelude.{[], ◌∷◌, ◌≡◌, refl, ok, none, true, arith, ◌↔◌, replicate}
use python_deep_packet_inspe.Startup.{Config, Parts, initialize}
use python_deep_packet_inspe.Startup.Ready.{IsReady, initialize-IsReady}
use python_deep_packet_inspe.Drain.{Observation, wait_until_queues_idle}
use python_deep_packet_inspe.Drain.Idle.{IsIdle, wait_until_queues_idle-IsIdle}

-- The default configuration, with a rules file that cannot be opened.
abbrev default_config : Config
default_config = record { num_load_balancers = 2; fps_per_lb = 2; rules_file = b'r' ∷ [] }

initialize-IsReady_example :
    (parts : Parts) × (initialize (λ name. none) 0 default_config ≡ ok parts)
    × IsReady default_config parts
initialize-IsReady_example =
    initialize-IsReady (λ name. none) 0 default_config (omega arith) (omega arith)

abbrev busy : Observation
busy = record { output = 0; balancers = 1 ∷ []; fast_paths = [] }

abbrev idle : Observation
idle = record { output = 0; balancers = 0 ∷ 0 ∷ []; fast_paths = 0 ∷ [] }

wait_until_queues_idle-IsIdle_example :
    (wait_until_queues_idle (idle ∷ busy ∷ replicate 5 idle) ≡ true)
    ↔ IsIdle (idle ∷ busy ∷ replicate 5 idle)
wait_until_queues_idle-IsIdle_example =
    wait_until_queues_idle-IsIdle (idle ∷ busy ∷ replicate 5 idle)

-- The wait ends.
wait_until_queues_idle_test : wait_until_queues_idle (idle ∷ busy ∷ replicate 5 idle) ≡ true
unfolding wait_until_queues_idle
wait_until_queues_idle_test = refl
