-- ===== src/Drain/Idle.antt =====
-- When `_wait_until_queues_idle` of dpi/dpi_engine.py says that the pipeline is idle.
use python_deep_packet_inspe.Prelude.{
  leb→le, subst, ◌≢◌, ℕ, ◌+◌, ◌<◌, ◌≤◌, ◌≡◌, true, false, List, [], ◌∷◌, ◌++◌, leb, ◌==◌,
  if◌then◌else◌, All, length, ◌↔◌, arith, refl, ap, ◌∙◌, sym, Bool-cases, inl, inr, append_assoc,
  length-append, All-append,
}
use python_deep_packet_inspe.Drain.{
  Observation, add_depths, depth_of, wait_idle, wait_until_queues_idle,
}

-- Every queue is empty.
pub record IsEmpty (seen : Observation) : Type 0 where
  pub output : seen.output ≡ 0
  pub balancers : All (λ size. size ≡ 0) seen.balancers
  pub fast_paths : All (λ size. size ≡ 0) seen.fast_paths

add_depths_lem :
    (depth : ℕ) (sizes : List ℕ)
    → add_depths depth sizes ≡ 0
    → (depth ≡ 0) × All (λ size. size ≡ 0) sizes
unfolding add_depths
add_depths_lem depth [] h = (h, tt)
add_depths_lem depth (size ∷ sizes) h =
    let (e, rest) = add_depths_lem (depth + size) sizes h in
    (omega (arith, e), (omega (arith, e), rest))

add_depths-zero :
    (depth : ℕ) (sizes : List ℕ)
    → depth ≡ 0
    → All (λ size. size ≡ 0) sizes
    → add_depths depth sizes ≡ 0
unfolding add_depths
add_depths-zero depth [] e h = e
add_depths-zero depth (size ∷ sizes) e (f, h) =
    add_depths-zero (depth + size) sizes (omega (arith, e, f)) h

depth_of-IsEmpty : (seen : Observation) → depth_of seen ≡ 0 → IsEmpty seen
unfolding depth_of
depth_of-IsEmpty seen h =
    let (e, f) = add_depths_lem (add_depths seen.output seen.balancers) seen.fast_paths h in
    let (o, b) = add_depths_lem seen.output seen.balancers e in
    record { output = o; balancers = b; fast_paths = f }

IsEmpty-depth_of : (seen : Observation) → IsEmpty seen → depth_of seen ≡ 0
unfolding depth_of
IsEmpty-depth_of seen i =
    add_depths-zero (add_depths seen.output seen.balancers) seen.fast_paths
      (add_depths-zero seen.output seen.balancers i.output i.balancers) i.fast_paths

-- Five observations in a row of empty queues.
pub record IsIdle (seen : List Observation) : Type 0 where
  pub before : List Observation
  pub idle : List Observation
  pub after : List Observation
  pub parts : seen ≡ before ++ (idle ++ after)
  pub five : length idle ≡ 5
  pub empty : All IsEmpty idle

later-IsIdle :
    (seen : Observation) (later : List Observation) → IsIdle later → IsIdle (seen ∷ later)
later-IsIdle seen later i = record {
  before = seen ∷ i.before;
  idle = i.idle;
  after = i.after;
  parts = ap (◌∷◌ seen) i.parts;
  five = i.five;
  empty = i.empty;
}

step_empty :
    (stable : ℕ) (seen : Observation) (later : List Observation)
    → depth_of seen ≡ 0
    → wait_idle stable (seen ∷ later)
      ≡ (if leb 5 (stable + 1) then true else wait_idle (stable + 1) later)
unfolding wait_idle
step_empty stable seen later e = rw e refl

step_busy :
    (stable : ℕ) (seen : Observation) (later : List Observation)
    → (depth_of seen == 0) ≡ false
    → wait_idle stable (seen ∷ later) ≡ wait_idle 0 later
unfolding wait_idle
step_busy stable seen later e = rw e refl

drop_run : (run later : List Observation) → IsIdle later → IsIdle (run ++ later)
drop_run [] later i = i
drop_run (seen ∷ run) later i = later-IsIdle seen (run ++ later) (drop_run run later i)

nothing : (stable : ℕ) → wait_idle stable [] ≢ true
unfolding wait_idle
nothing stable e = cc

-- The run of empty observations just before, and those to come.
sound :
    (seen run : List Observation)
    → length run < 5
    → All IsEmpty run
    → wait_idle (length run) seen ≡ true
    → IsIdle (run ++ seen)
sound [] run l h e = absurd (nothing (length run) e)
sound (seen ∷ later) run l h e = elim (Bool-cases (depth_of seen == 0)) [
  | inl z ↦
      let empty : depth_of seen ≡ 0 = ground (arith, z) in
      let longer = run ++ seen ∷ [] in
      let n = length-append run (seen ∷ []) in
      let all = All-append IsEmpty run (seen ∷ []) h (depth_of-IsEmpty seen empty, tt) in
      let same = append_assoc run (seen ∷ []) later in
      let next = sym (step_empty (length run) seen later empty) ∙ e in
      elim (Bool-cases (leb 5 (length run + 1))) [
        | inl big ↦
            let big' = leb→le 5 (length run + 1) big in
            record {
              before = [];
              idle = longer;
              after = later;
              parts = sym same;
              five = omega (arith, n, big', l);
              empty = all;
            }
        | inr small ↦ subst IsIdle same (
            sound later longer (grind (arith, n, small)) all (
              ap (λ k. wait_idle k later) n
              ∙ sym (ap (λ b. if b then true else wait_idle (length run + 1) later) small)
              ∙ next))
      ]
  | inr busy ↦ drop_run run (seen ∷ later) (
      later-IsIdle seen later
        (sound later [] (omega arith) tt (sym (step_busy (length run) seen later busy) ∙ e)))
]

run_complete :
    (idle : List Observation) (stable : ℕ) (after : List Observation)
    → stable < 5
    → 5 ≤ stable + length idle
    → All IsEmpty idle
    → wait_idle stable (idle ++ after) ≡ true
run_complete [] stable after l n h = absurd (omega (arith, l, n))
run_complete (seen ∷ idle) stable after l n (z, h) =
    let rest = run_complete idle (stable + 1) after in
    step_empty stable seen (idle ++ after) (IsEmpty-depth_of seen z) ∙ ground (arith, rest, l, n, h)

complete :
    (before : List Observation) (stable : ℕ) (idle after : List Observation)
    → stable < 5
    → length idle ≡ 5
    → All IsEmpty idle
    → wait_idle stable (before ++ (idle ++ after)) ≡ true
complete [] stable idle after l n h = run_complete idle stable after l (omega (arith, n)) h
complete (seen ∷ before) stable idle after l n h = elim (Bool-cases (depth_of seen == 0)) [
  | inl z ↦
      let empty : depth_of seen ≡ 0 = ground (arith, z) in
      let rest = complete before (stable + 1) idle after in
      step_empty stable seen (before ++ (idle ++ after)) empty ∙ ground (arith, rest, l, n, h)
  | inr busy ↦
      step_busy stable seen (before ++ (idle ++ after)) busy
      ∙ complete before 0 idle after (omega arith) n h
]

-- The engine takes the pipeline for idle exactly when, before the deadline, it sees all queues empty
-- five times in a row.
pub wait_until_queues_idle-IsIdle :
    (seen : List Observation) → (wait_until_queues_idle seen ≡ true) ↔ IsIdle seen
unfolding wait_until_queues_idle
wait_until_queues_idle-IsIdle seen = (
  λ h. sound seen [] (omega arith) tt h,
  λ i. ap (wait_idle 0) i.parts ∙ complete i.before 0 i.idle i.after (omega arith) i.five i.empty,
)
