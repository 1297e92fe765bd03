-- ===== src/FastPath/Rounds.antt =====
-- The rounds of `_run` of dpi/fast_path.py and its counters.
use python_deep_packet_inspe.Prelude.{
  ℕ, ◌+◌, ◌-◌, ◌*◌, ◌%◌, ◌^◌, ◌≡◌, refl, sym, ap, ap₂, ◌∙◌, Bool, true, false, Option, some, arith,
  leb, if◌then◌else◌, ok,
}
use python_deep_packet_inspe.Flow.{uint64_mod}
use python_deep_packet_inspe.Job.{PacketJob}
use python_deep_packet_inspe.Sni.{Name}
use python_deep_packet_inspe.Tracker.{
  PacketAction, drop_packet, forward, inspect, log_only, cleanup_stale,
}
use python_deep_packet_inspe.Tracker.Invariant.{IsTracked, Method-IsTracked, swept}
use python_deep_packet_inspe.FastPath.{
  FastPath, increment, sweep_if_due, count_verdict, run_round, block_reason,
}
use python_deep_packet_inspe.FastPath.Follows.{counts}
use python_deep_packet_inspe.FastPath.Safety.{FitsPayload, process_packet-returns}
use python_deep_packet_inspe.FastPath.Verdict.{IsTurn, process_packet-IsTurn, process_packet-counts}

-- Every packet processed was forwarded or dropped, and the flow table is well formed.
pub record IsBalanced (fp : FastPath) : Type 0 where
  pub balanced : fp.packets_processed ≡ (fp.packets_forwarded + fp.packets_dropped) % uint64_mod
  pub tracked : IsTracked fp.conn_tracker

sweep-IsBalanced : (now : ℕ) (fp : FastPath) → IsBalanced fp → IsBalanced (sweep_if_due now fp)
unfolding sweep_if_due
sweep-IsBalanced now fp h = by_time (leb (30 * 10 ^ 9) (now - fp.last_cleanup))
  where
    by_time :
        (b : Bool)
        → IsBalanced (
            if b
            then record fp {
              last_cleanup = now;
              conn_tracker = (cleanup_stale now 300 fp.conn_tracker).0;
            }
            else fp)
    by_time true = record {
      balanced = h.balanced;
      tracked = Method-IsTracked (swept now 300 fp.conn_tracker) h.tracked;
    }
    by_time false = h

count-IsBalanced :
    (action : PacketAction) (fp : FastPath)
    → fp.packets_processed ≡ increment ((fp.packets_forwarded + fp.packets_dropped) % uint64_mod)
    → IsTracked fp.conn_tracker
    → IsBalanced (count_verdict action fp)
unfolding count_verdict increment
count-IsBalanced drop_packet fp h t = record { balanced = omega (arith, h); tracked = t }
count-IsBalanced forward fp h t = record { balanced = omega (arith, h); tracked = t }
count-IsBalanced inspect fp h t = record { balanced = omega (arith, h); tracked = t }
count-IsBalanced log_only fp h t = record { balanced = omega (arith, h); tracked = t }

-- What a round with a packet leaves: its state is balanced, the packet goes to the callback with an
-- action, and the state and the action are those of a turn that began after the sweep.
pub record IsRound (fnmatchcase : Name → Name → Bool) (polled : ℕ) (job : PacketJob) (fp : FastPath)
    (r : FastPath × Option (PacketJob × PacketAction)) : Type 0 where
  pub kept : IsBalanced r.0
  pub action : PacketAction
  pub emitted : r.1 ≡ some (job, action)
  pub judged : IsTurn fnmatchcase job (sweep_if_due polled fp) (r.0, action)
  pub rules : (r.0).rule_manager ≡ fp.rule_manager

sweep-rules : (now : ℕ) (fp : FastPath) → (sweep_if_due now fp).rule_manager ≡ fp.rule_manager
unfolding sweep_if_due
sweep-rules now fp = ground arith

-- The counters of a verdict are no part of the turn.
count-IsTurn :
    (fnmatchcase : Name → Name → Bool) (job : PacketJob) (fp fp' : FastPath) (action : PacketAction)
    → IsTurn fnmatchcase job fp (fp', action)
    → IsTurn fnmatchcase job fp (count_verdict action fp', action)
unfolding count_verdict block_reason
count-IsTurn fnmatchcase job fp fp' drop_packet t = t
count-IsTurn fnmatchcase job fp fp' forward t = t
count-IsTurn fnmatchcase job fp fp' inspect t = t
count-IsTurn fnmatchcase job fp fp' log_only t = t

counted_lem :
    (fp fp' : FastPath)
    → counts fp' ≡ (increment fp.packets_processed, fp.packets_forwarded, fp.packets_dropped)
    → fp.packets_processed ≡ (fp.packets_forwarded + fp.packets_dropped) % uint64_mod
    → fp'.packets_processed ≡ increment ((fp'.packets_forwarded + fp'.packets_dropped) % uint64_mod)
counted_lem fp fp' c h =
    ap (λ x. x.0) c
    ∙ ap increment (h ∙ sym (ap₂ (λ a b. (a + b) % uint64_mod) (ap (λ x. x.1) c) (ap (λ x. x.2) c)))

-- A round with a packet whose payload lies within its bytes returns and gives the callback the
-- packet with an action: DROP where the packet's connection in the table after the round is BLOCKED,
-- and FORWARD where it is not and no rule blocks the packet. The round keeps the rules and the
-- balance: the packets processed are those forwarded and those dropped, in 64 bits.
pub run_round-IsRound :
    (fnmatchcase : Name → Name → Bool) (polled now later : ℕ) (job : PacketJob) (fp : FastPath)
    → FitsPayload job
    → IsBalanced fp
    → (r : FastPath × Option (PacketJob × PacketAction)) × (run_round fnmatchcase polled now later
          (some job)
          fp
        ≡ ok r)
      × IsRound fnmatchcase polled job fp r
unfolding run_round
run_round-IsRound fnmatchcase polled now later job fp fits h =
    let clean = sweep_if_due polled fp in
    let begun : FastPath = record clean { packets_processed = increment clean.packets_processed } in
    let s = sweep-IsBalanced polled fp h in
    let (turn, e) = process_packet-returns fnmatchcase job fits now later begun in
    let t = process_packet-IsTurn fnmatchcase now later job begun turn s.tracked e in
    let c = process_packet-counts fnmatchcase now later job begun turn e in
    (
      (count_verdict turn.1 turn.0, some (job, turn.1)),
      rw e refl,
      record {
        kept = count-IsBalanced turn.1 turn.0 (counted_lem clean turn.0 c s.balanced) t.0;
        action = turn.1;
        emitted = refl;
        judged = count-IsTurn fnmatchcase job clean turn.0 turn.1 t;
        rules = (count-IsTurn fnmatchcase job clean turn.0 turn.1 t).1 ∙ sweep-rules polled fp;
      },
    )
