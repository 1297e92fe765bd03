-- ===== src/Working/Sorted.antt =====
-- What became of the packets of main_working.py, and its counters and output after them.
use python_deep_packet_inspe.Prelude.{
  ℕ, suc, ◌+◌, ◌≡◌, sym, ◌∙◌, false, List, [], ◌∷◌, ◌++◌, append-nil, append_assoc, arith, length,
  All,
}
use python_deep_packet_inspe.Flow.{FiveTuple}
use python_deep_packet_inspe.Pack.{ByteOrder}
use python_deep_packet_inspe.Parser.{RawPacket}
use python_deep_packet_inspe.Pcap.Records.{packet_bytes}
use python_deep_packet_inspe.Pcap.Written.{records}
use python_deep_packet_inspe.Working.{BlockingRules, Flow, flow_of, Run}
use python_deep_packet_inspe.Working.Turns.{Turn, skip, drop_it, forward, IsOther, IsOf}
use python_deep_packet_inspe.Working.Verdict.{IsVerdict}
use python_deep_packet_inspe.Working.Steps.{Steps, done, next}

-- The packets of a capture, each with what became of it: written, dropped, or of no flow.
pub data Sorted (order : ByteOrder) : List RawPacket → List RawPacket → ℕ → Type 0 where
  none_left : Sorted order [] [] 0
  other :
      {raw : RawPacket} {raws written : List RawPacket} {dropped : ℕ}
      → IsOther order raw
      → Sorted order raws written dropped
      → Sorted order (raw ∷ raws) written dropped
  dropped_one :
      {raw : RawPacket} {raws written : List RawPacket} {dropped : ℕ} (t : FiveTuple)
      → IsOf order t raw
      → Sorted order raws written dropped
      → Sorted order (raw ∷ raws) written (suc dropped)
  written_one :
      {raw : RawPacket} {raws written : List RawPacket} {dropped : ℕ} (t : FiveTuple)
      → IsOf order t raw
      → Sorted order raws written dropped
      → Sorted order (raw ∷ raws) (raw ∷ written) dropped

-- What turns do to a run: `written` are the packets whose records they add.
pub record IsSorted (order : ByteOrder) (run : Run) (raws : List RawPacket) (run' : Run)
    : Type 0 where
  pub written : List RawPacket
  pub left : ℕ
  pub sorted : Sorted order raws written left
  pub total_packets : run'.total_packets ≡ run.total_packets + length raws
  pub forwarded : run'.forwarded ≡ run.forwarded + length written
  pub dropped : run'.dropped ≡ run.dropped + left
  pub output : run'.output ≡ run.output ++ records order written

module _ (order : ByteOrder) (rules : BlockingRules) where
  step-IsSorted :
      (raw : RawPacket) (raws : List RawPacket) (run mid run' : Run)
      → Turn order rules raw run mid
      → IsSorted order mid raws run'
      → IsSorted order run (raw ∷ raws) run'
  unfolding records
  step-IsSorted raw raws run mid run' (skip x) s =
      let t = s.total_packets in
      record {
        written = s.written;
        left = s.left;
        sorted = other x s.sorted;
        total_packets = omega (arith, t);
        forwarded = s.forwarded;
        dropped = s.dropped;
        output = s.output;
      }
  step-IsSorted raw raws run mid run' (drop_it t flow x v b) s =
      let n = s.total_packets in
      let d = s.dropped in
      record {
        written = s.written;
        left = suc s.left;
        sorted = dropped_one t x s.sorted;
        total_packets = omega (arith, n);
        forwarded = s.forwarded;
        dropped = omega (arith, d);
        output = s.output;
      }
  step-IsSorted raw raws run mid run' (forward t flow x v b) s =
      let n = s.total_packets in
      let d = s.forwarded in
      record {
        written = raw ∷ s.written;
        left = s.left;
        sorted = written_one t x s.sorted;
        total_packets = omega (arith, n);
        forwarded = omega (arith, d);
        dropped = s.dropped;
        output =
            s.output
            ∙ append_assoc run.output
                (packet_bytes order raw.header.ts_sec raw.header.ts_usec raw.content)
                (records order s.written);
      }

  -- What the turns keep of the run holds after them, and what it makes of a packet that is written
  -- holds of all of these.
  pub Steps-follow :
      (I : Run → Type 0) (P : RawPacket → Type 0)
      → ((raw : RawPacket) (run run' : Run) → Turn order rules raw run run' → I run → I run')
      → ((raw : RawPacket) (run : Run) (t : FiveTuple) (flow : Flow)
          → I run
          → IsOf order t raw
          → IsVerdict rules t raw (flow_of t run.flows) flow
          → flow.blocked ≡ false
          → P raw)
      → (run run' : Run) (raws : List RawPacket) → I run
      → Steps order rules run raws run'
      → I run' × (s : IsSorted order run raws run') × All P s.written
  unfolding records step-IsSorted
  Steps-follow I P keeps writes run run' raws i done = (
    i,
    record {
      written = [];
      left = 0;
      sorted = none_left;
      total_packets = omega arith;
      forwarded = omega arith;
      dropped = omega arith;
      output = sym (append-nil run.output);
    },
    tt,
  )
  Steps-follow I P keeps writes run run' (raw ∷ raws) i (next {run' = mid} turn steps) =
      let (i', s, h) =
        Steps-follow I P keeps writes mid run' raws (keeps raw run mid turn i) steps in
      (i', step-IsSorted raw raws run mid run' turn s, by_turn mid turn s h)
    where
      by_turn :
          (mid : Run) (turn : Turn order rules raw run mid) (s : IsSorted order mid raws run')
          → All P s.written
          → All P (step-IsSorted raw raws run mid run' turn s).written
      by_turn mid (skip x) s h = h
      by_turn mid (drop_it u flow x v c) s h = h
      by_turn mid (forward u flow x v c) s h = (writes raw run u flow i x v c, h)

  pub Steps-IsSorted :
      (run run' : Run) (raws : List RawPacket)
      → Steps order rules run raws run'
      → IsSorted order run raws run'
  Steps-IsSorted run run' raws steps =
      let (_, s, _) =
        Steps-follow (λ r. Unit) (λ r. Unit) (λ raw a b t i. tt) (λ raw a t f i x v c. tt) run run'
          raws tt steps in
      s

-- The packets written were captured.
pub Sorted-All :
    (order : ByteOrder) (P : RawPacket → Type 0) (raws written : List RawPacket) (n : ℕ)
    → Sorted order raws written n
    → All P raws
    → All P written
Sorted-All order P raws written n none_left h = tt
Sorted-All order P (raw ∷ raws) written n (other x s) h = Sorted-All order P raws written n s h.1
Sorted-All order P (raw ∷ raws) written (suc n) (dropped_one t x s) h =
    Sorted-All order P raws written n s h.1
Sorted-All order P (raw ∷ raws) (w ∷ written) n (written_one t x s) h =
    (h.0, Sorted-All order P raws written n s h.1)

-- The variables of `main` before the loop, with the output header written.
