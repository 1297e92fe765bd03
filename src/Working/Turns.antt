-- ===== src/Working/Turns.antt =====
-- A turn of the loop of main_working.py, as a relation: what it does to the flow, the counters and the
-- output of the run.
use python_deep_packet_inspe.Prelude.{
  ℕ, ◌+◌, ◌≡◌, refl, Bool, true, false, Option, none, some, ◌++◌, arith, ok,
}
use python_deep_packet_inspe.Flow.{FiveTuple}
use python_deep_packet_inspe.Apps.{same_app}
use python_deep_packet_inspe.Summary.{bump}
use python_deep_packet_inspe.Pack.{ByteOrder}
use python_deep_packet_inspe.Parser.{RawPacket, ParsedPacket, parse}
use python_deep_packet_inspe.Parser.Frame.{parse-IsParsed}
use python_deep_packet_inspe.Parser.Safety.{parse-returns}
use python_deep_packet_inspe.Pcap.{write_output_packet}
use python_deep_packet_inspe.Pcap.Records.{packet_bytes, write_output_packet_lem}
use python_deep_packet_inspe.Pcap.Captured.{IsCaptured}
use python_deep_packet_inspe.Engine.{is_flow_packet}
use python_deep_packet_inspe.Engine.Account.{has_transport}
use python_deep_packet_inspe.Working.{
  BlockingRules, Flow, flow_of, put_flow, tuple_of, count_in, judge, Run, conclude, process_flow,
  process_packet,
}
use python_deep_packet_inspe.Working.Safety.{classify-returns}
use python_deep_packet_inspe.Working.Verdict.{classify-Keeps, IsVerdict, judge-IsVerdict}

-- A packet of no flow: the parser refuses it, or it is not TCP or UDP over IP.
pub data IsOther (order : ByteOrder) (raw : RawPacket) : Type 0 where
  unparsed : parse order raw ≡ ok none → IsOther order raw
  no_flow :
      (parsed : ParsedPacket)
      → parse order raw ≡ ok (some parsed)
      → is_flow_packet parsed ≡ false
      → IsOther order raw

pub data IsOf (order : ByteOrder) (t : FiveTuple) (raw : RawPacket) : Type 0 where
  of_flow :
      (parsed : ParsedPacket)
      → parse order raw ≡ ok (some parsed)
      → is_flow_packet parsed ≡ true
      → tuple_of parsed ≡ t
      → IsOf order t raw

abbrev pub counted : Run → Run
counted run = record run { total_packets = run.total_packets + 1 }

-- The run after a packet of the flow `t`, which the packet leaves as `flow`.
abbrev pub after_drop : FiveTuple → Flow → Run → Run
after_drop t flow run = record run {
  flows = put_flow t flow run.flows;
  total_packets = run.total_packets + 1;
  dropped = run.dropped + 1;
  app_stats = bump same_app flow.app_type run.app_stats;
}

abbrev pub after_forward : ByteOrder → RawPacket → FiveTuple → Flow → Run → Run
after_forward order raw t flow run = record run {
  flows = put_flow t flow run.flows;
  total_packets = run.total_packets + 1;
  forwarded = run.forwarded + 1;
  app_stats = bump same_app flow.app_type run.app_stats;
  output = run.output ++ packet_bytes order raw.header.ts_sec raw.header.ts_usec raw.content;
}

-- One turn: a packet of no flow is only counted. One of a flow is dropped when the flow is blocked
-- with it, and otherwise its record is added to the output.
pub data Turn (order : ByteOrder) (rules : BlockingRules) (raw : RawPacket) (run : Run)
    : Run → Type 0 where
  skip : IsOther order raw → Turn order rules raw run (counted run)
  drop_it :
      (t : FiveTuple) (flow : Flow)
      → IsOf order t raw
      → IsVerdict rules t raw (flow_of t run.flows) flow
      → flow.blocked ≡ true
      → Turn order rules raw run (after_drop t flow run)
  forward :
      (t : FiveTuple) (flow : Flow)
      → IsOf order t raw
      → IsVerdict rules t raw (flow_of t run.flows) flow
      → flow.blocked ≡ false
      → Turn order rules raw run (after_forward order raw t flow run)

module _ (order : ByteOrder) (rules : BlockingRules) (snaplen : ℕ) (raw : RawPacket)
    (c : IsCaptured snaplen raw) (run : Run) where
  written :
      write_output_packet order raw.header.ts_sec raw.header.ts_usec raw.content
      ≡ ok (packet_bytes order raw.header.ts_sec raw.header.ts_usec raw.content)
  written =
      let l = c.longest in
      write_output_packet_lem order raw.header.ts_sec raw.header.ts_usec raw.content c.ts_sec
        c.ts_usec (omega (arith, l))

  conclude_drop :
      (t : FiveTuple) (flow : Flow)
      → flow.blocked ≡ true
      → conclude order raw t flow (counted run) ≡ ok (after_drop t flow run)
  unfolding conclude
  conclude_drop t flow b = rw b refl

  conclude_forward :
      (t : FiveTuple) (flow : Flow)
      → flow.blocked ≡ false
      → conclude order raw t flow (counted run) ≡ ok (after_forward order raw t flow run)
  unfolding conclude
  conclude_forward t flow b = rw b (rw written refl)

  process_flow-Turn :
      (parsed : ParsedPacket)
      → parse order raw ≡ ok (some parsed)
      → is_flow_packet parsed ≡ true
      → (run' : Run) × (process_flow order rules raw parsed (counted run) ≡ ok run')
        × Turn order rules raw run run'
  unfolding process_flow
  process_flow-Turn parsed p f =
      let i = parse-IsParsed order raw parsed p (has_transport parsed f) in
      let t = tuple_of parsed in
      let prior = flow_of t run.flows in
      let (flow, e) =
        classify-returns raw.content parsed i.frame.version_ihl i.frame.first
          (count_in t raw prior) in
      let k = classify-Keeps parsed raw.content (count_in t raw prior) flow e in
      by_verdict (judge rules t.src_ip flow) (judge-IsVerdict rules t raw prior flow k)
        (judge rules t.src_ip flow).blocked refl (λ r z. rw e z)
    where
      by_verdict :
          (flow : Flow)
          → IsVerdict rules (tuple_of parsed) raw (flow_of (tuple_of parsed) run.flows) flow
          → (b : Bool) → flow.blocked ≡ b
          → ((r : Run)
              → conclude order raw (tuple_of parsed) flow (counted run) ≡ ok r
              → process_flow order rules raw parsed (counted run) ≡ ok r)
          → (run' : Run) × (process_flow order rules raw parsed (counted run) ≡ ok run')
            × Turn order rules raw run run'
      by_verdict flow v true b z = (
        _,
        z _ (conclude_drop (tuple_of parsed) flow b),
        drop_it (tuple_of parsed) flow (of_flow parsed p f refl) v b,
      )
      by_verdict flow v false b z = (
        _,
        z _ (conclude_forward (tuple_of parsed) flow b),
        forward (tuple_of parsed) flow (of_flow parsed p f refl) v b,
      )

  abbrev Outcome : Type 0
  Outcome =
      (run' : Run) × (process_packet order rules raw run ≡ ok run') × Turn order rules raw run run'

  skip-Outcome : IsOther order raw → process_packet order rules raw run ≡ ok (counted run)
  unfolding process_packet
  skip-Outcome (unparsed p) = rw p refl
  skip-Outcome (no_flow parsed p f) = rw p (rw f refl)

  flow-Outcome :
      (parsed : ParsedPacket)
      → parse order raw ≡ ok (some parsed)
      → (b : Bool) → is_flow_packet parsed ≡ b
      → Outcome
  unfolding process_packet
  flow-Outcome parsed p false f =
      (counted run, skip-Outcome (no_flow parsed p f), skip (no_flow parsed p f))
  flow-Outcome parsed p true f =
      let (run', e, turn) = process_flow-Turn parsed p f in (run', rw p (rw f e), turn)

  packet-Outcome : (parsed : Option ParsedPacket) → parse order raw ≡ ok parsed → Outcome
  packet-Outcome none p = (counted run, skip-Outcome (unparsed p), skip (unparsed p))
  packet-Outcome (some parsed) p = flow-Outcome parsed p (is_flow_packet parsed) refl

  -- A turn never raises, and does what the relation says.
  pub process_packet-Turn :
      (run' : Run) × (process_packet order rules raw run ≡ ok run') × Turn order rules raw run run'
  process_packet-Turn = let (parsed, p) = parse-returns order raw in packet-Outcome parsed p
