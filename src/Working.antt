-- ===== src/Working.antt =====
-- The single-threaded engine of main_working.py: its rules, its flow table and the loop of `main`.
-- `_parse_ip` there is the same code as that of dpi/dpi_engine.py. A dictionary is its list of
-- entries, in order. The output file is the bytes written to it; what is printed is left out.
pub mod Blocking
pub mod Classify
pub mod Verdict
pub mod Sorted
pub mod Safety
pub mod Turns
pub mod Steps
pub mod Output
pub mod Blocked
pub use Classify.{Flow, new_flow}
unfoldable pub use Classify.{
  tcp_payload, is_empty, take_name, sni_at, host_at, wants_name, try_sni, try_host, classify_dns,
  classify_port, classify,
}
pub use Blocking.{BlockingRules, no_rules}
unfoldable pub use Blocking.{
  block_ip, block_app, block_domain, any_infix, is_blocked, option_of, parse_options,
}
use python_deep_packet_inspe.Prelude.{
  ℕ, zero, suc, ◌+◌, not, Option, none, some, List, [], ◌∷◌, ◌++◌, length, ◌==◌, if◌then◌else◌, Py,
  ok, raise, out_of_fuel, ◌>>=◌,
}
use python_deep_packet_inspe.Flow.{FiveTuple, tuple_eq}
use python_deep_packet_inspe.Apps.{AppType, same_app}
use python_deep_packet_inspe.Pack.{ByteOrder}
use python_deep_packet_inspe.Parser.{RawPacket, ParsedPacket, parse}
use python_deep_packet_inspe.Pcap.{
  write_output_header, write_output_packet, closed_reader, PcapReader, open_capture,
  read_next_packet,
}
use python_deep_packet_inspe.Summary.{bump}
use python_deep_packet_inspe.Engine.{parse_ip, is_flow_packet}

abbrev pub Flows : Type 0
Flows = List (FiveTuple × Flow)

-- `flows.get(t)`, and a new flow where there is none.
unfoldable pub flow_of : FiveTuple → Flows → Flow
flow_of t [] = new_flow
flow_of t ((k, flow) ∷ flows) = if tuple_eq t k then flow else flow_of t flows

-- The object in the table, after it was changed: a new one stands at the end.
unfoldable pub put_flow : FiveTuple → Flow → Flows → Flows
put_flow t flow [] = (t, flow) ∷ []
put_flow t flow ((k, old) ∷ flows) =
    if tuple_eq t k then (k, flow) ∷ flows else (k, old) ∷ put_flow t flow flows

unfoldable pub tuple_of : ParsedPacket → FiveTuple
unfolding parse_ip
tuple_of parsed = record {
  src_ip = parse_ip parsed.src_ip;
  dst_ip = parse_ip parsed.dest_ip;
  src_port = parsed.src_port;
  dst_port = parsed.dest_port;
  protocol = parsed.protocol;
}

unfoldable pub count_in : FiveTuple → RawPacket → Flow → Flow
count_in t raw flow = record flow {
  tuple = if flow.packets == 0 then some t else flow.tuple;
  packets = flow.packets + 1;
  bytes = flow.bytes + length raw.content;
}

unfoldable pub judge : BlockingRules → ℕ → Flow → Flow
unfolding is_blocked
judge rules src_ip flow =
    if not flow.blocked
    then record flow { blocked = is_blocked rules src_ip flow.app_type flow.sni }
    else flow

-- The variables of `main`.
pub record Run : Type 0 where
  pub flows : Flows
  pub total_packets : ℕ
  pub forwarded : ℕ
  pub dropped : ℕ
  pub app_stats : List (AppType × ℕ)
  pub output : List ℕ

-- The end of a turn: the table, the counters and, for a packet that is forwarded, the output.
unfoldable pub conclude : ByteOrder → RawPacket → FiveTuple → Flow → Run → Py Run
unfolding put_flow bump same_app write_output_packet
conclude order raw t flow run =
    let kept : Run = record run {
      flows = put_flow t flow run.flows;
      app_stats = bump same_app flow.app_type run.app_stats;
    } in
    if flow.blocked then ok (record kept { dropped = run.dropped + 1 }) else do
      bytes ← write_output_packet order raw.header.ts_sec raw.header.ts_usec raw.content
      ok (record kept { forwarded = run.forwarded + 1; output = run.output ++ bytes })

unfoldable pub process_flow : ByteOrder → BlockingRules → RawPacket → ParsedPacket → Run → Py Run
unfolding tuple_of flow_of count_in classify judge conclude
process_flow order rules raw parsed run = do
  let t = tuple_of parsed
  flow ← classify parsed raw.content (count_in t raw (flow_of t run.flows))
  conclude order raw t (judge rules t.src_ip flow) run

-- A round of the loop after the packet is read.
unfoldable pub process_packet : ByteOrder → BlockingRules → RawPacket → Run → Py Run
unfolding parse is_flow_packet process_flow
process_packet order rules raw run = do
  let counted : Run = record run { total_packets = run.total_packets + 1 }
  parsed ← parse order raw
  elim parsed [
    | none ↦ ok counted
    | some p ↦ if not (is_flow_packet p) then ok counted else process_flow order rules raw p counted
  ]

-- The loop, on fuel: every packet takes sixteen bytes of the file at least.
unfoldable pub main_loop : ℕ → ByteOrder → BlockingRules → PcapReader → Run → Py Run
unfolding read_next_packet process_packet
main_loop zero order rules reader run = raise out_of_fuel
main_loop (suc fuel) order rules reader run = do
  (next, packet) ← read_next_packet order reader
  elim packet [
    | none ↦ ok run
    | some raw ↦ do run' ← process_packet order rules raw run; main_loop fuel order rules next run'
  ]

-- `main` from the opening of the input on: none where it returns 1 for a capture that is refused.
unfoldable pub process_file : ByteOrder → BlockingRules → List ℕ → Py (Option Run)
unfolding open_capture write_output_header main_loop
process_file order rules file = do
  (reader, opened) ← open_capture order (some file) closed_reader
  if not opened then ok none else do
    head ← write_output_header order reader.global_header
    run ← main_loop (suc (length file)) order rules reader (record {
      flows = [];
      total_packets = 0;
      forwarded = 0;
      dropped = 0;
      app_stats = [];
      output = head;
    })
    ok (some run)
