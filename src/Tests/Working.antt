-- ===== src/Tests/Working.antt =====
-- A capture with one frame, run through main_working.py.
use python_deep_packet_inspe.Prelude.{
  suc, ◌≡◌, refl, true, Option, some, List, [], ◌∷◌, arith, length, take, drop, All, ok,
}
use python_deep_packet_inspe.Flow.{FiveTuple, tuple_eq}
use python_deep_packet_inspe.Pack.{
  little_endian, big_endian, every_byte-AreBytes, unpack16, unpack32,
}
use python_deep_packet_inspe.Parser.{RawPacket}
use python_deep_packet_inspe.Apps.{dns}
use python_deep_packet_inspe.Pcap.{
  PcapReader, closed_reader, open_capture, iterate, read_next_packet,
}
use python_deep_packet_inspe.Pcap.Records.{IsNative, header_bytes}
use python_deep_packet_inspe.Pcap.Written.{ReadsBack}
use python_deep_packet_inspe.Working
use python_deep_packet_inspe.Working.{
  BlockingRules, no_rules, block_ip, parse_options, Flow, Run, process_file,
}
use python_deep_packet_inspe.Working.Output.{
  IsProcessed, start_run, process_file-IsProcessed, process_file-ReadsBack,
}
use python_deep_packet_inspe.Working.Sorted.{IsSorted}
use python_deep_packet_inspe.Working.Blocked.{IsBlocked, NotOf, main_loop-IsBlocked}
use python_deep_packet_inspe.Tests.Capture.{capture, native_header}

-- `--block-ip 10.0.0.1`.
abbrev ip_rules : BlockingRules
ip_rules = record no_rules { blocked_ips = 0x0100_000A ∷ [] }

parse_options_test :
    parse_options
      ((b'-' ∷ b'-' ∷ b'b' ∷ b'l' ∷ b'o' ∷ b'c' ∷ b'k' ∷ b'-' ∷ b'i' ∷ b'p' ∷ [])
        ∷ (b'1' ∷ b'0' ∷ b'.' ∷ b'0' ∷ b'.' ∷ b'0' ∷ b'.' ∷ b'1' ∷ [])
        ∷ [])
      no_rules
    ≡ ip_rules
unfolding parse_options
parse_options_test = refl

-- The packet is dropped, and the output is the header alone.
process_file_drops :
    (run : Run) × (process_file little_endian ip_rules capture ≡ ok (some run))
    × (run.dropped ≡ 1)
    × (run.forwarded ≡ 0)
    × (run.output ≡ take 24 capture)
unfolding process_file unpack16 unpack32 read_next_packet
process_file_drops = (_, refl, refl, refl, refl)

-- Without rules the output is the input.
process_file_copies :
    (run : Run) × (process_file little_endian no_rules capture ≡ ok (some run))
    × (run.dropped ≡ 0)
    × (run.forwarded ≡ 1)
    × (run.output ≡ capture)
unfolding process_file unpack16 unpack32 read_next_packet
process_file_copies = (_, refl, refl, refl, refl)

process_file-IsProcessed_example :
    (result : Option Run) × (process_file big_endian ip_rules capture ≡ ok result)
    × IsProcessed big_endian ip_rules capture result
process_file-IsProcessed_example =
    process_file-IsProcessed big_endian ip_rules capture (every_byte-AreBytes capture refl)

abbrev opened_reader : PcapReader
opened_reader = record closed_reader {
  file = some (drop 24 capture);
  global_header = native_header;
}

opened_reader_opens :
    open_capture little_endian (some capture) closed_reader ≡ ok (opened_reader, true)
unfolding open_capture
opened_reader_opens = refl

process_file-ReadsBack_example :
    (run : Run) × (process_file little_endian no_rules capture ≡ ok (some run))
    × (packets : List RawPacket) × (iterate (suc (length capture)) little_endian opened_reader
        ≡ ok packets)
    × (s : IsSorted little_endian
        (start_run (header_bytes little_endian native_header))
        packets
        run)
    × (native : IsNative native_header) × ReadsBack big_endian native_header native s.written
        run.output
process_file-ReadsBack_example =
    process_file-ReadsBack little_endian no_rules capture (every_byte-AreBytes capture refl)
      opened_reader opened_reader_opens refl big_endian

-- The flow of the frame, blocked by an earlier packet.
abbrev frame_tuple : FiveTuple
frame_tuple = record {
  src_ip = 0x0100_000A;
  dst_ip = 0x0808_0808;
  src_port = 0x1234;
  dst_port = 53;
  protocol = 17;
}

abbrev blocked_run : Run
blocked_run = record (start_run []) {
  flows =
      (
        frame_tuple,
        record {
          tuple = some frame_tuple;
          app_type = dns;
          sni = [];
          packets = 1;
          bytes = 44;
          blocked = true;
        },
      )
      ∷ [];
}

blocked_run-IsBlocked : IsBlocked frame_tuple blocked_run
unfolding Working.flow_of tuple_eq
blocked_run-IsBlocked = refl

main_loop-IsBlocked_example :
    (run' : Run) × (Working.main_loop 61 little_endian no_rules opened_reader blocked_run ≡ ok run')
    × (packets : List RawPacket) × (iterate 61 little_endian opened_reader ≡ ok packets)
    × IsBlocked frame_tuple run'
    × (s : IsSorted little_endian blocked_run packets run') × All
        (NotOf little_endian frame_tuple)
        s.written
main_loop-IsBlocked_example =
    main_loop-IsBlocked little_endian no_rules frame_tuple 61 (drop 24 capture) opened_reader
      blocked_run (omega arith) refl (every_byte-AreBytes (drop 24 capture) refl)
      blocked_run-IsBlocked
