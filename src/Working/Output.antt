-- ===== src/Working/Output.antt =====
-- What main_working.py makes of a file: its counters, its output, and the output read back.
use python_deep_packet_inspe.Prelude.{
  ℕ, suc, ◌≡◌, refl, sym, ◌∙◌, subst, Bool, true, false, Option, none, some, List, [], arith,
  length, drop, All, length-drop, ok, ok_inj,
}
use python_deep_packet_inspe.Pack.{ByteOrder, AreBytes, drop-All}
use python_deep_packet_inspe.Parser.{RawPacket}
use python_deep_packet_inspe.Pcap.{PcapReader, closed_reader, open_capture, iterate}
use python_deep_packet_inspe.Pcap.Records.{
  IsNative, HasWidths, header_bytes, write_output_header_lem,
}
use python_deep_packet_inspe.Pcap.Captured.{
  IsCaptured, IsAccepted, refused, accepted, open_capture-IsAccepted,
}
use python_deep_packet_inspe.Pcap.Written.{ReadsBack, records-ReadsBack}
use python_deep_packet_inspe.Working.{BlockingRules, Run, process_file}
use python_deep_packet_inspe.Working.Steps.{Steps, main_loop-Completes}
use python_deep_packet_inspe.Working.Sorted.{IsSorted, Steps-IsSorted, Sorted-All}

abbrev pub start_run : List ℕ → Run
start_run head = record {
  flows = [];
  total_packets = 0;
  forwarded = 0;
  dropped = 0;
  app_stats = [];
  output = head;
}

-- What `main` makes of a file: nothing where the reader refuses it, and otherwise the turns of the
-- packets that the reader gives of it.
pub data IsProcessed (order : ByteOrder) (rules : BlockingRules) (file : List ℕ)
    : Option Run → Type 0 where
  rejected :
      (reader : PcapReader)
      → open_capture order (some file) closed_reader ≡ ok (reader, false)
      → IsProcessed order rules file none
  processed :
      {run : Run} (reader : PcapReader) (packets : List RawPacket)
      → open_capture order (some file) closed_reader ≡ ok (reader, true)
      → iterate (suc (length file)) order reader ≡ ok packets
      → Steps order rules (start_run (header_bytes order reader.global_header)) packets run
      → IsSorted order (start_run (header_bytes order reader.global_header)) packets run
      → IsProcessed order rules file (some run)

module _ (order : ByteOrder) (rules : BlockingRules) (file : List ℕ) (bytes : AreBytes file) where
  refuse :
      (reader : PcapReader)
      → open_capture order (some file) closed_reader ≡ ok (reader, false)
      → process_file order rules file ≡ ok none
  unfolding process_file
  refuse reader e = rw e refl

  -- The turns of an accepted file.
  record IsRun (reader : PcapReader) : Type 0 where
    run : Run
    packets : List RawPacket
    result : process_file order rules file ≡ ok (some run)
    reads : iterate (suc (length file)) order reader ≡ ok packets
    steps : Steps order rules (start_run (header_bytes order reader.global_header)) packets run
    fits : All (IsCaptured reader.global_header.snaplen) packets

  accept :
      (reader : PcapReader)
      → open_capture order (some file) closed_reader ≡ ok (reader, true)
      → reader.file ≡ some (drop 24 file)
      → HasWidths reader.global_header
      → IsRun reader
  unfolding process_file
  accept reader e f w =
      let d = length-drop 24 file in
      let l =
        main_loop-Completes order rules (suc (length file)) (drop 24 file) reader
          (start_run (header_bytes order reader.global_header)) (omega (arith, d)) f
          (drop-All 24 file bytes) in
      let r = l.result in
      record {
        run = l.end;
        packets = l.packets;
        result = rw e (rw (write_output_header_lem order reader.global_header w) (rw r refl));
        reads = l.read;
        steps = l.steps;
        fits = l.fits;
      }

  -- On every file of bytes `main` ends without an exception. It returns early for a file that the
  -- reader refuses, and otherwise takes its turn for each packet that the reader gives, in order:
  -- every packet is of no flow, dropped or written, the counters are those of the packets, and the
  -- output is the header of the reader and the records of the packets written, in order.
  pub process_file-IsProcessed :
      (result : Option Run) × (process_file order rules file ≡ ok result)
      × IsProcessed order rules file result
  process_file-IsProcessed =
      let (r, e, i) = open_capture-IsAccepted order file bytes in by_open r e i
    where
      by_open :
          (r : PcapReader × Bool)
          → open_capture order (some file) closed_reader ≡ ok r
          → IsAccepted (drop 24 file) r
          → (result : Option Run) × (process_file order rules file ≡ ok result)
            × IsProcessed order rules file result
      by_open (reader, false) e refused = (none, refuse reader e, rejected reader e)
      by_open (reader, true) e (accepted f w n) =
          let a = accept reader e f w in
          (
            some a.run,
            a.result,
            processed reader a.packets e a.reads a.steps (
                Steps-IsSorted order rules (start_run (header_bytes order reader.global_header))
                  a.run a.packets a.steps),
          )

  -- For a capture in the byte order of the host, a reader of either order opens the output as a
  -- capture with the same version, link type and resolution, and iterating over it gives the packets
  -- that were written, with their times and bytes, in their order among the packets of the input.
  pub process_file-ReadsBack :
      (reader : PcapReader)
      → open_capture order (some file) closed_reader ≡ ok (reader, true)
      → reader.needs_byte_swap ≡ false
      → (o : ByteOrder)
      → (run : Run) × (process_file order rules file ≡ ok (some run))
        × (packets : List RawPacket) × (iterate (suc (length file)) order reader ≡ ok packets)
        × (s : IsSorted order (start_run (header_bytes order reader.global_header)) packets run)
        × (native : IsNative reader.global_header) × ReadsBack o reader.global_header native
            s.written run.output
  process_file-ReadsBack reader e b o =
      let (r, e', i) = open_capture-IsAccepted order file bytes in
      by_open (subst (IsAccepted (drop 24 file)) (ok_inj r (reader, true) (sym e' ∙ e)) i)
    where
      by_open :
          IsAccepted (drop 24 file) (reader, true)
          → (run : Run) × (process_file order rules file ≡ ok (some run))
            × (packets : List RawPacket) × (iterate (suc (length file)) order reader ≡ ok packets)
            × (s : IsSorted order (start_run (header_bytes order reader.global_header)) packets run)
            × (native : IsNative reader.global_header) × ReadsBack o reader.global_header native
                s.written run.output
      by_open (accepted f w n) =
          let a = accept reader e f w in
          let s =
            Steps-IsSorted order rules (start_run (header_bytes order reader.global_header)) a.run
              a.packets a.steps in
          let c =
            Sorted-All order (IsCaptured reader.global_header.snaplen) a.packets s.written s.left
              s.sorted a.fits in
          let out = s.output in
          (
            a.run,
            a.result,
            a.packets,
            a.reads,
            s,
            n b,
            subst (ReadsBack o reader.global_header (n b) s.written) (sym out)
                (records-ReadsBack order o reader.global_header (n b) s.written c),
          )
