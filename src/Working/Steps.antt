-- ===== src/Working/Steps.antt =====
-- The loop of main_working.py over a capture, as a sequence of turns.
use python_deep_packet_inspe.Prelude.{
  ℕ, zero, suc, ◌<◌, ◌≡◌, refl, sym, ◌∙◌, subst, Option, none, some, List, [], ◌∷◌, arith, length,
  All, ok, ok_inj,
}
use python_deep_packet_inspe.Pack.{ByteOrder, AreBytes}
use python_deep_packet_inspe.Parser.{RawPacket}
use python_deep_packet_inspe.Pcap.{PcapReader, iterate, read_next_packet}
use python_deep_packet_inspe.Pcap.Progress.{IsRead, progress, read_next_packet_ok}
use python_deep_packet_inspe.Pcap.Captured.{IsCaptured, IsNext, captured, read_next_packet-IsNext}
use python_deep_packet_inspe.Working.{BlockingRules, Run, main_loop}
use python_deep_packet_inspe.Working.Turns.{Turn, process_packet-Turn}

-- The turns of the packets, in their order.
pub data Steps (order : ByteOrder) (rules : BlockingRules)
    : Run → List RawPacket → Run → Type 0 where
  done : {run : Run} → Steps order rules run [] run
  next :
      {run run' run'' : Run} {raw : RawPacket} {raws : List RawPacket}
      → Turn order rules raw run run'
      → Steps order rules run' raws run''
      → Steps order rules run (raw ∷ raws) run''

-- A loop over the rest of a file is a loop over the packets that the reader gives of it.
pub record Completes (order : ByteOrder) (rules : BlockingRules) (fuel : ℕ) (reader : PcapReader)
    (run : Run) : Type 0 where
  pub packets : List RawPacket
  pub end : Run
  pub read : iterate fuel order reader ≡ ok packets
  pub result : main_loop fuel order rules reader run ≡ ok end
  pub steps : Steps order rules run packets end
  pub fits : All (IsCaptured reader.global_header.snaplen) packets

module _ (order : ByteOrder) (rules : BlockingRules) where
  loop_end :
      (fuel : ℕ) (reader reader' : PcapReader) (run : Run)
      → read_next_packet order reader ≡ ok (reader', none)
      → Completes order rules (suc fuel) reader run
  unfolding main_loop iterate
  loop_end fuel reader reader' run e = record {
    packets = [];
    end = run;
    read = rw e refl;
    result = rw e refl;
    steps = done;
    fits = tt;
  }

  loop_next :
      (fuel : ℕ) (reader reader' : PcapReader) (run : Run) (raw : RawPacket)
      → read_next_packet order reader ≡ ok (reader', some raw)
      → reader'.global_header ≡ reader.global_header
      → IsCaptured reader.global_header.snaplen raw
      → ((run' : Run) → Completes order rules fuel reader' run')
      → Completes order rules (suc fuel) reader run
  unfolding main_loop iterate
  loop_next fuel reader reader' run raw e h c rest =
      let (run', p, turn) =
        process_packet-Turn order rules reader.global_header.snaplen raw c run in
      let l = rest run' in
      let er = l.read in
      let el = l.result in
      let f = l.fits in
      record {
        packets = raw ∷ l.packets;
        end = l.end;
        read = rw e (rw er refl);
        result = rw e (rw p el);
        steps = next turn l.steps;
        fits = (c, subst (λ g. All (IsCaptured g.snaplen) l.packets) h f);
      }

  pub main_loop-Completes :
      (fuel : ℕ) (bytes : List ℕ) (reader : PcapReader) (run : Run)
      → length bytes < fuel
      → reader.file ≡ some bytes
      → AreBytes bytes
      → Completes order rules fuel reader run
  main_loop-Completes zero bytes reader run l e h = absurd (omega arith)
  main_loop-Completes (suc fuel) bytes reader run l e h =
      let (r, s, i) = read_next_packet_ok order bytes reader e h in
      let (r', s', n) = read_next_packet-IsNext order bytes reader e h in
      by_packet r s i (subst (IsNext reader) (ok_inj r' r (sym s' ∙ s)) n)
        (λ rest n run l e h. main_loop-Completes fuel rest n run l e h)
    where
      by_packet :
          (r : PcapReader × Option RawPacket)
          → read_next_packet order reader ≡ ok r
          → IsRead bytes r
          → IsNext reader r
          → ((rest : List ℕ) (n : PcapReader) (run : Run)
              → length rest < fuel
              → n.file ≡ some rest
              → AreBytes rest
              → Completes order rules fuel n run)
          → Completes order rules (suc fuel) reader run
      by_packet (n, none) s i x go = loop_end fuel reader n run s
      by_packet (n, some raw) s (progress rest f less hr hc) (captured g c) go =
          loop_next fuel reader n run raw s g c
            (λ run'. go rest n run' (omega (arith, l, less)) f hr)
