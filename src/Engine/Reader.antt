-- ===== src/Engine/Reader.antt =====
-- The reader thread of dpi/dpi_engine.py on an input file: it ends, and what it sends.
use python_deep_packet_inspe.Prelude.{
  get_elem?, subst, sym, drop, length-drop, All-map, ap₂, zero, suc, ◌<◌, refl, Bool, true, false,
  ◌||◌, ap, ◌∙◌, ℕ, ok, All, List, [], ◌∷◌, length, Option, some, none, ◌+◌, ◌≡◌, ◌||◌, zero, ◌%◌,
  arith,
}
use python_deep_packet_inspe.Flow.{flow_hash}
use python_deep_packet_inspe.Job.{PacketJob}
use python_deep_packet_inspe.Pack.{ByteOrder, AreBytes, drop-All}
use python_deep_packet_inspe.Parser.{RawPacket, ParsedPacket, parse}
use python_deep_packet_inspe.Parser.Safety.{parse-returns}
use python_deep_packet_inspe.Pcap.{closed_reader, PcapReader, read_next_packet}
use python_deep_packet_inspe.Pcap.Progress.{IsRead, finished, progress, read_next_packet_ok}
use python_deep_packet_inspe.Pcap.Records.{header_bytes, write_output_header_lem}
use python_deep_packet_inspe.Pcap.Captured.{IsAccepted, refused, accepted, open_capture-IsAccepted}
use python_deep_packet_inspe.Balance.{LoadBalancer}
use python_deep_packet_inspe.Balance.Affinity.{get_lb_for_packet_ok}
use python_deep_packet_inspe.FastPath.{increment}
use python_deep_packet_inspe.Sni.{Name}
use python_deep_packet_inspe.Tracker.{PacketAction}
use python_deep_packet_inspe.FastPath.{FastPath, process_packet}
use python_deep_packet_inspe.FastPath.Safety.{process_packet-returns}
use python_deep_packet_inspe.Engine.{
  nothing_sent, fresh_stats, is_flow_packet, Sent, send_packet, read_loop, count_packet, add, suc,
  true, Bool, reader_thread, open_capture, closed_reader,
}
use python_deep_packet_inspe.Engine.Jobs.{IsJobOf, create_packet_job-IsJobOf}
use python_deep_packet_inspe.Engine.Account.{countdown, sizes, with_protocol, IsSent, has_transport}

module _ (order : ByteOrder) (lbs : List LoadBalancer) (some_lb : 0 < length lbs) (output : List ℕ)
    (raw : RawPacket) (bytes : AreBytes raw.content) (sent : Sent)
    (i : IsSent lbs output sent) where
  abbrev next_sent : ParsedPacket → PacketJob → LoadBalancer → Sent
  next_sent parsed job lb = record {
    output = sent.output;
    jobs = job ∷ sent.jobs;
    lb_ids = lb.lb_id ∷ sent.lb_ids;
    packet_id = sent.packet_id + 1;
    stats = count_packet raw parsed sent.stats;
  }

  sent_lem :
      (parsed : ParsedPacket) (job : PacketJob) (lb : LoadBalancer)
      → IsJobOf order raw parsed sent.packet_id job
      → parsed.has_tcp || parsed.has_udp ≡ true
      → get_elem? lbs (flow_hash job.tuple % length lbs) ≡ some lb
      → IsSent lbs output (next_sent parsed job lb)
  unfolding count_packet add increment sizes countdown with_protocol
  sent_lem parsed job lb j f g =
      let t = i.total_packets in
      let b = i.total_bytes in
      let k = i.tcp_packets in
      let m = i.udp_packets in
      let a = i.all_transports in
      let n = i.numbered in
      let c = j.content in
      let d = j.number in
      let p = j.protocol ∙ j.transport in
      let next : suc sent.packet_id ≡ sent.packet_id + 1 = omega arith in
      record {
        header = i.header;
        fits = (j.fits, i.fits);
        numbered = ap₂ ◌∷◌ d n ∙ ap countdown next;
        routed = ((lb, g, refl), i.routed);
        total_packets = ground (arith, t);
        total_bytes = ground (arith, b, c);
        tcp_packets = ground (arith, k, f, p);
        udp_packets = ground (arith, m, f, p);
        all_transports = ground (arith, a, p);
      }

  send_packet-IsSent :
      (parsed : Option ParsedPacket)
      → parse order raw ≡ ok parsed
      → (sent' : Sent) × (send_packet lbs raw parsed sent ≡ ok sent') × IsSent lbs output sent'
  unfolding send_packet
  send_packet-IsSent none e = (sent, refl, i)
  send_packet-IsSent (some parsed) e = by_flow (is_flow_packet parsed) refl
    where
      by_flow :
          (b : Bool)
          → is_flow_packet parsed ≡ b
          → (sent' : Sent) × (send_packet lbs raw (some parsed) sent ≡ ok sent')
            × IsSent lbs output sent'
      by_flow false f = (sent, grind (arith, f), i)
      by_flow true f =
          let (job, made, j) =
            create_packet_job-IsJobOf order raw parsed sent.packet_id bytes e f in
          let (lb, g, found) = get_lb_for_packet_ok lbs job.tuple some_lb in
          (
            next_sent parsed job lb,
            rw f (rw made (rw found refl)),
            sent_lem parsed job lb j (has_transport parsed f) g,
          )

module _ (order : ByteOrder) (lbs : List LoadBalancer) (some_lb : 0 < length lbs)
    (output : List ℕ) where
  abbrev Outcome : ℕ → PcapReader → Sent → Type 0
  Outcome fuel reader sent =
      (sent' : Sent) × (read_loop fuel order lbs reader sent ≡ ok sent') × IsSent lbs output sent'

  read_loop-IsSent :
      (fuel : ℕ) (bytes : List ℕ) (reader : PcapReader) (sent : Sent)
      → length bytes < fuel
      → reader.file ≡ some bytes
      → AreBytes bytes
      → IsSent lbs output sent
      → Outcome fuel reader sent
  unfolding read_loop
  read_loop-IsSent zero bytes reader sent l e h i = elim l [ ]
  read_loop-IsSent (suc fuel) bytes reader sent l e h i =
      let (r, s, step) = read_next_packet_ok order bytes reader e h in
      next r s step (λ rest n sent' l e h i. read_loop-IsSent fuel rest n sent' l e h i)
    where
      next :
          (r : PcapReader × Option RawPacket)
          → read_next_packet order reader ≡ ok r
          → IsRead bytes r
          → ((rest : List ℕ) (n : PcapReader) (s : Sent)
              → length rest < fuel
              → n.file ≡ some rest
              → AreBytes rest
              → IsSent lbs output s
              → Outcome fuel n s)
          → Outcome (suc fuel) reader sent
      next (n, none) s finished go = (sent, rw s refl, i)
      next (n, some raw) s (progress rest f less hr hc) go =
          let (parsed, p) = parse-returns order raw in
          let (sent', q, i') = send_packet-IsSent order lbs some_lb output raw hc sent i parsed p in
          let (done, w, i'') = go rest n sent' (omega (arith, l, less)) f hr i' in
          (done, rw s (rw p (rw q w)), i'')

  nothing-IsSent : IsSent lbs output (nothing_sent output fresh_stats)
  unfolding countdown sizes with_protocol
  nothing-IsSent = record {
    header = refl;
    fits = tt;
    numbered = refl;
    routed = tt;
    total_packets = refl;
    total_bytes = refl;
    tcp_packets = refl;
    udp_packets = refl;
    all_transports = refl;
  }

-- What the reader thread writes to the output file: nothing for a capture that is refused, and
-- otherwise the header of the capture in the byte order of the host.
pub data IsHeader (order : ByteOrder) (file : List ℕ) : List ℕ → Type 0 where
  unopened :
      (reader : PcapReader)
      → open_capture order (some file) closed_reader ≡ ok (reader, false)
      → IsHeader order file []
  opened :
      (reader : PcapReader)
      → open_capture order (some file) closed_reader ≡ ok (reader, true)
      → IsHeader order file (header_bytes order reader.global_header)

-- On every file of bytes, with a balancer at least, the reader thread ends without an exception; it
-- writes the header of a capture that is accepted. Every job that it sends has its payload within
-- its bytes and goes to the balancer that its flow hash picks, the jobs are numbered from zero in
-- the order in which they are sent, and the counters of packets, of bytes, of TCP and of UDP are
-- those of the jobs, in 64 bits.
pub reader_thread-IsSent :
    (order : ByteOrder) (lbs : List LoadBalancer) (file : List ℕ)
    → 0 < length lbs
    → AreBytes file
    → (sent : Sent) × (reader_thread order lbs file fresh_stats ≡ ok sent)
      × IsHeader order file sent.output
      × IsSent lbs sent.output sent
unfolding reader_thread
reader_thread-IsSent order lbs file some_lb h =
    let (r, e, o) = open_capture-IsAccepted order file h in go r e o
  where
    go :
        (r : PcapReader × Bool)
        → open_capture order (some file) closed_reader ≡ ok r
        → IsAccepted (drop 24 file) r
        → (sent : Sent) × (reader_thread order lbs file fresh_stats ≡ ok sent)
          × IsHeader order file sent.output
          × IsSent lbs sent.output sent
    go (n, false) e refused =
        (nothing_sent [] fresh_stats, rw e refl, unopened n e, nothing-IsSent order lbs some_lb [])
    go (n, true) e (accepted f w _) =
        let l = length-drop 24 file in
        let output = header_bytes order n.global_header in
        let (sent, q, i) =
          read_loop-IsSent order lbs some_lb output (suc (length file)) (drop 24 file) n
            (nothing_sent output fresh_stats) (omega (arith, l)) f (drop-All 24 file h)
            (nothing-IsSent order lbs some_lb output) in
        let o = i.header in
        (
          sent,
          rw e (rw (write_output_header_lem order n.global_header w) q),
          subst (IsHeader order file) (sym o) (opened n e),
          subst (λ x. IsSent lbs x sent) (sym o) i,
        )

-- Every job of every capture is processed: with a balancer at least, no bytes of a file make
-- `_process_packet` raise, in any state of the fast path and at any time.
pub reader_thread-processed :
    (fnmatchcase : Name → Name → Bool) (order : ByteOrder) (lbs : List LoadBalancer) (file : List ℕ)
    → 0 < length lbs
    → AreBytes file
    → (sent : Sent) × (reader_thread order lbs file fresh_stats ≡ ok sent)
      × All
          (λ job.
            (now later : ℕ) (fp : FastPath)
            → (r : FastPath × PacketAction) × (process_packet fnmatchcase now later job fp ≡ ok r))
          sent.jobs
reader_thread-processed fnmatchcase order lbs file some_lb h =
    let (sent, e, _, i) = reader_thread-IsSent order lbs file some_lb h in
    (
      sent,
      e,
      All-map (λ job fits now later fp. process_packet-returns fnmatchcase job fits now later fp)
          sent.jobs i.fits,
    )
