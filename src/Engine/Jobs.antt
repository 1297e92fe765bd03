-- ===== src/Engine/Jobs.antt =====
-- The jobs that `create_packet_job` of dpi/dpi_engine.py makes of the packets that the parser returns.
use python_deep_packet_inspe.Prelude.{ℕ, ◌≡◌, ◌≤◌, ◌+◌, arith, ◌%◌, ◌*◌, ◌<◌, ap, ◌∙◌}
use python_deep_packet_inspe.Job.{PacketJob}
use python_deep_packet_inspe.Pack.{AreBytes, unpack32-lt, ByteOrder, unpack32}
use python_deep_packet_inspe.Parser.{RawPacket, ParsedPacket, parse}
use python_deep_packet_inspe.Parser.Layout.{IsTransport, tcp_header, udp_header}
use python_deep_packet_inspe.Parser.Layers.{IsProtocol}
use python_deep_packet_inspe.Parser.Frame.{IsParsed, parse-IsParsed}
use python_deep_packet_inspe.Engine.{
  begin_job, payload_start, set_offsets, create_packet_job, is_flow_packet, parse_ip, List, Bool,
  length, ok, some, true, index,
}
use python_deep_packet_inspe.Engine.Address.{parse_ip-format_ip}

payload_start_lem :
    (bytes : List ℕ) (parsed : ParsedPacket) (start o : ℕ)
    → IsTransport bytes parsed.has_tcp parsed.has_udp start o
    → o ≤ length bytes
    → payload_start bytes parsed start ≡ ok o
unfolding payload_start
payload_start_lem bytes parsed start o (tcp_header d t e p l) w = ground (arith, t, e, p, l, w)
payload_start_lem bytes parsed start o (udp_header t u p) w = ground (arith, t, u, p, w)

-- A job of the packet: the payload and the addresses of the parser.
pub record IsJobOf (order : ByteOrder) (raw : RawPacket) (parsed : ParsedPacket) (packet_id : ℕ)
    (job : PacketJob) : Type 0 where
  pub number : job.packet_id ≡ packet_id
  pub content : job.content ≡ raw.content
  pub fits : job.payload_offset + job.payload_length ≤ length job.content
  pub payload_length : job.payload_length ≡ parsed.payload_length
  pub payload_data : job.payload_data ≡ parsed.payload_data
  pub src_ip : unpack32 order raw.content 26 ≡ ok job.tuple.src_ip
  pub dst_ip : unpack32 order raw.content 30 ≡ ok job.tuple.dst_ip
  pub src_port : job.tuple.src_port ≡ parsed.src_port
  pub dst_port : job.tuple.dst_port ≡ parsed.dest_port
  pub protocol : job.tuple.protocol ≡ parsed.protocol
  pub transport : IsProtocol parsed

set_offsets-IsJobOf :
    (order : ByteOrder) (raw : RawPacket) (parsed : ParsedPacket) (n start : ℕ)
    (i : IsParsed order raw.content parsed)
    → parse_ip parsed.src_ip ≡ i.frame.source
    → parse_ip parsed.dest_ip ≡ i.frame.target
    → IsJobOf order raw parsed n (set_offsets (begin_job raw parsed n) start i.end)
unfolding set_offsets begin_job
set_offsets-IsJobOf order raw parsed n start i a b =
    let w = i.frame.within in
    let pl = i.payload_length in
    let pd = i.payload_data in
    let s = i.frame.source_at in
    let t = i.frame.target_at in
    record {
      number = ground arith;
      content = ground arith;
      fits = ground (arith, w);
      payload_length = ground (arith, pl);
      payload_data = ground (arith, pd);
      src_ip = ground (arith, s, a);
      dst_ip = ground (arith, t, b);
      src_port = ground arith;
      dst_port = ground arith;
      protocol = ground arith;
      transport = i.frame.protocol;
    }

long_lem :
    (bytes : List ℕ) (b c : Bool) (v o : ℕ)
    → IsTransport bytes b c (14 + v % 16 * 4) o
    → o ≤ length bytes
    → 14 < length bytes
long_lem bytes b c v o (tcp_header d t e p l) w = omega (arith, l, w)
long_lem bytes b c v o (udp_header t u p) w = omega (arith, p, w)

-- For a packet with TCP or UDP that the parser returned of a frame of bytes, `create_packet_job`
-- returns a job; its payload lies within the frame and is the parser's, and its addresses are the
-- words of the frame, in the byte order of the host, that the parser printed as text.
pub create_packet_job-IsJobOf :
    (order : ByteOrder) (raw : RawPacket) (parsed : ParsedPacket) (packet_id : ℕ)
    → AreBytes raw.content
    → parse order raw ≡ ok (some parsed)
    → is_flow_packet parsed ≡ true
    → (job : PacketJob) × (create_packet_job raw parsed packet_id ≡ ok job)
      × IsJobOf order raw parsed packet_id job
unfolding create_packet_job begin_job is_flow_packet
create_packet_job-IsJobOf order raw parsed n bytes h f =
    let i = parse-IsParsed order raw parsed h (ground (arith, f)) in
    let g = i.frame in
    let start = 14 + g.version_ihl % 16 * 4 in
    let p = payload_start_lem raw.content parsed start i.end g.transport g.within in
    let l =
      long_lem raw.content parsed.has_tcp parsed.has_udp g.version_ihl i.end g.transport g.within in
    let a =
      ap parse_ip g.src_ip
      ∙ parse_ip-format_ip g.source (unpack32-lt order raw.content 26 g.source bytes g.source_at) in
    let b =
      ap parse_ip g.dest_ip
      ∙ parse_ip-format_ip g.target (unpack32-lt order raw.content 30 g.target bytes g.target_at) in
    let e = g.first in
    (
      set_offsets (begin_job raw parsed n) start i.end,
      made l e p,
      set_offsets-IsJobOf order raw parsed n start i a b,
    )
  where
    made :
        {v o : ℕ}
        → 14 < length raw.content
        → index raw.content 14 ≡ ok v
        → payload_start raw.content parsed (14 + v % 16 * 4) ≡ ok o
        → create_packet_job raw parsed n
          ≡ ok (set_offsets (begin_job raw parsed n) (14 + v % 16 * 4) o)
    made l e p = ground (arith, l, e, p)
