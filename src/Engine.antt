-- ===== src/Engine.antt =====
-- The reader and the output of `DPIEngine` of dpi/dpi_engine.py, and the counters of `DPIStats` of
-- dpi/types.py. `reader_thread` is `_reader_thread_func` on the bytes of the input file: the jobs in
-- the order in which it sends them to the load balancers, and the counters after it.
pub mod Account
pub mod Address
pub mod Jobs
pub mod Reader
pub mod Output
use python_deep_packet_inspe.Prelude.{
  ◌++◌, ℕ, zero, suc, ◌+◌, ◌-◌, ◌*◌, ◌/◌, ◌%◌, ◌^◌, bit_or, Bool, true, false, not, ◌&&◌, ◌||◌,
  Option, none, some, List, [], ◌∷◌, length, ltb, leb, ◌==◌, if◌then◌else◌, Py, ok, raise,
  out_of_fuel, ◌>>=◌, index, drop,
}
use python_deep_packet_inspe.Flow.{uint64_mod}
use python_deep_packet_inspe.Job.{PacketJob}
use python_deep_packet_inspe.Pack.{ByteOrder}
use python_deep_packet_inspe.Parser.{RawPacket, ParsedPacket, parse}
use python_deep_packet_inspe.Pcap.{
  PcapGlobalHeader, write_output_header, write_output_packet, closed_reader, PcapReader,
  open_capture, read_next_packet,
}
use python_deep_packet_inspe.Tracker.{PacketAction, drop_packet}
use python_deep_packet_inspe.FastPath.{increment}
use python_deep_packet_inspe.Balance.{LoadBalancer, get_lb_for_packet}

-- The engine's copy of the address parser: an octet grows without a bound.
unfoldable pub parse_octets : ℕ → ℕ → ℕ → List ℕ → ℕ
parse_octets result octet shift [] = bit_or result (octet * 2 ^ shift % 2 ^ 32) % 2 ^ 32
parse_octets result octet shift (c ∷ text) =
    if c == b'.'
    then parse_octets (bit_or result (octet * 2 ^ shift % 2 ^ 32)) 0 (shift + 8) text
    else if leb b'0' c && leb c b'9'
    then parse_octets result (octet * 10 + (c - 48)) shift text
    else parse_octets result octet shift text

unfoldable pub parse_ip : List ℕ → ℕ
unfolding parse_octets
parse_ip text = parse_octets 0 0 0 text

-- The job before its offsets are known.
unfoldable pub begin_job : RawPacket → ParsedPacket → ℕ → PacketJob
unfolding parse_ip
begin_job raw parsed packet_id = record {
  packet_id = packet_id;
  tuple = record {
    src_ip = parse_ip parsed.src_ip;
    dst_ip = parse_ip parsed.dest_ip;
    src_port = parsed.src_port;
    dst_port = parsed.dest_port;
    protocol = parsed.protocol;
  };
  content = raw.content;
  eth_offset = 0;
  ip_offset = 14;
  transport_offset = 0;
  payload_offset = 0;
  payload_length = 0;
  tcp_flags = parsed.tcp_flags;
  payload_data = none;
  ts_sec = raw.header.ts_sec;
  ts_usec = raw.header.ts_usec;
}

-- Where the payload begins, after the transport header at `transport_offset`.
unfoldable pub payload_start : List ℕ → ParsedPacket → ℕ → Py ℕ
payload_start bytes parsed transport_offset =
    if parsed.has_tcp && ltb transport_offset (length bytes)
    then (do
      tcp_data_offset ← index bytes (transport_offset + 12)
      ok (transport_offset + tcp_data_offset / 16 % 16 * 4))
    else ok (if parsed.has_udp then transport_offset + 8 else 0)

unfoldable pub set_offsets : PacketJob → ℕ → ℕ → PacketJob
set_offsets job transport_offset payload_offset =
    if ltb payload_offset (length job.content)
    then record job {
      transport_offset = transport_offset;
      payload_offset = payload_offset;
      payload_length = length job.content - payload_offset;
      payload_data = some (drop payload_offset job.content);
    }
    else record job { transport_offset = transport_offset; payload_offset = payload_offset }

unfoldable pub create_packet_job : RawPacket → ParsedPacket → ℕ → Py PacketJob
unfolding begin_job payload_start set_offsets
create_packet_job raw parsed packet_id =
    let job = begin_job raw parsed packet_id in
    if not (ltb 14 (length job.content)) then ok job else do
      ip_ihl ← index job.content 14
      let transport_offset = 14 + ip_ihl % 16 * 4
      payload_offset ← payload_start job.content parsed transport_offset
      ok (set_offsets job transport_offset payload_offset)

-- `DPIStats`: the engine counts all but the last two.
pub record DpiStats : Type 0 where
  pub total_packets : ℕ
  pub total_bytes : ℕ
  pub forwarded_packets : ℕ
  pub dropped_packets : ℕ
  pub tcp_packets : ℕ
  pub udp_packets : ℕ
  pub other_packets : ℕ
  pub active_connections : ℕ

-- `DPIStats()`: every counter at zero.
abbrev pub fresh_stats : DpiStats
fresh_stats = record {
  total_packets = 0;
  total_bytes = 0;
  forwarded_packets = 0;
  dropped_packets = 0;
  tcp_packets = 0;
  udp_packets = 0;
  other_packets = 0;
  active_connections = 0;
}

-- `DPIStats.reset`: `reset` of every counter.
unfoldable pub reset_stats : DpiStats → DpiStats
reset_stats stats = fresh_stats

-- `AtomicCounter.add`.
unfoldable pub add : ℕ → ℕ → ℕ
add delta value = (value + delta) % uint64_mod

unfoldable pub count_packet : RawPacket → ParsedPacket → DpiStats → DpiStats
unfolding add increment
count_packet raw parsed stats =
    let counted = record stats {
      total_packets = increment stats.total_packets;
      total_bytes = add (length raw.content) stats.total_bytes;
    } in
    if parsed.has_tcp
    then record counted { tcp_packets = increment counted.tcp_packets }
    else if parsed.has_udp
    then record counted { udp_packets = increment counted.udp_packets }
    else counted

-- What the reader has done: the header of the output file, the jobs that it pushed to queues of
-- balancers, the last first, the numbers of these balancers, the number of the next job and the
-- counters. A push waits while its queue is full.
pub record Sent : Type 0 where
  pub output : List ℕ
  pub jobs : List PacketJob
  pub lb_ids : List ℕ
  pub packet_id : ℕ
  pub stats : DpiStats

unfoldable pub is_flow_packet : ParsedPacket → Bool
is_flow_packet parsed = parsed.has_ip && (parsed.has_tcp || parsed.has_udp)

-- A packet that was parsed: skipped, or made a job and sent.
unfoldable pub send_packet : List LoadBalancer → RawPacket → Option ParsedPacket → Sent → Py Sent
unfolding is_flow_packet create_packet_job count_packet get_lb_for_packet
send_packet lbs raw none sent = ok sent
send_packet lbs raw (some parsed) sent = if not (is_flow_packet parsed) then ok sent else do
  job ← create_packet_job raw parsed sent.packet_id
  lb ← get_lb_for_packet lbs job.tuple
  ok (record {
    output = sent.output;
    jobs = job ∷ sent.jobs;
    lb_ids = lb.lb_id ∷ sent.lb_ids;
    packet_id = sent.packet_id + 1;
    stats = count_packet raw parsed sent.stats;
  })

-- The loop of the reader, on fuel: every packet takes sixteen bytes of the file at least.
unfoldable pub read_loop : ℕ → ByteOrder → List LoadBalancer → PcapReader → Sent → Py Sent
unfolding read_next_packet parse send_packet
read_loop zero order lbs reader sent = raise out_of_fuel
read_loop (suc fuel) order lbs reader sent = do
  (next, packet) ← read_next_packet order reader
  elim packet [
    | none ↦ ok sent
    | some raw ↦ do
      parsed ← parse order raw
      sent' ← send_packet lbs raw parsed sent
      read_loop fuel order lbs next sent'
  ]

-- Before the first packet.
abbrev pub nothing_sent : List ℕ → DpiStats → Sent
nothing_sent output stats = record {
  output = output;
  jobs = [];
  lb_ids = [];
  packet_id = 0;
  stats = stats;
}

-- The reader thread on the bytes of a file that opens, with the balancers of the manager.
unfoldable pub reader_thread : ByteOrder → List LoadBalancer → List ℕ → DpiStats → Py Sent
unfolding open_capture write_output_header read_loop
reader_thread order lbs file stats = do
  (reader, opened) ← open_capture order (some file) closed_reader
  if not opened then ok (nothing_sent [] stats) else do
    output ← write_output_header order reader.global_header
    read_loop (suc (length file)) order lbs reader (nothing_sent output stats)

-- `_handle_output`: whether the job goes to the output queue, and the counters.
unfoldable pub handle_output : PacketAction → DpiStats → DpiStats × Bool
unfolding increment
handle_output action stats = elim action [
  | drop_packet ↦ (record stats { dropped_packets = increment stats.dropped_packets }, false)
  | _ ↦ (record stats { forwarded_packets = increment stats.forwarded_packets }, true)
]

-- The records that `_output_thread_func` writes for the jobs of the output queue.
unfoldable pub write_jobs : ByteOrder → List PacketJob → Py (List ℕ)
unfolding write_output_packet
write_jobs order [] = ok []
write_jobs order (job ∷ jobs) = do
  record_bytes ← write_output_packet order job.ts_sec job.ts_usec job.content
  rest ← write_jobs order jobs
  ok (record_bytes ++ rest)

-- The output file: the header that the reader thread writes, and the records after it.
unfoldable pub output_file : ByteOrder → PcapGlobalHeader → List PacketJob → Py (List ℕ)
unfolding write_output_header write_jobs
output_file order header jobs = do
  head ← write_output_header order header
  body ← write_jobs order jobs
  ok (head ++ body)
