-- ===== src/Tests/Capture.antt =====
-- A capture with one frame, parsed, made a job, and written again.
use python_deep_packet_inspe.Prelude.{
  take, ℕ, List, [], ◌∷◌, ◌≡◌, refl, ok, some, All, true, false, suc, length, map, arith,
}
use python_deep_packet_inspe.Tests.{http_job}
use python_deep_packet_inspe.Tracker.{PacketAction}
use python_deep_packet_inspe.Job.{PacketJob}
use python_deep_packet_inspe.Pack.{
  little_endian, big_endian, AreBytes, unpack16, unpack32, every_byte-AreBytes,
}
use python_deep_packet_inspe.Parser.{RawPacket, ParsedPacket, parse}
use python_deep_packet_inspe.Parser.Frame.{IsParsed, parse-IsParsed}
use python_deep_packet_inspe.Pcap.{
  PcapGlobalHeader, PcapReader, closed_reader, open_capture, iterate, read_next_packet,
}
use python_deep_packet_inspe.Pcap.Records.{IsNative, IsLoaded}
use python_deep_packet_inspe.FastPath.{FastPath, process_packet}
use python_deep_packet_inspe.Engine.{
  Sent, fresh_stats, reader_thread, create_packet_job, output_file, is_flow_packet,
}
use python_deep_packet_inspe.Engine.Jobs.{IsJobOf, create_packet_job-IsJobOf}
use python_deep_packet_inspe.Flow.{flow_hash, five_tuple_hash, canonical}
use python_deep_packet_inspe.Balance
use python_deep_packet_inspe.Balance.{LoadBalancer}
use python_deep_packet_inspe.Engine.Reader.{IsHeader, reader_thread-IsSent, reader_thread-processed}
use python_deep_packet_inspe.Engine.Account.{IsSent}
use python_deep_packet_inspe.Engine.Output.{job_packet, FitsRecord, output_file-iterate}

-- A UDP packet from 10.0.0.1:4660 to 8.8.8.8:53 with two bytes of payload.
abbrev pub frame : List ℕ
frame =
    0 ∷ 1 ∷ 2 ∷ 3 ∷ 4 ∷ 5 ∷ 6 ∷ 7 ∷ 8 ∷ 9 ∷ 10 ∷ 11 ∷ 8 ∷ 0 ∷ 0x45 ∷ 0 ∷ 0 ∷ 30 ∷ 0 ∷ 0 ∷ 0 ∷ 0 ∷ 64
    ∷ 17 ∷ 0 ∷ 0 ∷ 10 ∷ 0 ∷ 0 ∷ 1 ∷ 8 ∷ 8 ∷ 8 ∷ 8 ∷ 0x12 ∷ 0x34 ∷ 0 ∷ 53 ∷ 0 ∷ 10 ∷ 0 ∷ 0 ∷ 1 ∷ 2
    ∷ []

abbrev pub raw_frame : RawPacket
raw_frame = record {
  header = record { ts_sec = 7; ts_usec = 9; incl_len = 44; orig_len = 44 };
  content = frame;
}

abbrev pub parsed_frame : ParsedPacket
parsed_frame = record {
  timestamp_sec = 7;
  timestamp_usec = 9;
  src_mac =
      b'0' ∷ b'6' ∷ b':' ∷ b'0' ∷ b'7' ∷ b':' ∷ b'0' ∷ b'8' ∷ b':' ∷ b'0' ∷ b'9' ∷ b':' ∷ b'0'
      ∷ b'a' ∷ b':' ∷ b'0' ∷ b'b' ∷ [];
  dest_mac =
      b'0' ∷ b'0' ∷ b':' ∷ b'0' ∷ b'1' ∷ b':' ∷ b'0' ∷ b'2' ∷ b':' ∷ b'0' ∷ b'3' ∷ b':' ∷ b'0'
      ∷ b'4' ∷ b':' ∷ b'0' ∷ b'5' ∷ [];
  ether_type = 0x800;
  has_ip = true;
  ip_version = 4;
  src_ip = b'1' ∷ b'0' ∷ b'.' ∷ b'0' ∷ b'.' ∷ b'0' ∷ b'.' ∷ b'1' ∷ [];
  dest_ip = b'8' ∷ b'.' ∷ b'8' ∷ b'.' ∷ b'8' ∷ b'.' ∷ b'8' ∷ [];
  protocol = 17;
  ttl = 64;
  has_tcp = false;
  has_udp = true;
  src_port = 0x1234;
  dest_port = 53;
  tcp_flags = 0;
  seq_number = 0;
  ack_number = 0;
  payload_length = 2;
  payload_data = some (1 ∷ 2 ∷ []);
}

pub frame_parses : parse little_endian raw_frame ≡ ok (some parsed_frame)
unfolding parse unpack16 unpack32
frame_parses = refl

frame_bytes : AreBytes frame
frame_bytes = every_byte-AreBytes frame refl

parse-IsParsed_example : IsParsed little_endian frame parsed_frame
parse-IsParsed_example = parse-IsParsed little_endian raw_frame parsed_frame frame_parses refl

pub frame_is_flow : is_flow_packet parsed_frame ≡ true
unfolding is_flow_packet
frame_is_flow = refl

create_packet_job-IsJobOf_example :
    (job : PacketJob) × (create_packet_job raw_frame parsed_frame 5 ≡ ok job)
    × IsJobOf little_endian raw_frame parsed_frame 5 job
create_packet_job-IsJobOf_example =
    create_packet_job-IsJobOf little_endian raw_frame parsed_frame 5 frame_bytes frame_parses
      frame_is_flow

-- The frame in a capture of a little-endian host.
abbrev pub capture : List ℕ
capture =
    0xD4 ∷ 0xC3 ∷ 0xB2 ∷ 0xA1 ∷ 2 ∷ 0 ∷ 4 ∷ 0 ∷ 0 ∷ 0 ∷ 0 ∷ 0 ∷ 0 ∷ 0 ∷ 0 ∷ 0 ∷ 0 ∷ 1 ∷ 0 ∷ 0 ∷ 1
    ∷ 0 ∷ 0 ∷ 0 ∷ 7 ∷ 0 ∷ 0 ∷ 0 ∷ 9 ∷ 0 ∷ 0 ∷ 0 ∷ 44 ∷ 0 ∷ 0 ∷ 0 ∷ 44 ∷ 0 ∷ 0 ∷ 0 ∷ frame

-- Two balancers of one fast path each.
abbrev balancers : List LoadBalancer
balancers = Balance.init 0 (0 ∷ []) 0 ∷ Balance.init 1 (1 ∷ []) 1 ∷ []

reader_thread-IsSent_example :
    (sent : Sent) × (reader_thread little_endian balancers capture fresh_stats ≡ ok sent)
    × IsHeader little_endian capture sent.output
    × IsSent balancers sent.output sent
reader_thread-IsSent_example =
    reader_thread-IsSent little_endian balancers capture (omega arith)
      (every_byte-AreBytes capture refl)

-- One packet is sent, and counted.
reader_thread_test :
    (sent : Sent) × (reader_thread little_endian balancers capture fresh_stats ≡ ok sent)
    × (sent.packet_id ≡ 1)
    × (sent.stats.total_bytes ≡ 44)
    × (sent.stats.udp_packets ≡ 1)
    × (sent.output ≡ take 24 capture)
unfolding reader_thread unpack16 unpack32 read_next_packet flow_hash five_tuple_hash canonical
reader_thread_test = (_, refl, refl, refl, refl, refl)

reader_thread-processed_example :
    (sent : Sent) × (reader_thread big_endian balancers capture fresh_stats ≡ ok sent)
    × All
        (λ job.
          (now later : ℕ) (fp : FastPath)
          → (r : FastPath × PacketAction) × (process_packet (λ n p. true) now later job fp ≡ ok r))
        sent.jobs
reader_thread-processed_example =
    reader_thread-processed (λ n p. true) big_endian balancers capture (omega arith)
      (every_byte-AreBytes capture refl)

abbrev pub native_header : PcapGlobalHeader
native_header = record {
  magic_number = 0xA1B2_C3D4;
  version_major = 2;
  version_minor = 4;
  thiszone = 0;
  sigfigs = 0;
  snaplen = 256;
  network = 1;
}

native_header-IsNative : IsNative native_header
native_header-IsNative = record {
  nanosecond = false;
  magic = refl;
  version_major = omega arith;
  version_minor = omega arith;
  thiszone = omega arith;
  sigfigs = omega arith;
  snaplen = omega arith;
  network = omega arith;
}

written_job-FitsRecord : FitsRecord 256 http_job
written_job-FitsRecord = record {
  ts_sec = omega arith;
  ts_usec = omega arith;
  captured = omega arith;
  longest = omega arith;
}

output_file-iterate_example :
    (file : List ℕ) × (output_file big_endian native_header (http_job ∷ []) ≡ ok file)
    × (reader : PcapReader) × (open_capture little_endian (some file) closed_reader
        ≡ ok (reader, true))
    × IsLoaded native_header native_header-IsNative reader
    × (iterate (suc (length file)) little_endian reader ≡ ok (map job_packet (http_job ∷ [])))
output_file-iterate_example =
    output_file-iterate big_endian little_endian native_header native_header-IsNative
      (http_job ∷ []) (written_job-FitsRecord, tt)
