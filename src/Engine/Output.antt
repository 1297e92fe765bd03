-- ===== src/Engine/Output.antt =====
-- The output file of dpi/dpi_engine.py is a capture that dpi/pcap_reader.py reads back.
use python_deep_packet_inspe.Prelude.{
  ℕ, suc, ◌^◌, ◌≤◌, ◌<◌, ◌≡◌, refl, ap, ◌∙◌, true, some, List, [], ◌∷◌, ◌++◌, map, arith, length,
  All, ok,
}
use python_deep_packet_inspe.Job.{PacketJob}
use python_deep_packet_inspe.Pack.{ByteOrder}
use python_deep_packet_inspe.Parser.{RawPacket}
use python_deep_packet_inspe.Pcap.{
  PcapGlobalHeader, PcapReader, closed_reader, iterate, open_capture,
}
use python_deep_packet_inspe.Pcap.Records.{
  IsNative, IsLoaded, header_bytes, write_output_header_lem, IsNative-HasWidths,
  write_output_packet_lem,
}
use python_deep_packet_inspe.Pcap.Packets.{packet_of}
use python_deep_packet_inspe.Pcap.Written.{records, as_written, records-ReadsBack}
use python_deep_packet_inspe.Pcap.Captured.{IsCaptured}
use python_deep_packet_inspe.Engine.{write_jobs, output_file}

abbrev pub job_packet : PacketJob → RawPacket
job_packet job = packet_of job.ts_sec job.ts_usec job.content

-- A job whose record the reader accepts: its times in 32 bits, and not longer than the capture says.
pub record FitsRecord (snaplen : ℕ) (job : PacketJob) : Type 0 where
  pub ts_sec : job.ts_sec < 2 ^ 32
  pub ts_usec : job.ts_usec < 2 ^ 32
  pub captured : length job.content ≤ snaplen
  pub longest : length job.content ≤ 65535

write_jobs_lem :
    (w : ByteOrder) (snaplen : ℕ) (jobs : List PacketJob)
    → All (FitsRecord snaplen) jobs
    → write_jobs w jobs ≡ ok (records w (map job_packet jobs))
unfolding write_jobs records
write_jobs_lem w snaplen [] h = refl
write_jobs_lem w snaplen (job ∷ jobs) (f, h) =
    let m = f.longest in
    rw
      (write_output_packet_lem w job.ts_sec job.ts_usec job.content f.ts_sec f.ts_usec
        (omega (arith, m)))
      (rw (write_jobs_lem w snaplen jobs h) refl)

jobs-IsCaptured :
    (snaplen : ℕ) (jobs : List PacketJob)
    → All (FitsRecord snaplen) jobs
    → All (IsCaptured snaplen) (map job_packet jobs)
jobs-IsCaptured snaplen [] h = tt
jobs-IsCaptured snaplen (job ∷ jobs) (f, h) = (
  record {
    ts_sec = f.ts_sec;
    ts_usec = f.ts_usec;
    incl_len = refl;
    captured = f.captured;
    longest = f.longest;
  },
  jobs-IsCaptured snaplen jobs h,
)

as_written-jobs :
    (jobs : List PacketJob) → map as_written (map job_packet jobs) ≡ map job_packet jobs
as_written-jobs [] = refl
as_written-jobs (job ∷ jobs) = ap (◌∷◌ (job_packet job)) (as_written-jobs jobs)

-- An output file, written on a host of either byte order under a header in the order of its host, is
-- opened by the reader on a host of either byte order, with the version, the link type and the
-- resolution of the header, and iterating over it gives the packets of the jobs, each with its times
-- and bytes, in the order in which they were written, and ends.
pub output_file-iterate :
    (w o : ByteOrder) (header : PcapGlobalHeader) (native : IsNative header) (jobs : List PacketJob)
    → All (FitsRecord header.snaplen) jobs
    → (file : List ℕ) × (output_file w header jobs ≡ ok file)
      × (reader : PcapReader) × (open_capture o (some file) closed_reader ≡ ok (reader, true))
      × IsLoaded header native reader
      × (iterate (suc (length file)) o reader ≡ ok (map job_packet jobs))
unfolding output_file
output_file-iterate w o header native jobs f =
    let raws = map job_packet jobs in
    let back = records-ReadsBack w o header native raws (jobs-IsCaptured header.snaplen jobs f) in
    let reads = back.reads in
    (
      header_bytes w header ++ records w raws,
      rw (write_output_header_lem w header (IsNative-HasWidths header native))
          (rw (write_jobs_lem w header.snaplen jobs f) refl),
      back.reader,
      back.opens,
      back.loaded,
      reads ∙ ap ok (as_written-jobs jobs),
    )
