-- ===== src/Pcap/Packets.antt =====
-- A packet record that dpi/dpi_engine.py wrote, read by dpi/pcap_reader.py.
use python_deep_packet_inspe.Prelude.{
  ℕ, ◌≡◌, List, Bool, true, false, arith, if◌then◌else◌, ok, ◌∙◌, refl, ap, ap₂, drop-append,
  take-append, ◌<◌, ◌++◌, ◌^◌, ◌≤◌, subst, sym,
}
use python_deep_packet_inspe.Pack.{ByteOrder, little_endian, big_endian, bytes_value}
use python_deep_packet_inspe.Parser.{PcapPacketHeader, RawPacket}
use python_deep_packet_inspe.Pcap.{
  PcapGlobalHeader, PcapReader, unpack_packet_header, field_at, swap_packet_header, maybe_swap32,
  swap32, read_data, read_next_packet, length, take, drop, some, [], none,
}
use python_deep_packet_inspe.Pcap.Words.{word, differs, read32_lem}
use python_deep_packet_inspe.Pcap.Records.{IsOpen, packet_bytes}
use python_deep_packet_inspe.Pcap.Progress.{
  read_next_packet_lem, read_header-long, read_header-short,
}

-- The packet of a record.
abbrev pub packet_of : ℕ → ℕ → List ℕ → RawPacket
packet_of sec usec content = record {
  header = record {
    ts_sec = sec;
    ts_usec = usec;
    incl_len = length content;
    orig_len = length content;
  };
  content = content;
}

abbrev loaded_header : ByteOrder → ByteOrder → ℕ → ℕ → ℕ → PcapPacketHeader
loaded_header o w sec usec n = record {
  ts_sec = bytes_value o (word w sec);
  ts_usec = bytes_value o (word w usec);
  incl_len = bytes_value o (word w n);
  orig_len = bytes_value o (word w n);
}

record_parts :
    (w o : ByteOrder) (sec usec : ℕ) (content rest : List ℕ)
    → (unpack_packet_header o (take 16 (packet_bytes w sec usec content ++ rest))
        ≡ ok (loaded_header o w sec usec (length content)))
      × (length (take 16 (packet_bytes w sec usec content ++ rest)) ≡ 16)
      × (drop 16 (packet_bytes w sec usec content ++ rest) ≡ content ++ rest)
unfolding unpack_packet_header field_at
record_parts little_endian o sec usec content rest = (refl, refl, refl)
record_parts big_endian o sec usec content rest = (refl, refl, refl)

swapped_lem :
    (d : Bool) (x : PcapPacketHeader)
    → swap_packet_header d x ≡ record {
      ts_sec = if d then swap32 x.ts_sec else x.ts_sec;
      ts_usec = if d then swap32 x.ts_usec else x.ts_usec;
      incl_len = if d then swap32 x.incl_len else x.incl_len;
      orig_len = if d then swap32 x.orig_len else x.orig_len;
    }
unfolding swap_packet_header maybe_swap32
swapped_lem true x = refl
swapped_lem false x = refl

header_lem :
    (w o : ByteOrder) (sec usec n : ℕ)
    → sec < 2 ^ 32
    → usec < 2 ^ 32
    → n < 2 ^ 32
    → swap_packet_header (differs w o) (loaded_header o w sec usec n)
      ≡ record { ts_sec = sec; ts_usec = usec; incl_len = n; orig_len = n }
header_lem w o sec usec n a b c =
    let x = read32_lem w o sec a in
    let y = read32_lem w o usec b in
    let z = read32_lem w o n c in
    swapped_lem (differs w o) (loaded_header o w sec usec n)
    ∙ (λ i. record { ts_sec = x i; ts_usec = y i; incl_len = z i; orig_len = z i })

read_data_lem :
    (sec usec : ℕ) (content rest : List ℕ) (reader : PcapReader)
    → length content ≤ reader.global_header.snaplen
    → length content ≤ 65535
    → read_data (packet_of sec usec content).header (content ++ rest) reader
      ≡ (record reader { file = some rest }, some (packet_of sec usec content))
unfolding read_data
read_data_lem sec usec content rest reader a b =
    let t = take-append content rest in
    let d = drop-append content rest in grind (arith, a, b, t, d)

module _ (w o : ByteOrder) (h : PcapGlobalHeader) where
  -- The record before `rest` is read, and the reader goes on with `rest`.
  pub read_next_packet-packet :
      (sec usec : ℕ) (content rest : List ℕ) (reader : PcapReader)
      → sec < 2 ^ 32
      → usec < 2 ^ 32
      → length content ≤ h.snaplen
      → length content ≤ 65535
      → IsOpen w o h (packet_bytes w sec usec content ++ rest) reader
      → read_next_packet o reader
        ≡ ok (record reader { file = some rest }, some (packet_of sec usec content))
  read_next_packet-packet sec usec content rest reader a b l m i =
      let bytes = packet_bytes w sec usec content ++ rest in
      let (u, n, d) = record_parts w o sec usec content rest in
      read_next_packet_lem o bytes reader i.file
      ∙ read_header-long o bytes reader (loaded_header o w sec usec (length content)) n u
      ∙ ap
          (λ t. ok (
            read_data (swap_packet_header t (loaded_header o w sec usec (length content)))
              (drop 16 bytes) reader))
          i.swap
      ∙ ap₂ (λ t r. ok (read_data t r reader))
          (header_lem w o sec usec (length content) a b (omega (arith, m))) d
      ∙ ap ok (
          read_data_lem sec usec content rest reader
            (subst (λ s. length content ≤ s) (sym i.snaplen) l) m)

  pub read_next_packet-end :
      (reader : PcapReader) → IsOpen w o h [] reader → read_next_packet o reader ≡ ok (reader, none)
  read_next_packet-end reader i =
      read_next_packet_lem o [] reader i.file
      ∙ read_header-short o [] reader (omega arith)
      ∙ ap (λ f. ok (record reader { file = f }, none)) (sym i.file)
