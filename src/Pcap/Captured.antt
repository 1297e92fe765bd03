-- ===== src/Pcap/Captured.antt =====
-- What `PcapReader` of dpi/pcap_reader.py gives of a file of bytes can be written again: the packets
-- fit their records and the global header has the widths of its fields.
use python_deep_packet_inspe.Prelude.{
  ℕ, ◌^◌, ◌≤◌, ◌<◌, ◌≡◌, refl, ◌∙◌, Bool, true, false, not, ◌||◌, Option, none, some, List, [], ◌∷◌,
  ℕ_discrete, arith, length, take, drop, ltb, ◌==◌, if◌then◌else◌, on_branches, ok,
}
use python_deep_packet_inspe.Pack.{
  ByteOrder, AreBytes, drop-All, value-lt, bytes_value, little_value, big_value, take-All,
}
use python_deep_packet_inspe.Parser.{PcapPacketHeader, RawPacket}
use python_deep_packet_inspe.Pcap.Words.{swap32_lem, swap16_lem}
use python_deep_packet_inspe.Pcap.{
  PcapGlobalHeader, PcapReader, field_at, read_data, read_next_packet, closed_reader,
  unpack_packet_header, unpack_global_header, swap_packet_header, maybe_swap32, maybe_swap16,
  swap32, swap16, open_capture, accept_magic, swap_global_header, pcap_magic_native,
  pcap_magic_native_ns, pcap_magic_swapped, pcap_magic_swapped_ns,
}
use python_deep_packet_inspe.Pcap.Progress.{
  read_header-short, read_header-long, read_next_packet_lem, open_capture-long, open_capture-short,
  unpack_packet_header_ok, unpack_global_header_ok,
}
use python_deep_packet_inspe.Pcap.Records.{IsNative, HasWidths}

-- A packet of a capture with the snapshot length `snaplen`.
pub record IsCaptured (snaplen : ℕ) (raw : RawPacket) : Type 0 where
  pub ts_sec : raw.header.ts_sec < 2 ^ 32
  pub ts_usec : raw.header.ts_usec < 2 ^ 32
  pub incl_len : raw.header.incl_len ≡ length raw.content
  pub captured : length raw.content ≤ snaplen
  pub longest : length raw.content ≤ 65535

-- What `read_next_packet` returns: the reader keeps its header.
pub data IsNext (reader : PcapReader) : PcapReader × Option RawPacket → Type 0 where
  ended : {next : PcapReader} → IsNext reader (next, none)
  captured :
      {next : PcapReader} {raw : RawPacket}
      → next.global_header ≡ reader.global_header
      → IsCaptured reader.global_header.snaplen raw
      → IsNext reader (next, some raw)

swap32-lt : (n : ℕ) → swap32 n < 2 ^ 32
swap32-lt n = omega (arith, swap32_lem n)

swap16-lt : (n : ℕ) → swap16 n < 2 ^ 16
swap16-lt n = omega (arith, swap16_lem n)

word-lt :
    (order : ByteOrder) (bytes : List ℕ) (o : ℕ)
    → AreBytes bytes
    → field_at order bytes o 4 < 2 ^ 32
unfolding field_at
word-lt order bytes o h = value-lt order (drop o bytes) (drop-All o bytes h)

half-lt :
    (order : ByteOrder) (bytes : List ℕ) (o : ℕ)
    → AreBytes bytes
    → field_at order bytes o 2 < 2 ^ 16
unfolding field_at bytes_value little_value big_value
half-lt order bytes o h = by_length order (drop o bytes) (drop-All o bytes h)
  where
    by_length :
        (order : ByteOrder) (bytes : List ℕ)
        → AreBytes bytes
        → bytes_value order (take 2 bytes) < 2 ^ 16
    by_length order [] h = ground arith
    by_length order (a ∷ []) h = ground (arith, h)
    by_length order (a ∷ b ∷ bytes) h = ground (arith, h)

swapped-lt :
    (d : Bool) (x : PcapPacketHeader)
    → x.ts_sec < 2 ^ 32
    → x.ts_usec < 2 ^ 32
    → ((swap_packet_header d x).ts_sec < 2 ^ 32) × ((swap_packet_header d x).ts_usec < 2 ^ 32)
unfolding swap_packet_header maybe_swap32
swapped-lt true x a b = (swap32-lt x.ts_sec, swap32-lt x.ts_usec)
swapped-lt false x a b = (a, b)

read_data-IsNext :
    (header : PcapPacketHeader) (rest : List ℕ) (reader : PcapReader)
    → header.ts_sec < 2 ^ 32
    → header.ts_usec < 2 ^ 32
    → IsNext reader (read_data header rest reader)
unfolding read_data
read_data-IsNext header rest reader a b =
    by_tests (ltb reader.global_header.snaplen n || ltb 65535 n) (not (length (take n rest) == n))
      refl refl
  where
    n : ℕ
    n = header.incl_len

    by_tests :
        (t u : Bool)
        → (ltb reader.global_header.snaplen header.incl_len || ltb 65535 header.incl_len) ≡ t
        → not (length (take header.incl_len rest) == header.incl_len) ≡ u
        → IsNext reader (
            if t
            then (record reader { file = some rest }, none)
            else if u
            then (record reader { file = some (drop header.incl_len rest) }, none)
            else (
              record reader { file = some (drop header.incl_len rest) },
              some (record { header = header; content = take header.incl_len rest }),
            ))
    by_tests true u e f = ended
    by_tests false true e f = ended
    by_tests false false e f = captured refl (record {
      ts_sec = a;
      ts_usec = b;
      incl_len = ground (arith, f);
      captured = ground (arith, e, f);
      longest = ground (arith, e, f);
    })

unpacked-lt :
    (order : ByteOrder) (bytes : List ℕ) (x : PcapPacketHeader)
    → AreBytes bytes
    → unpack_packet_header order bytes ≡ ok x
    → (x.ts_sec < 2 ^ 32) × (x.ts_usec < 2 ^ 32)
unfolding unpack_packet_header
unpacked-lt order bytes x h e =
    let s = word-lt order bytes 0 h in let u = word-lt order bytes 4 h in ground (arith, s, u, e)

-- A reader with bytes gives none, or a packet that fits its record.
pub read_next_packet-IsNext :
    (order : ByteOrder) (bytes : List ℕ) (reader : PcapReader)
    → reader.file ≡ some bytes
    → AreBytes bytes
    → (r : PcapReader × Option RawPacket) × (read_next_packet order reader ≡ ok r) × IsNext reader r
read_next_packet-IsNext order bytes reader e h = elim (ℕ_discrete (length (take 16 bytes)) 16) [
  | no n ↦ (
    (record reader { file = some (drop 16 bytes) }, none),
    read_next_packet_lem order bytes reader e ∙ read_header-short order bytes reader n,
    ended,
  )
  | yes l ↦
      let (x, u) = unpack_packet_header_ok order (take 16 bytes) l in
      let (a, b) = unpacked-lt order (take 16 bytes) x (take-All 16 bytes h) u in
      let (c, d) = swapped-lt reader.needs_byte_swap x a b in
      let y = swap_packet_header reader.needs_byte_swap x in
      (
        read_data y (drop 16 bytes) reader,
        read_next_packet_lem order bytes reader e ∙ read_header-long order bytes reader x l u,
        read_data-IsNext y (drop 16 bytes) reader c d,
      )
]

unpacked-HasWidths :
    (order : ByteOrder) (bytes : List ℕ) (x : PcapGlobalHeader)
    → AreBytes bytes
    → unpack_global_header order bytes ≡ ok x
    → HasWidths x
unfolding unpack_global_header
unpacked-HasWidths order bytes x h e =
    let m = word-lt order bytes 0 h in
    let a = half-lt order bytes 4 h in
    let b = half-lt order bytes 6 h in
    let z = word-lt order bytes 8 h in
    let s = word-lt order bytes 12 h in
    let l = word-lt order bytes 16 h in
    let n = word-lt order bytes 20 h in
    record {
      magic = ground (arith, m, e);
      version_major = ground (arith, a, e);
      version_minor = ground (arith, b, e);
      thiszone = ground (arith, z, e);
      sigfigs = ground (arith, s, e);
      snaplen = ground (arith, l, e);
      network = ground (arith, n, e);
    }

swapped-HasWidths : (x : PcapGlobalHeader) → HasWidths x → HasWidths (swap_global_header x)
unfolding swap_global_header maybe_swap16 maybe_swap32
swapped-HasWidths x w = record {
  magic = w.magic;
  version_major = swap16-lt x.version_major;
  version_minor = swap16-lt x.version_minor;
  thiszone = w.thiszone;
  sigfigs = w.sigfigs;
  snaplen = swap32-lt x.snaplen;
  network = swap32-lt x.network;
}

-- What `open` returns: a reader with the rest of the file, and with a header that is native where
-- it does not swap.
pub data IsAccepted (rest : List ℕ) : PcapReader × Bool → Type 0 where
  refused : {reader : PcapReader} → IsAccepted rest (reader, false)
  accepted :
      {reader : PcapReader}
      → reader.file ≡ some rest
      → HasWidths reader.global_header
      → (reader.needs_byte_swap ≡ false → IsNative reader.global_header)
      → IsAccepted rest (reader, true)

magic_of_test :
    (m : ℕ)
    → (m == pcap_magic_native || m == pcap_magic_native_ns) ≡ true
    → m ≡ (if m == pcap_magic_native_ns then pcap_magic_native_ns else pcap_magic_native)
magic_of_test m h = ground (arith, h)

accept_magic-IsAccepted :
    (reader : PcapReader) (rest : List ℕ)
    → reader.file ≡ some rest
    → HasWidths reader.global_header
    → IsAccepted rest (accept_magic reader)
unfolding accept_magic
accept_magic-IsAccepted reader rest e w =
    by_magic (m == pcap_magic_native || m == pcap_magic_native_ns) refl
  where
    m : ℕ
    m = reader.global_header.magic_number

    by_magic :
        (t : Bool)
        → (reader.global_header.magic_number == pcap_magic_native
            || reader.global_header.magic_number == pcap_magic_native_ns)
          ≡ t
        → IsAccepted rest (accept_magic reader)
    by_magic true f = rw f (
        accepted e w λ _. record {
          nanosecond = m == pcap_magic_native_ns;
          magic = magic_of_test m f;
          version_major = w.version_major;
          version_minor = w.version_minor;
          thiszone = w.thiszone;
          sigfigs = w.sigfigs;
          snaplen = w.snaplen;
          network = w.network;
        })
    by_magic false f = rw f (
        on_branches (IsAccepted rest) (m == pcap_magic_swapped || m == pcap_magic_swapped_ns)
          (accepted e (swapped-HasWidths reader.global_header w) λ (s : true ≡ false). cc) refused)

pub open_capture-IsAccepted :
    (order : ByteOrder) (bytes : List ℕ)
    → AreBytes bytes
    → (r : PcapReader × Bool) × (open_capture order (some bytes) closed_reader ≡ ok r)
      × IsAccepted (drop 24 bytes) r
open_capture-IsAccepted order bytes h = elim (ℕ_discrete (length (take 24 bytes)) 24) [
  | no n ↦ (_, open_capture-short order bytes closed_reader n, refused)
  | yes l ↦
      let (x, u) = unpack_global_header_ok order (take 24 bytes) l in
      (
        _,
        open_capture-long order bytes closed_reader x l u,
        accept_magic-IsAccepted _ (drop 24 bytes) refl
            (unpacked-HasWidths order (take 24 bytes) x (take-All 24 bytes h) u),
      )
]
