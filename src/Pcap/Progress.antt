-- ===== src/Pcap/Progress.antt =====
-- That `read_next_packet` of dpi/pcap_reader.py never raises, and goes on by sixteen bytes at least
-- with every packet.
use python_deep_packet_inspe.Prelude.{
  Bool, true, false, value_of, refl, ok, ap, ◌∙◌, ◌≢◌, Option, none, some, ℕ_discrete, value_of,
  refl, ok, none, some, List, length, take, drop, length-take, length-drop, on_branches, not, refl,
  ok, ltb, ◌==◌, ◌||◌, ℕ, Option, ◌≤◌, ◌≡◌, ◌+◌, ◌||◌, arith,
}
use python_deep_packet_inspe.Pack.{ByteOrder, AreBytes, drop-All, take-All}
use python_deep_packet_inspe.Parser.{PcapPacketHeader, RawPacket}
use python_deep_packet_inspe.Pcap.{
  PcapGlobalHeader, accept_magic, unpack_global_header, open_capture, close, pcap_magic_native,
  pcap_magic_native_ns, pcap_magic_swapped, pcap_magic_swapped_ns, PcapReader, read_data,
  read_header, read_next_packet, unpack_packet_header, swap_packet_header, List, none, length, some,
  drop, take, ltb,
}

-- A reader with the bytes `bytes` has come to a reader and a packet, or to none.
pub data IsRead (bytes : List ℕ) : PcapReader × Option RawPacket → Type 0 where
  finished : {next : PcapReader} → IsRead bytes (next, none)
  progress :
      {next : PcapReader} {raw : RawPacket}
      → (rest : List ℕ) → next.file ≡ some rest
      → length rest + 16 ≤ length bytes
      → AreBytes rest
      → AreBytes raw.content
      → IsRead bytes (next, some raw)

read_data-IsRead :
    (header : PcapPacketHeader) (bytes : List ℕ) (reader : PcapReader)
    → 16 ≤ length bytes
    → AreBytes bytes
    → IsRead bytes (read_data header (drop 16 bytes) reader)
unfolding read_data
read_data-IsRead header bytes reader l h =
    let n = header.incl_len in
    let rest = drop-All 16 bytes h in
    on_branches (IsRead bytes) (ltb reader.global_header.snaplen n || ltb 65535 n) finished (
      on_branches (IsRead bytes) (not (length (take n (drop 16 bytes)) == n)) finished (
        progress (drop n (drop 16 bytes)) refl
          (omega (arith, l, length-drop n (drop 16 bytes), length-drop 16 bytes))
          (drop-All n (drop 16 bytes) rest) (take-All n (drop 16 bytes) rest)))

pub unpack_packet_header_ok :
    (order : ByteOrder) (raw : List ℕ)
    → length raw ≡ 16
    → (header : PcapPacketHeader) × (unpack_packet_header order raw ≡ ok header)
unfolding unpack_packet_header
unpack_packet_header_ok order raw e = value_of (unpack_packet_header order raw) (ground (arith, e))

module _ (order : ByteOrder) (bytes : List ℕ) (reader : PcapReader) where
  pub read_header-short :
      length (take 16 bytes) ≢ 16
      → read_header order bytes reader ≡ ok (record reader { file = some (drop 16 bytes) }, none)
  unfolding read_header
  read_header-short h = grind (arith, h)

  pub read_header-long :
      (header : PcapPacketHeader)
      → length (take 16 bytes) ≡ 16
      → unpack_packet_header order (take 16 bytes) ≡ ok header
      → read_header order bytes reader
        ≡ ok (read_data (swap_packet_header reader.needs_byte_swap header) (drop 16 bytes) reader)
  unfolding read_header
  read_header-long header h e = grind (arith, h, e)

  read_header_ok :
      AreBytes bytes
      → (r : PcapReader × Option RawPacket) × (read_header order bytes reader ≡ ok r)
        × IsRead bytes r
  read_header_ok h = elim (ℕ_discrete (length (take 16 bytes)) 16) [
    | no n ↦ ((record reader { file = some (drop 16 bytes) }, none), read_header-short n, finished)
    | yes l ↦
        let (x, e) = unpack_packet_header_ok order (take 16 bytes) l in
        let w = length-take 16 bytes in
        (
          read_data (swap_packet_header reader.needs_byte_swap x) (drop 16 bytes) reader,
          read_header-long x l e,
          read_data-IsRead (swap_packet_header reader.needs_byte_swap x) bytes reader
              (omega (arith, l, w)) h,
        )
  ]

  pub read_next_packet_lem :
      reader.file ≡ some bytes → read_next_packet order reader ≡ read_header order bytes reader
  unfolding read_next_packet
  read_next_packet_lem e =
      ap (λ f. elim f [ none ↦ ok (reader, none) | some b ↦ read_header order b reader ]) e

-- On a file of bytes the reader returns.
pub read_next_packet_ok :
    (order : ByteOrder) (bytes : List ℕ) (reader : PcapReader)
    → reader.file ≡ some bytes
    → AreBytes bytes
    → (r : PcapReader × Option RawPacket) × (read_next_packet order reader ≡ ok r) × IsRead bytes r
read_next_packet_ok order bytes reader e h =
    let (r, s, i) = read_header_ok order bytes reader h in
    (r, read_next_packet_lem order bytes reader e ∙ s, i)

-- A file that was opened goes on after its first twenty-four bytes.
pub data IsOpened (bytes : List ℕ) : PcapReader × Bool → Type 0 where
  refused : {reader : PcapReader} → IsOpened bytes (reader, false)
  accepted :
      {reader : PcapReader} → reader.file ≡ some (drop 24 bytes) → IsOpened bytes (reader, true)

accept_magic-IsOpened :
    (bytes : List ℕ) (reader : PcapReader)
    → reader.file ≡ some (drop 24 bytes)
    → IsOpened bytes (accept_magic reader)
unfolding accept_magic
accept_magic-IsOpened bytes reader e =
    let magic = reader.global_header.magic_number in
    on_branches (IsOpened bytes) (magic == pcap_magic_native || magic == pcap_magic_native_ns)
      (accepted e)
      (on_branches (IsOpened bytes) (magic == pcap_magic_swapped || magic == pcap_magic_swapped_ns)
        (accepted e) refused)

pub unpack_global_header_ok :
    (order : ByteOrder) (raw : List ℕ)
    → length raw ≡ 24
    → (header : PcapGlobalHeader) × (unpack_global_header order raw ≡ ok header)
unfolding unpack_global_header
unpack_global_header_ok order raw e = value_of (unpack_global_header order raw) (ground (arith, e))

module _ (order : ByteOrder) (bytes : List ℕ) (reader : PcapReader) where
  pub open_capture-short :
      length (take 24 bytes) ≢ 24
      → open_capture order (some bytes) reader
        ≡ ok (record (close reader) { nanosecond = false }, false)
  unfolding open_capture
  open_capture-short h = grind (arith, h)

  pub open_capture-long :
      (header : PcapGlobalHeader)
      → length (take 24 bytes) ≡ 24
      → unpack_global_header order (take 24 bytes) ≡ ok header
      → open_capture order (some bytes) reader
        ≡ ok (
            accept_magic (record (close reader) {
              nanosecond = false;
              file = some (drop 24 bytes);
              global_header = header;
            }))
  unfolding open_capture
  open_capture-long header h e = grind (arith, h, e)

  pub open_capture_ok :
      (r : PcapReader × Bool) × (open_capture order (some bytes) reader ≡ ok r) × IsOpened bytes r
  open_capture_ok = elim (ℕ_discrete (length (take 24 bytes)) 24) [
    | no n ↦ ((record (close reader) { nanosecond = false }, false), open_capture-short n, refused)
    | yes l ↦
        let (x, e) = unpack_global_header_ok order (take 24 bytes) l in
        let begun : PcapReader = record (close reader) {
          nanosecond = false;
          file = some (drop 24 bytes);
          global_header = x;
        } in
        (accept_magic begun, open_capture-long x l e, accept_magic-IsOpened bytes begun refl)
  ]
