-- ===== src/Pcap.antt =====
-- `PcapReader` of dpi/pcap_reader.py and the two functions of dpi/dpi_engine.py that write a capture.
-- An open file is the bytes that are left to read; the file of a name, or `none` where the operating
-- system does not give it, is an argument of `open_capture`. `thiszone`, a signed field that is only
-- copied, is its 32-bit pattern. What is printed is left out, and so is the name of the file.
pub mod Progress
pub mod Words
pub mod Records
pub mod Packets
pub mod Captured
pub mod Written
use python_deep_packet_inspe.Prelude.{
  ℕ, zero, suc, ◌*◌, ◌/◌, ◌%◌, ◌^◌, bit_or, Bool, true, false, not, ◌||◌, Option, none, some, List,
  [], ◌∷◌, ◌++◌, length, ltb, ◌==◌, if◌then◌else◌, Py, ok, raise, out_of_fuel, struct_error, ◌>>=◌,
  take, drop,
}
use python_deep_packet_inspe.Pack.{ByteOrder, bytes_value, pack16, pack32}
use python_deep_packet_inspe.Parser.{PcapPacketHeader, RawPacket}

pub record PcapGlobalHeader : Type 0 where
  pub magic_number : ℕ
  pub version_major : ℕ
  pub version_minor : ℕ
  pub thiszone : ℕ
  pub sigfigs : ℕ
  pub snaplen : ℕ
  pub network : ℕ

pub record PcapReader : Type 0 where
  pub file : Option (List ℕ)
  pub global_header : PcapGlobalHeader
  pub needs_byte_swap : Bool
  pub nanosecond : Bool

abbrev pub pcap_magic_native : ℕ
pcap_magic_native = 0xA1B2_C3D4

abbrev pub pcap_magic_swapped : ℕ
pcap_magic_swapped = 0xD4C3_B2A1

abbrev pub pcap_magic_native_ns : ℕ
pcap_magic_native_ns = 0xA1B2_3C4D

abbrev pub pcap_magic_swapped_ns : ℕ
pcap_magic_swapped_ns = 0x4D3C_B2A1

-- `PcapReader()`.
abbrev pub closed_reader : PcapReader
closed_reader = record {
  file = none;
  global_header = record {
    magic_number = 0;
    version_major = 0;
    version_minor = 0;
    thiszone = 0;
    sigfigs = 0;
    snaplen = 0;
    network = 0;
  };
  needs_byte_swap = false;
  nanosecond = false;
}

-- The number of `n` bytes at `offset` of a buffer that is long enough.
unfoldable pub field_at : ByteOrder → List ℕ → ℕ → ℕ → ℕ
unfolding bytes_value
field_at order raw offset n = bytes_value order (take n (drop offset raw))

-- `PcapGlobalHeader.unpack` and `PcapPacketHeader.unpack`.
unfoldable pub unpack_global_header : ByteOrder → List ℕ → Py PcapGlobalHeader
unfolding field_at
unpack_global_header order raw =
    if not (length raw == 24)
    then raise struct_error
    else ok (record {
      magic_number = field_at order raw 0 4;
      version_major = field_at order raw 4 2;
      version_minor = field_at order raw 6 2;
      thiszone = field_at order raw 8 4;
      sigfigs = field_at order raw 12 4;
      snaplen = field_at order raw 16 4;
      network = field_at order raw 20 4;
    })

unfoldable pub unpack_packet_header : ByteOrder → List ℕ → Py PcapPacketHeader
unfolding field_at
unpack_packet_header order raw =
    if not (length raw == 16)
    then raise struct_error
    else ok (record {
      ts_sec = field_at order raw 0 4;
      ts_usec = field_at order raw 4 4;
      incl_len = field_at order raw 8 4;
      orig_len = field_at order raw 12 4;
    })

-- The bytes of a 16-bit and of a 32-bit number in reverse.
unfoldable pub swap16 : ℕ → ℕ
swap16 value = bit_or (value / 2 ^ 8 % 2 ^ 8) (value % 2 ^ 8 * 2 ^ 8)

unfoldable pub swap32 : ℕ → ℕ
swap32 value =
    bit_or
      (bit_or (bit_or (value / 2 ^ 24 % 2 ^ 8) (value / 2 ^ 16 % 2 ^ 8 * 2 ^ 8))
        (value / 2 ^ 8 % 2 ^ 8 * 2 ^ 16))
      (value % 2 ^ 8 * 2 ^ 24)
    % 2 ^ 32

unfoldable pub maybe_swap16 : Bool → ℕ → ℕ
unfolding swap16
maybe_swap16 needs_byte_swap value = if not needs_byte_swap then value % 2 ^ 16 else swap16 value

unfoldable pub maybe_swap32 : Bool → ℕ → ℕ
unfolding swap32
maybe_swap32 needs_byte_swap value = if not needs_byte_swap then value % 2 ^ 32 else swap32 value

unfoldable pub close : PcapReader → PcapReader
close reader = record reader { file = none; needs_byte_swap = false }

-- The fields that `open` swaps. The magic number, `thiszone` and `sigfigs` stay as they were read.
unfoldable pub swap_global_header : PcapGlobalHeader → PcapGlobalHeader
unfolding maybe_swap16 maybe_swap32
swap_global_header header = record header {
  version_major = maybe_swap16 true header.version_major;
  version_minor = maybe_swap16 true header.version_minor;
  snaplen = maybe_swap32 true header.snaplen;
  network = maybe_swap32 true header.network;
}

-- The tests of the magic number, on a reader whose header was read.
unfoldable pub accept_magic : PcapReader → PcapReader × Bool
unfolding swap_global_header close
accept_magic reader =
    let magic = reader.global_header.magic_number in
    if magic == pcap_magic_native || magic == pcap_magic_native_ns
    then (
      record reader { needs_byte_swap = false; nanosecond = magic == pcap_magic_native_ns },
      true,
    )
    else if magic == pcap_magic_swapped || magic == pcap_magic_swapped_ns
    then (
      record reader {
        needs_byte_swap = true;
        nanosecond = magic == pcap_magic_swapped_ns;
        global_header = swap_global_header reader.global_header;
      },
      true,
    )
    else (close reader, false)

unfoldable pub open_capture : ByteOrder → Option (List ℕ) → PcapReader → Py (PcapReader × Bool)
unfolding close unpack_global_header accept_magic
open_capture order none reader = ok (record (close reader) { nanosecond = false }, false)
open_capture order (some bytes) reader =
    let raw = take 24 bytes in
    let closed = record (close reader) { nanosecond = false } in
    if not (length raw == 24) then ok (closed, false) else do
      header ← unpack_global_header order raw
      ok (accept_magic (record closed { file = some (drop 24 bytes); global_header = header }))

unfoldable pub swap_packet_header : Bool → PcapPacketHeader → PcapPacketHeader
unfolding maybe_swap32
swap_packet_header needs_byte_swap header =
    if needs_byte_swap
    then record {
      ts_sec = maybe_swap32 true header.ts_sec;
      ts_usec = maybe_swap32 true header.ts_usec;
      incl_len = maybe_swap32 true header.incl_len;
      orig_len = maybe_swap32 true header.orig_len;
    }
    else header

-- The packet after its header: the reader goes on past the bytes that it read.
unfoldable pub read_data : PcapPacketHeader → List ℕ → PcapReader → PcapReader × Option RawPacket
read_data header rest reader =
    if ltb reader.global_header.snaplen header.incl_len || ltb 65535 header.incl_len
    then (record reader { file = some rest }, none)
    else let bytes = take header.incl_len rest in
      let next = record reader { file = some (drop header.incl_len rest) } in
      if not (length bytes == header.incl_len)
      then (next, none)
      else (next, some (record { header = header; content = bytes }))

unfoldable pub read_header : ByteOrder → List ℕ → PcapReader → Py (PcapReader × Option RawPacket)
unfolding unpack_packet_header swap_packet_header read_data
read_header order bytes reader =
    let raw = take 16 bytes in
    if not (length raw == 16) then ok (record reader { file = some (drop 16 bytes) }, none) else do
      header ← unpack_packet_header order raw
      ok (read_data (swap_packet_header reader.needs_byte_swap header) (drop 16 bytes) reader)

unfoldable pub read_next_packet : ByteOrder → PcapReader → Py (PcapReader × Option RawPacket)
unfolding read_header
read_next_packet order reader = elim reader.file [
  | none ↦ ok (reader, none)
  | some bytes ↦ read_header order bytes reader
]

-- The packets of `__iter__`, on fuel: every packet takes sixteen bytes at least.
unfoldable pub iterate : ℕ → ByteOrder → PcapReader → Py (List RawPacket)
unfolding read_next_packet
iterate zero order reader = raise out_of_fuel
iterate (suc fuel) order reader = do
  (next, packet) ← read_next_packet order reader
  elim packet [ none ↦ ok [] | some raw ↦ do rest ← iterate fuel order next; ok (raw ∷ rest) ]

-- `_write_output_header`, the bytes that it writes.
unfoldable pub write_output_header : ByteOrder → PcapGlobalHeader → Py (List ℕ)
unfolding pack16 pack32
write_output_header order header = do
  magic ← pack32 order header.magic_number
  major ← pack16 order header.version_major
  minor ← pack16 order header.version_minor
  thiszone ← pack32 order header.thiszone
  sigfigs ← pack32 order header.sigfigs
  snaplen ← pack32 order header.snaplen
  network ← pack32 order header.network
  ok (magic ++ (major ++ (minor ++ (thiszone ++ (sigfigs ++ (snaplen ++ network))))))

-- `_write_output_packet`, for the time stamps and the bytes of a job.
unfoldable pub write_output_packet : ByteOrder → ℕ → ℕ → List ℕ → Py (List ℕ)
unfolding pack32
write_output_packet order ts_sec ts_usec content = do
  sec ← pack32 order ts_sec
  usec ← pack32 order ts_usec
  size ← pack32 order (length content)
  ok (sec ++ (usec ++ (size ++ (size ++ content))))
