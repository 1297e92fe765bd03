-- ===== src/Pcap/Records.antt =====
-- What the reader of dpi/pcap_reader.py gets of the headers that dpi/dpi_engine.py writes.
use python_deep_packet_inspe.Prelude.{
  ℕ, ◌≡◌, List, Bool, true, false, arith, if◌then◌else◌, ok, ◌∙◌, refl, ap, ◌++◌, ◌<◌, subst, ◌^◌,
  sym,
}
use python_deep_packet_inspe.Pack.{ByteOrder, little_endian, big_endian, bytes_value}
use python_deep_packet_inspe.Pcap.{
  swap16, swap32, PcapGlobalHeader, PcapReader, pcap_magic_native, pcap_magic_native_ns,
  pcap_magic_swapped, pcap_magic_swapped_ns, unpack_global_header, field_at, swap_global_header,
  accept_magic, open_capture, write_output_header, write_output_packet, close, closed_reader, take,
  length, some, maybe_swap16, maybe_swap32, drop,
}
use python_deep_packet_inspe.Pcap.Words.{
  word, half, pack32_lem, pack16_lem, differs, read32_lem, read16_lem,
}
use python_deep_packet_inspe.Pcap.Progress.{open_capture-long}

abbrev pub header_bytes : ByteOrder → PcapGlobalHeader → List ℕ
header_bytes w h =
    word w h.magic_number
    ++ (half w h.version_major
        ++ (half w h.version_minor
            ++ (word w h.thiszone ++ (word w h.sigfigs ++ (word w h.snaplen ++ word w h.network)))))

abbrev pub packet_bytes : ByteOrder → ℕ → ℕ → List ℕ → List ℕ
packet_bytes w sec usec content =
    word w sec ++ (word w usec ++ (word w (length content) ++ (word w (length content) ++ content)))

-- The header of a capture in the writer's byte order, its numbers in the width of their fields.
pub record IsNative (header : PcapGlobalHeader) : Type 0 where
  pub nanosecond : Bool
  pub magic : header.magic_number ≡ (if nanosecond then pcap_magic_native_ns else pcap_magic_native)
  pub version_major : header.version_major < 2 ^ 16
  pub version_minor : header.version_minor < 2 ^ 16
  pub thiszone : header.thiszone < 2 ^ 32
  pub sigfigs : header.sigfigs < 2 ^ 32
  pub snaplen : header.snaplen < 2 ^ 32
  pub network : header.network < 2 ^ 32

magic_fits : (b : Bool) → (if b then pcap_magic_native_ns else pcap_magic_native) < 2 ^ 32
magic_fits true = omega arith
magic_fits false = omega arith

-- The fields fit the format in which the header is written.
pub record HasWidths (header : PcapGlobalHeader) : Type 0 where
  pub magic : header.magic_number < 2 ^ 32
  pub version_major : header.version_major < 2 ^ 16
  pub version_minor : header.version_minor < 2 ^ 16
  pub thiszone : header.thiszone < 2 ^ 32
  pub sigfigs : header.sigfigs < 2 ^ 32
  pub snaplen : header.snaplen < 2 ^ 32
  pub network : header.network < 2 ^ 32

pub IsNative-HasWidths : (h : PcapGlobalHeader) → IsNative h → HasWidths h
IsNative-HasWidths h i =
    let m = i.magic in
    let f = magic_fits i.nanosecond in
    record {
      magic = subst (λ n. n < 2 ^ 32) (sym m) f;
      version_major = i.version_major;
      version_minor = i.version_minor;
      thiszone = i.thiszone;
      sigfigs = i.sigfigs;
      snaplen = i.snaplen;
      network = i.network;
    }

pub write_output_header_lem :
    (w : ByteOrder) (h : PcapGlobalHeader)
    → HasWidths h
    → write_output_header w h ≡ ok (header_bytes w h)
unfolding write_output_header
write_output_header_lem w h i = rw (pack32_lem w h.magic_number i.magic) (
    rw (pack16_lem w h.version_major i.version_major) (
      rw (pack16_lem w h.version_minor i.version_minor) (
        rw (pack32_lem w h.thiszone i.thiszone) (
          rw (pack32_lem w h.sigfigs i.sigfigs)
            (rw (pack32_lem w h.snaplen i.snaplen) (rw (pack32_lem w h.network i.network) refl))))))

pub write_output_packet_lem :
    (w : ByteOrder) (sec usec : ℕ) (content : List ℕ)
    → sec < 2 ^ 32
    → usec < 2 ^ 32
    → length content < 2 ^ 32
    → write_output_packet w sec usec content ≡ ok (packet_bytes w sec usec content)
unfolding write_output_packet
write_output_packet_lem w sec usec content a b c =
    rw (pack32_lem w sec a) (rw (pack32_lem w usec b) (rw (pack32_lem w (length content) c) refl))

-- The header as a reader of the order `o` loads it.
abbrev loaded : ByteOrder → ByteOrder → PcapGlobalHeader → PcapGlobalHeader
loaded o w h = record {
  magic_number = bytes_value o (word w h.magic_number);
  version_major = bytes_value o (half w h.version_major);
  version_minor = bytes_value o (half w h.version_minor);
  thiszone = bytes_value o (word w h.thiszone);
  sigfigs = bytes_value o (word w h.sigfigs);
  snaplen = bytes_value o (word w h.snaplen);
  network = bytes_value o (word w h.network);
}

unpack_global_header_lem :
    (w o : ByteOrder) (h : PcapGlobalHeader) (rest : List ℕ)
    → unpack_global_header o (take 24 (header_bytes w h ++ rest)) ≡ ok (loaded o w h)
unfolding unpack_global_header field_at
unpack_global_header_lem little_endian o h rest = refl
unpack_global_header_lem big_endian o h rest = refl

-- The magic number as it is loaded tells whether the orders differ.
abbrev magic_of : Bool → Bool → ℕ
magic_of false false = pcap_magic_native
magic_of false true = pcap_magic_native_ns
magic_of true false = pcap_magic_swapped
magic_of true true = pcap_magic_swapped_ns

magic_lem :
    (w o : ByteOrder) (ns : Bool)
    → bytes_value o (word w (if ns then pcap_magic_native_ns else pcap_magic_native))
      ≡ magic_of (differs w o) ns
unfolding bytes_value
magic_lem little_endian little_endian true = refl
magic_lem little_endian little_endian false = refl
magic_lem little_endian big_endian true = refl
magic_lem little_endian big_endian false = refl
magic_lem big_endian little_endian true = refl
magic_lem big_endian little_endian false = refl
magic_lem big_endian big_endian true = refl
magic_lem big_endian big_endian false = refl

accept_magic_lem :
    (d ns : Bool) (reader : PcapReader)
    → reader.global_header.magic_number ≡ magic_of d ns
    → accept_magic reader ≡ (
      record reader {
        needs_byte_swap = d;
        nanosecond = ns;
        global_header = if d then swap_global_header reader.global_header else reader.global_header;
      },
      true,
    )
unfolding accept_magic
accept_magic_lem true true reader e = grind (arith, e)
accept_magic_lem true false reader e = grind (arith, e)
accept_magic_lem false true reader e = grind (arith, e)
accept_magic_lem false false reader e = grind (arith, e)

-- A reader of the order `o` that has opened a capture of the order `w`.
pub record IsOpen (w o : ByteOrder) (h : PcapGlobalHeader) (rest : List ℕ) (reader : PcapReader)
    : Type 0 where
  pub file : reader.file ≡ some rest
  pub swap : reader.needs_byte_swap ≡ differs w o
  pub snaplen : reader.global_header.snaplen ≡ h.snaplen

-- The fields that the reader shows as they were written.
pub record IsLoaded (h : PcapGlobalHeader) (native : IsNative h) (reader : PcapReader)
    : Type 0 where
  pub nanosecond : reader.nanosecond ≡ native.nanosecond
  pub version_major : reader.global_header.version_major ≡ h.version_major
  pub version_minor : reader.global_header.version_minor ≡ h.version_minor
  pub network : reader.global_header.network ≡ h.network

pub opened : (w o : ByteOrder) (h : PcapGlobalHeader) → Bool → List ℕ → PcapReader
opened w o h ns rest = record closed_reader {
  file = some rest;
  needs_byte_swap = differs w o;
  nanosecond = ns;
  global_header = if differs w o then swap_global_header (loaded o w h) else loaded o w h;
}

-- What swapping does to the fields that it swaps.
swapped_fields :
    (d : Bool) (x : PcapGlobalHeader)
    → ((if d then swap_global_header x else x).snaplen
        ≡ (if d then swap32 x.snaplen else x.snaplen))
      × ((if d then swap_global_header x else x).network
          ≡ (if d then swap32 x.network else x.network))
      × ((if d then swap_global_header x else x).version_major
          ≡ (if d then swap16 x.version_major else x.version_major))
      × ((if d then swap_global_header x else x).version_minor
          ≡ (if d then swap16 x.version_minor else x.version_minor))
unfolding swap_global_header maybe_swap16 maybe_swap32
swapped_fields true x = (refl, refl, refl, refl)
swapped_fields false x = (refl, refl, refl, refl)

header_rest :
    (w : ByteOrder) (h : PcapGlobalHeader) (rest : List ℕ)
    → (drop 24 (header_bytes w h ++ rest) ≡ rest)
      × (length (take 24 (header_bytes w h ++ rest)) ≡ 24)
header_rest little_endian h rest = (refl, refl)
header_rest big_endian h rest = (refl, refl)

module _ (w o : ByteOrder) (h : PcapGlobalHeader) (native : IsNative h) (rest : List ℕ) where
  pub opened-IsOpen : IsOpen w o h rest (opened w o h native.nanosecond rest)
  unfolding opened
  opened-IsOpen =
      let s = swapped_fields (differs w o) (loaded o w h) in
      record { file = refl; swap = refl; snaplen = s.0 ∙ read32_lem w o h.snaplen native.snaplen }

  pub opened-IsLoaded : IsLoaded h native (opened w o h native.nanosecond rest)
  unfolding opened
  opened-IsLoaded =
      let s = swapped_fields (differs w o) (loaded o w h) in
      record {
        nanosecond = refl;
        version_major = s.2 ∙ read16_lem w o h.version_major native.version_major;
        version_minor = s.3 ∙ read16_lem w o h.version_minor native.version_minor;
        network = s.1 ∙ read32_lem w o h.network native.network;
      }

  pub open_capture_lem :
      open_capture o (some (header_bytes w h ++ rest)) closed_reader
      ≡ ok (opened w o h native.nanosecond rest, true)
  unfolding opened close
  open_capture_lem =
      let (d, l) = header_rest w h rest in
      let m = native.magic in
      let begun : List ℕ → PcapReader = λ bytes. record (close closed_reader) {
        nanosecond = false;
        file = some bytes;
        global_header = loaded o w h;
      } in
      open_capture-long o (header_bytes w h ++ rest) closed_reader (loaded o w h) l
        (unpack_global_header_lem w o h rest)
      ∙ ap (λ bytes. ok (accept_magic (begun bytes))) d
      ∙ ap ok (
          accept_magic_lem (differs w o) native.nanosecond (begun rest)
            (ap (λ n. bytes_value o (word w n)) m ∙ magic_lem w o native.nanosecond))
