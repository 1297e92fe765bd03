-- ===== src/Pcap/Written.antt =====
-- A file of a header and records, as the engines write it, is a capture that the reader of
-- dpi/pcap_reader.py reads back.
use python_deep_packet_inspe.Prelude.{
  ℕ, zero, suc, ◌≤◌, ◌<◌, ◌≡◌, refl, sym, ap, ◌∙◌, true, some, List, [], ◌∷◌, ◌++◌, map,
  append_assoc, arith, length, All, length-append, ok,
}
use python_deep_packet_inspe.Pack.{ByteOrder, little_endian, big_endian}
use python_deep_packet_inspe.Parser.{RawPacket}
use python_deep_packet_inspe.Pcap.{
  PcapGlobalHeader, PcapReader, closed_reader, iterate, open_capture,
}
use python_deep_packet_inspe.Pcap.Records.{
  IsOpen, IsNative, IsLoaded, packet_bytes, header_bytes, opened, opened-IsOpen, opened-IsLoaded,
  open_capture_lem,
}
use python_deep_packet_inspe.Pcap.Packets.{packet_of, read_next_packet-packet, read_next_packet-end}
use python_deep_packet_inspe.Pcap.Captured.{IsCaptured}

-- A packet as its record gives it: both lengths are that of its bytes.
abbrev pub as_written : RawPacket → RawPacket
as_written raw = packet_of raw.header.ts_sec raw.header.ts_usec raw.content

unfoldable pub records : ByteOrder → List RawPacket → List ℕ
records w [] = []
records w (raw ∷ raws) =
    packet_bytes w raw.header.ts_sec raw.header.ts_usec raw.content ++ records w raws

length-records : (w : ByteOrder) (raws : List RawPacket) → length raws ≤ length (records w raws)
unfolding records
length-records w [] = omega arith
length-records little_endian (raw ∷ raws) =
    let l = length-records little_endian raws in
    let n = length-append raw.content (records little_endian raws) in omega (arith, l, n)
length-records big_endian (raw ∷ raws) =
    let l = length-records big_endian raws in
    let n = length-append raw.content (records big_endian raws) in omega (arith, l, n)

pub records-append :
    (w : ByteOrder) (raws more : List RawPacket)
    → records w (raws ++ more) ≡ records w raws ++ records w more
unfolding records
records-append w [] more = refl
records-append w (raw ∷ raws) more =
    let e = records-append w raws more in
    ap (λ r. packet_bytes w raw.header.ts_sec raw.header.ts_usec raw.content ++ r) e
    ∙ sym (
        append_assoc (packet_bytes w raw.header.ts_sec raw.header.ts_usec raw.content)
          (records w raws) (records w more))

iterate_lem :
    (fuel : ℕ) (w o : ByteOrder) (h : PcapGlobalHeader) (raws : List RawPacket)
    (reader : PcapReader)
    → length raws < fuel
    → All (IsCaptured h.snaplen) raws
    → IsOpen w o h (records w raws) reader
    → iterate fuel o reader ≡ ok (map as_written raws)
unfolding iterate records
iterate_lem zero w o h raws reader l f i = elim l [ ]
iterate_lem (suc fuel) w o h [] reader l f i = rw (read_next_packet-end w o h reader i) refl
iterate_lem (suc fuel) w o h (raw ∷ raws) reader l (f, fs) i =
    rw
      (read_next_packet-packet w o h raw.header.ts_sec raw.header.ts_usec raw.content
        (records w raws) reader f.ts_sec f.ts_usec f.captured f.longest i)
      (rw
        (iterate_lem fuel w o h raws (record reader { file = some (records w raws) }) (omega arith)
          fs (record { file = refl; swap = i.swap; snaplen = i.snaplen }))
        refl)

-- The reader opens such a file and iterates over the packets.
pub record ReadsBack (o : ByteOrder) (header : PcapGlobalHeader) (native : IsNative header)
    (raws : List RawPacket) (file : List ℕ) : Type 0 where
  pub reader : PcapReader
  pub opens : open_capture o (some file) closed_reader ≡ ok (reader, true)
  pub loaded : IsLoaded header native reader
  pub reads : iterate (suc (length file)) o reader ≡ ok (map as_written raws)

pub records-ReadsBack :
    (w o : ByteOrder) (header : PcapGlobalHeader) (native : IsNative header) (raws : List RawPacket)
    → All (IsCaptured header.snaplen) raws
    → ReadsBack o header native raws (header_bytes w header ++ records w raws)
records-ReadsBack w o header native raws f =
    let l = length-records w raws in
    let n = length-append (header_bytes w header) (records w raws) in
    record {
      reader = opened w o header native.nanosecond (records w raws);
      opens = open_capture_lem w o header native (records w raws);
      loaded = opened-IsLoaded w o header native (records w raws);
      reads =
          iterate_lem (suc (length (header_bytes w header ++ records w raws))) w o header raws
            (opened w o header native.nanosecond (records w raws)) (omega (arith, l, n)) f
            (opened-IsOpen w o header native (records w raws));
    }
