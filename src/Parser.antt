-- ===== src/Parser.antt =====
-- `PacketParser` of dpi/packet_parser.py, with `ParsedPacket` and the text helpers. The parser fills
-- a `ParsedPacket` as it goes, also before a failure; `parse` shows it only after success. `=I` is a
-- load in the byte order of the host. `(b >> 4) & 0x0F` is `b / 16 % 16` and `b & 0x0F` is `b % 16`.
pub mod Layers
pub mod Safety
pub mod Layout
pub mod Frame
use python_deep_packet_inspe.Prelude.{
  ℕ, ◌+◌, ◌-◌, ◌*◌, ◌/◌, ◌%◌, ◌^◌, Bool, true, false, not, ◌||◌, Option, none, some, List, [], ◌∷◌,
  map, ◌++◌, length, ltb, ◌==◌, if◌then◌else◌, Py, ok, ◌>>=◌, index, take, drop,
}
use python_deep_packet_inspe.Pack.{ByteOrder, big_endian, unpack16, unpack32}
use python_deep_packet_inspe.Text.{join}
use python_deep_packet_inspe.Sni.{hex}
use python_deep_packet_inspe.Rules.{decimal}

-- `PcapPacketHeader` and `RawPacket` of dpi/pcap_reader.py.
pub record PcapPacketHeader : Type 0 where
  pub ts_sec : ℕ
  pub ts_usec : ℕ
  pub incl_len : ℕ
  pub orig_len : ℕ

pub record RawPacket : Type 0 where
  pub header : PcapPacketHeader
  pub content : List ℕ

pub record ParsedPacket : Type 0 where
  pub timestamp_sec : ℕ
  pub timestamp_usec : ℕ
  pub src_mac : List ℕ
  pub dest_mac : List ℕ
  pub ether_type : ℕ
  pub has_ip : Bool
  pub ip_version : ℕ
  pub src_ip : List ℕ
  pub dest_ip : List ℕ
  pub protocol : ℕ
  pub ttl : ℕ
  pub has_tcp : Bool
  pub has_udp : Bool
  pub src_port : ℕ
  pub dest_port : ℕ
  pub tcp_flags : ℕ
  pub seq_number : ℕ
  pub ack_number : ℕ
  pub payload_length : ℕ
  pub payload_data : Option (List ℕ)

-- Every field at its default.
unfoldable pub reset : ParsedPacket
reset = record {
  timestamp_sec = 0;
  timestamp_usec = 0;
  src_mac = [];
  dest_mac = [];
  ether_type = 0;
  has_ip = false;
  ip_version = 0;
  src_ip = [];
  dest_ip = [];
  protocol = 0;
  ttl = 0;
  has_tcp = false;
  has_udp = false;
  src_port = 0;
  dest_port = 0;
  tcp_flags = 0;
  seq_number = 0;
  ack_number = 0;
  payload_length = 0;
  payload_data = none;
}

unfoldable pub mac_to_string : List ℕ → List ℕ
unfolding join hex
mac_to_string mac = join b':' (map (λ b. hex (b ∷ [])) (take 6 mac))

unfoldable pub format_ip : ℕ → List ℕ
unfolding decimal
format_ip ip =
    decimal (ip % 2 ^ 8)
    ++ b'.'
      ∷ (decimal (ip / 2 ^ 8 % 2 ^ 8)
          ++ b'.' ∷ (decimal (ip / 2 ^ 16 % 2 ^ 8) ++ b'.' ∷ decimal (ip / 2 ^ 24 % 2 ^ 8)))

-- Success, the new offset, and the packet as it is then.
abbrev pub Layer : Type 0
Layer = Py (Bool × ℕ × ParsedPacket)

unfoldable pub parse_ethernet : List ℕ → ParsedPacket → ℕ → Layer
unfolding mac_to_string
parse_ethernet bytes parsed offset =
    if ltb (length bytes) 14 then ok (false, offset, parsed) else do
      ether_type ← unpack16 big_endian bytes 12
      ok (
        true,
        14,
        record parsed {
          dest_mac = mac_to_string (take 6 bytes);
          src_mac = mac_to_string (take 6 (drop 6 bytes));
          ether_type = ether_type;
        },
      )

unfoldable pub parse_ipv4 : ByteOrder → List ℕ → ParsedPacket → ℕ → Layer
unfolding format_ip
parse_ipv4 order bytes parsed offset =
    if ltb (length bytes) (offset + 20) then ok (false, offset, parsed) else do
      version_ihl ← index bytes offset
      let started = record parsed { ip_version = version_ihl / 16 % 16 }
      let ip_header_len = version_ihl % 16 * 4
      if not (version_ihl / 16 % 16 == 4)
            || ltb ip_header_len 20
            || ltb (length bytes) (offset + ip_header_len)
          then ok (false, offset, started)
          else do
            ttl ← index bytes (offset + 8)
            protocol ← index bytes (offset + 9)
            src_ip ← unpack32 order bytes (offset + 12)
            dest_ip ← unpack32 order bytes (offset + 16)
            ok (
              true,
              offset + ip_header_len,
              record started {
                ttl = ttl;
                protocol = protocol;
                src_ip = format_ip src_ip;
                dest_ip = format_ip dest_ip;
                has_ip = true;
              },
            )

unfoldable pub parse_tcp : List ℕ → ParsedPacket → ℕ → Layer
parse_tcp bytes parsed offset =
    if ltb (length bytes) (offset + 20) then ok (false, offset, parsed) else do
      src_port ← unpack16 big_endian bytes offset
      dest_port ← unpack16 big_endian bytes (offset + 2)
      seq_number ← unpack32 big_endian bytes (offset + 4)
      ack_number ← unpack32 big_endian bytes (offset + 8)
      data_offset ← index bytes (offset + 12)
      flags ← index bytes (offset + 13)
      let tcp_header_len = data_offset / 16 % 16 * 4
      let read = record parsed {
        src_port = src_port;
        dest_port = dest_port;
        seq_number = seq_number;
        ack_number = ack_number;
        tcp_flags = flags;
      }
      if ltb tcp_header_len 20 || ltb (length bytes) (offset + tcp_header_len)
          then ok (false, offset, read)
          else ok (true, offset + tcp_header_len, record read { has_tcp = true })

unfoldable pub parse_udp : List ℕ → ParsedPacket → ℕ → Layer
parse_udp bytes parsed offset =
    if ltb (length bytes) (offset + 8) then ok (false, offset, parsed) else do
      src_port ← unpack16 big_endian bytes offset
      dest_port ← unpack16 big_endian bytes (offset + 2)
      ok (
        true,
        offset + 8,
        record parsed { src_port = src_port; dest_port = dest_port; has_udp = true },
      )

-- The layer above IPv4, by the protocol.
unfoldable pub parse_transport : List ℕ → ParsedPacket → ℕ → Layer
unfolding parse_tcp parse_udp
parse_transport bytes parsed offset =
    if parsed.protocol == 6
    then parse_tcp bytes parsed offset
    else if parsed.protocol == 17
    then parse_udp bytes parsed offset
    else ok (true, offset, parsed)

-- What `parse_into` does with an IPv4 frame after its Ethernet header.
unfoldable pub parse_ip_layers : ByteOrder → List ℕ → ParsedPacket → ℕ → Layer
unfolding parse_ipv4 parse_transport
parse_ip_layers order bytes parsed offset = do
  (success, offset', parsed') ← parse_ipv4 order bytes parsed offset
  if not success then ok (false, offset', parsed') else parse_transport bytes parsed' offset'

unfoldable pub set_payload : List ℕ → ParsedPacket → ℕ → ParsedPacket
set_payload bytes parsed offset =
    if ltb offset (length bytes)
    then record parsed {
      payload_length = length bytes - offset;
      payload_data = some (drop offset bytes);
    }
    else record parsed { payload_length = 0; payload_data = none }

-- All layers: success, the offset of the payload, and the packet before its payload is set.
unfoldable pub parse_layers : ByteOrder → List ℕ → ParsedPacket → Layer
unfolding parse_ethernet parse_ip_layers
parse_layers order bytes parsed = do
  (success, offset, parsed') ← parse_ethernet bytes parsed 0
  if not success
      then ok (false, offset, parsed')
      else if parsed'.ether_type == 0x0800
      then parse_ip_layers order bytes parsed' offset
      else ok (true, offset, parsed')

unfoldable pub parse_into : ByteOrder → RawPacket → Py (Bool × ParsedPacket)
unfolding parse_layers set_payload reset
parse_into order raw = do
  (success, offset, parsed) ←
      parse_layers order raw.content
        (record reset { timestamp_sec = raw.header.ts_sec; timestamp_usec = raw.header.ts_usec })
  ok (if success then (true, set_payload raw.content parsed offset) else (false, parsed))

unfoldable pub parse : ByteOrder → RawPacket → Py (Option ParsedPacket)
unfolding parse_into
parse order raw = do
  (success, parsed) ← parse_into order raw
  ok (if success then some parsed else none)
