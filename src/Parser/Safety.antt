-- ===== src/Parser/Safety.antt =====
-- That `PacketParser` of dpi/packet_parser.py never raises.
use python_deep_packet_inspe.Prelude.{
  ℕ, ◌≡◌, true, Option, List, arith, ok, is_ok, index-is_ok, value_of,
}
use python_deep_packet_inspe.Pack.{ByteOrder, unpack16-is_ok, unpack32-is_ok}
use python_deep_packet_inspe.Parser.{
  RawPacket, ParsedPacket, parse_ethernet, parse_ipv4, parse_tcp, parse_udp, parse_transport,
  parse_ip_layers, parse_layers, parse_into, parse,
}

module _ (bytes : List ℕ) where
  parse_ethernet-is_ok :
      (parsed : ParsedPacket) (offset : ℕ) → is_ok (parse_ethernet bytes parsed offset) ≡ true
  unfolding parse_ethernet
  parse_ethernet-is_ok parsed offset = grind (arith, unpack16-is_ok)

  parse_ipv4-is_ok :
      (order : ByteOrder) (parsed : ParsedPacket) (offset : ℕ)
      → is_ok (parse_ipv4 order bytes parsed offset) ≡ true
  unfolding parse_ipv4
  parse_ipv4-is_ok order parsed offset = grind (arith, index-is_ok, unpack32-is_ok)

  parse_tcp-is_ok :
      (parsed : ParsedPacket) (offset : ℕ) → is_ok (parse_tcp bytes parsed offset) ≡ true
  unfolding parse_tcp
  parse_tcp-is_ok parsed offset = grind (arith, index-is_ok, unpack16-is_ok, unpack32-is_ok)

  parse_udp-is_ok :
      (parsed : ParsedPacket) (offset : ℕ) → is_ok (parse_udp bytes parsed offset) ≡ true
  unfolding parse_udp
  parse_udp-is_ok parsed offset = grind (arith, unpack16-is_ok)

  parse_transport-is_ok :
      (parsed : ParsedPacket) (offset : ℕ) → is_ok (parse_transport bytes parsed offset) ≡ true
  unfolding parse_transport
  parse_transport-is_ok parsed offset = grind (arith, parse_tcp-is_ok, parse_udp-is_ok)

  parse_ip_layers-is_ok :
      (order : ByteOrder) (parsed : ParsedPacket) (offset : ℕ)
      → is_ok (parse_ip_layers order bytes parsed offset) ≡ true
  unfolding parse_ip_layers
  parse_ip_layers-is_ok order parsed offset = grind (arith, parse_ipv4-is_ok, parse_transport-is_ok)

  pub parse_layers-is_ok :
      (order : ByteOrder) (parsed : ParsedPacket) → is_ok (parse_layers order bytes parsed) ≡ true
  unfolding parse_layers
  parse_layers-is_ok order parsed = grind (arith, parse_ethernet-is_ok, parse_ip_layers-is_ok)

parse-is_ok : (order : ByteOrder) (raw : RawPacket) → is_ok (parse order raw) ≡ true
unfolding parse parse_into
parse-is_ok order raw = grind (arith, parse_layers-is_ok)

-- On any bytes and any byte order of the host the parser returns: it reads nothing out of range.
pub parse-returns :
    (order : ByteOrder) (raw : RawPacket)
    → (parsed : Option ParsedPacket) × (parse order raw ≡ ok parsed)
parse-returns order raw = value_of (parse order raw) (parse-is_ok order raw)
