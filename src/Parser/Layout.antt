-- ===== src/Parser/Layout.antt =====
-- Where the layers of a packet that `PacketParser` of dpi/packet_parser.py accepts begin and end.
use python_deep_packet_inspe.Prelude.{
  ℕ, ◌+◌, ◌*◌, ◌%◌, ◌≤◌, ◌≡◌, true, List, arith, length, ok, index, index_ok, ◌/◌,
}
use python_deep_packet_inspe.Pack.{
  big_endian, ByteOrder, bytes_at, unpack16, unpack32, unpack32_ok, unpack16_ok,
}
use python_deep_packet_inspe.Parser.{
  ParsedPacket, format_ip, parse_ethernet, parse_ipv4, parse_tcp, parse_udp, false, Bool,
}

module _ (bytes : List ℕ) (parsed parsed' : ParsedPacket) (o : ℕ) where
  -- After an Ethernet header.
  pub record IsEthernet : Type 0 where
    pub offset : o ≡ 14
    pub no_tcp : parsed'.has_tcp ≡ parsed.has_tcp
    pub no_udp : parsed'.has_udp ≡ parsed.has_udp
    pub no_ip : parsed'.has_ip ≡ parsed.has_ip

  pub parse_ethernet-IsEthernet : parse_ethernet bytes parsed 0 ≡ ok (true, o, parsed') → IsEthernet
  unfolding parse_ethernet unpack16 bytes_at
  parse_ethernet-IsEthernet h = record {
    offset = ground (arith, h);
    no_tcp = ground (arith, h);
    no_udp = ground (arith, h);
    no_ip = ground (arith, h);
  }

  module _ (order : ByteOrder) (start : ℕ) where
    -- After an IPv4 header at `start`.
    pub record IsIpv4 : Type 0 where
      pub version_ihl : ℕ
      pub source : ℕ
      pub target : ℕ
      pub first : index bytes start ≡ ok version_ihl
      pub offset : o ≡ start + version_ihl % 16 * 4
      pub least : start + 20 ≤ o
      pub within : o ≤ length bytes
      pub no_tcp : parsed'.has_tcp ≡ parsed.has_tcp
      pub no_udp : parsed'.has_udp ≡ parsed.has_udp
      pub source_at : unpack32 order bytes (start + 12) ≡ ok source
      pub target_at : unpack32 order bytes (start + 16) ≡ ok target
      pub src_ip : parsed'.src_ip ≡ format_ip source
      pub dest_ip : parsed'.dest_ip ≡ format_ip target

    long_enough :
        parse_ipv4 order bytes parsed start ≡ ok (true, o, parsed') → start + 20 ≤ length bytes
    unfolding parse_ipv4
    long_enough h = ground (arith, h)

    pub parse_ipv4-IsIpv4 : parse_ipv4 order bytes parsed start ≡ ok (true, o, parsed') → IsIpv4
    unfolding parse_ipv4
    parse_ipv4-IsIpv4 h =
        let l = long_enough h in
        let (v, ev) = index_ok bytes start (omega (arith, l)) in
        let (t, et) = index_ok bytes (start + 8) (omega (arith, l)) in
        let (p, ep) = index_ok bytes (start + 9) (omega (arith, l)) in
        let (a, ea) = unpack32_ok order bytes (start + 12) (omega (arith, l)) in
        let (b, eb) = unpack32_ok order bytes (start + 16) (omega (arith, l)) in
        record {
          version_ihl = v;
          source = a;
          target = b;
          first = ev;
          offset = ground (arith, h, ev, et, ep, ea, eb);
          least = ground (arith, h, ev, et, ep, ea, eb);
          within = ground (arith, h, ev, et, ep, ea, eb);
          no_tcp = ground (arith, h, ev, et, ep, ea, eb);
          no_udp = ground (arith, h, ev, et, ep, ea, eb);
          source_at = ea;
          target_at = eb;
          src_ip = ground (arith, h, ev, et, ep, ea, eb);
          dest_ip = ground (arith, h, ev, et, ep, ea, eb);
        }

-- A transport header at `start` that ends at `o`.
pub data IsTransport (bytes : List ℕ) (has_tcp has_udp : Bool) (start o : ℕ) : Type 0 where
  tcp_header :
      (data_offset : ℕ)
      → has_tcp ≡ true
      → index bytes (start + 12) ≡ ok data_offset
      → o ≡ start + data_offset / 16 % 16 * 4
      → start + 20 ≤ o
      → IsTransport bytes has_tcp has_udp start o
  udp_header :
      has_tcp ≡ false → has_udp ≡ true → o ≡ start + 8 → IsTransport bytes has_tcp has_udp start o

-- What a transport header leaves of a packet, beside its own fields.
abbrev pub IsAbove : List ℕ → ParsedPacket → ParsedPacket → ℕ → ℕ → Type 0
IsAbove bytes parsed parsed' start o =
    IsTransport bytes parsed'.has_tcp parsed'.has_udp start o
    × (o ≤ length bytes)
    × (parsed'.src_ip ≡ parsed.src_ip)
    × (parsed'.dest_ip ≡ parsed.dest_ip)
    × (parsed'.protocol ≡ parsed.protocol)

module _ (bytes : List ℕ) (parsed parsed' : ParsedPacket) (start o : ℕ) where
  tcp_enough : parse_tcp bytes parsed start ≡ ok (true, o, parsed') → start + 20 ≤ length bytes
  unfolding parse_tcp
  tcp_enough h = ground (arith, h)

  pub parse_tcp-IsTransport :
      parse_tcp bytes parsed start ≡ ok (true, o, parsed')
      → IsAbove bytes parsed parsed' start o × (parsed'.has_tcp ≡ true)
  unfolding parse_tcp
  parse_tcp-IsTransport h =
      let l = tcp_enough h in
      let (a, ea) = unpack16_ok big_endian bytes start (omega (arith, l)) in
      let (b, eb) = unpack16_ok big_endian bytes (start + 2) (omega (arith, l)) in
      let (c, ec) = unpack32_ok big_endian bytes (start + 4) (omega (arith, l)) in
      let (d, ed) = unpack32_ok big_endian bytes (start + 8) (omega (arith, l)) in
      let (e, ee) = index_ok bytes (start + 12) (omega (arith, l)) in
      let (f, ef) = index_ok bytes (start + 13) (omega (arith, l)) in
      (
        (
          tcp_header e (ground (arith, h, ea, eb, ec, ed, ee, ef)) ee
              (ground (arith, h, ea, eb, ec, ed, ee, ef))
              (ground (arith, h, ea, eb, ec, ed, ee, ef)),
          ground (arith, h, ea, eb, ec, ed, ee, ef),
          ground (arith, h, ea, eb, ec, ed, ee, ef),
          ground (arith, h, ea, eb, ec, ed, ee, ef),
          ground (arith, h, ea, eb, ec, ed, ee, ef),
        ),
        ground (arith, h, ea, eb, ec, ed, ee, ef),
      )

  pub parse_udp-IsTransport :
      parsed.has_tcp ≡ false
      → parse_udp bytes parsed start ≡ ok (true, o, parsed')
      → IsAbove bytes parsed parsed' start o × (parsed'.has_tcp ≡ false)
  unfolding parse_udp
  parse_udp-IsTransport n h = (
    (
      udp_header (ground (arith, h, n)) (ground (arith, h)) (ground (arith, h)),
      ground (arith, h),
      ground (arith, h),
      ground (arith, h),
      ground (arith, h),
    ),
    ground (arith, h, n),
  )
