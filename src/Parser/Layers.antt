-- ===== src/Parser/Layers.antt =====
-- The headers of a frame that dpi/packet_parser.py finds, layer by layer.
use python_deep_packet_inspe.Prelude.{
  refl, ap₂, Bool, ap, sym, not, if◌then◌else◌, ok-bind, ℕ, ◌≡◌, ◌||◌, ◌+◌, ◌%◌, ◌≤◌, ◌*◌, arith,
  ◌==◌, ◌∙◌, subst,
}
use python_deep_packet_inspe.Pack.{ByteOrder, unpack32}
use python_deep_packet_inspe.Parser.{
  ParsedPacket, format_ip, parse_ethernet, parse_ipv4, parse_tcp, parse_udp, parse_transport,
  parse_ip_layers, parse_layers, List, index, false, ok, true, length, Bool, not,
}
use python_deep_packet_inspe.Parser.Layout.{
  IsAbove, IsTransport, parse_ethernet-IsEthernet, parse_ipv4-IsIpv4, parse_tcp-IsTransport,
  parse_udp-IsTransport,
}

-- The protocol of a packet with TCP or UDP.
abbrev pub IsProtocol : ParsedPacket → Type 0
IsProtocol parsed = parsed.protocol ≡ (if parsed.has_tcp then 6 else 17)

module _ (bytes : List ℕ) (parsed parsed' : ParsedPacket) (start o : ℕ) where
  parse_transport-IsTransport :
      parsed.has_tcp ≡ false
      → parsed.has_udp ≡ false
      → parsed'.has_tcp || parsed'.has_udp ≡ true
      → parse_transport bytes parsed start ≡ ok (true, o, parsed')
      → IsAbove bytes parsed parsed' start o × IsProtocol parsed'
  unfolding parse_transport
  parse_transport-IsTransport t u f h = by_tcp (parsed.protocol == 6) refl h
    where
      by_udp :
          (b : Bool)
          → (parsed.protocol == 17) ≡ b
          → (if b then parse_udp bytes parsed start else ok (true, start, parsed))
            ≡ ok (true, o, parsed')
          → IsAbove bytes parsed parsed' start o × IsProtocol parsed'
      by_udp true n e =
          let (a, x) = parse_udp-IsTransport bytes parsed parsed' start o t e in
          let y = a.4 in (a, ground (arith, x, y, n))
      by_udp false n e =
          let same : parsed ≡ parsed' = ground (arith, e) in
          let x : false ≡ true =
            sym (ap₂ ◌||◌ t u) ∙ ap (λ (q : ParsedPacket). q.has_tcp || q.has_udp) same ∙ f in
          cc

      by_tcp :
          (b : Bool)
          → (parsed.protocol == 6) ≡ b
          → (if b
              then parse_tcp bytes parsed start
              else if parsed.protocol == 17
              then parse_udp bytes parsed start
              else ok (true, start, parsed))
            ≡ ok (true, o, parsed')
          → IsAbove bytes parsed parsed' start o × IsProtocol parsed'
      by_tcp true n e =
          let (a, x) = parse_tcp-IsTransport bytes parsed parsed' start o e in
          let y = a.4 in (a, ground (arith, x, y, n))
      by_tcp false n e = by_udp (parsed.protocol == 17) refl e

-- A frame of a flow, whose headers end at `o`.
pub record IsFlowFrame (order : ByteOrder) (bytes : List ℕ) (parsed : ParsedPacket) (o : ℕ)
    : Type 0 where
  pub version_ihl : ℕ
  pub source : ℕ
  pub target : ℕ
  pub first : index bytes 14 ≡ ok version_ihl
  pub source_at : unpack32 order bytes 26 ≡ ok source
  pub target_at : unpack32 order bytes 30 ≡ ok target
  pub src_ip : parsed.src_ip ≡ format_ip source
  pub dest_ip : parsed.dest_ip ≡ format_ip target
  pub transport : IsTransport bytes parsed.has_tcp parsed.has_udp (14 + version_ihl % 16 * 4) o
  pub within : o ≤ length bytes
  pub protocol : IsProtocol parsed

module _ (order : ByteOrder) (bytes : List ℕ) (parsed parsed' : ParsedPacket) (o : ℕ)
    (t : parsed.has_tcp ≡ false) (u : parsed.has_udp ≡ false)
    (f : parsed'.has_tcp || parsed'.has_udp ≡ true) where
  parse_ip_layers-IsFlowFrame :
      parse_ip_layers order bytes parsed 14 ≡ ok (true, o, parsed')
      → IsFlowFrame order bytes parsed' o
  unfolding parse_ip_layers
  parse_ip_layers-IsFlowFrame h =
      let ((s, o₁, p₁), e₁, h₁) =
        ok-bind (parse_ipv4 order bytes parsed 14)
          (λ (success, offset', parsed').
            if not success
            then ok (false, offset', parsed')
            else parse_transport bytes parsed' offset')
          (true, o, parsed') h in
      by_success s o₁ p₁ e₁ h₁
    where
      by_success :
          (s : Bool) (o₁ : ℕ) (p₁ : ParsedPacket)
          → parse_ipv4 order bytes parsed 14 ≡ ok (s, o₁, p₁)
          → (if not s then ok (false, o₁, p₁) else parse_transport bytes p₁ o₁)
            ≡ ok (true, o, parsed')
          → IsFlowFrame order bytes parsed' o
      by_success false o₁ p₁ e₁ h₁ = grind (arith, h₁)
      by_success true o₁ p₁ e₁ h₁ =
          let i = parse_ipv4-IsIpv4 bytes parsed p₁ o₁ order 14 e₁ in
          let ((tr, w, a, b, _), n) =
            parse_transport-IsTransport bytes p₁ parsed' o₁ o (i.no_tcp ∙ t) (i.no_udp ∙ u) f h₁ in
          record {
            version_ihl = i.version_ihl;
            source = i.source;
            target = i.target;
            first = i.first;
            source_at = i.source_at;
            target_at = i.target_at;
            src_ip = a ∙ i.src_ip;
            dest_ip = b ∙ i.dest_ip;
            transport =
                subst (λ n. IsTransport bytes parsed'.has_tcp parsed'.has_udp n o) i.offset tr;
            within = w;
            protocol = n;
          }

module _ (order : ByteOrder) (bytes : List ℕ) (parsed parsed' : ParsedPacket) (o : ℕ)
    (f : parsed'.has_tcp || parsed'.has_udp ≡ true) where
  pub parse_layers-IsFlowFrame :
      parsed.has_tcp ≡ false
      → parsed.has_udp ≡ false
      → parse_layers order bytes parsed ≡ ok (true, o, parsed')
      → IsFlowFrame order bytes parsed' o
  unfolding parse_layers
  parse_layers-IsFlowFrame t u h =
      let ((s, o₁, p₁), e₁, h₁) =
        ok-bind (parse_ethernet bytes parsed 0)
          (λ (success, offset, parsed').
            if not success
            then ok (false, offset, parsed')
            else if parsed'.ether_type == 0x0800
            then parse_ip_layers order bytes parsed' offset
            else ok (true, offset, parsed'))
          (true, o, parsed') h in
      by_success s o₁ p₁ e₁ h₁
    where
      by_type :
          (o₁ : ℕ) (p₁ : ParsedPacket) (b : Bool)
          → o₁ ≡ 14
          → p₁.has_tcp ≡ false
          → p₁.has_udp ≡ false
          → (if b then parse_ip_layers order bytes p₁ o₁ else ok (true, o₁, p₁))
            ≡ ok (true, o, parsed')
          → IsFlowFrame order bytes parsed' o
      by_type o₁ p₁ true e t u h =
          parse_ip_layers-IsFlowFrame order bytes p₁ parsed' o t u f
            (ap (parse_ip_layers order bytes p₁) (sym e) ∙ h)
      by_type o₁ p₁ false e t u h = grind (arith, t, u, f, h)

      by_success :
          (s : Bool) (o₁ : ℕ) (p₁ : ParsedPacket)
          → parse_ethernet bytes parsed 0 ≡ ok (s, o₁, p₁)
          → (if not s
              then ok (false, o₁, p₁)
              else if p₁.ether_type == 0x0800
              then parse_ip_layers order bytes p₁ o₁
              else ok (true, o₁, p₁))
            ≡ ok (true, o, parsed')
          → IsFlowFrame order bytes parsed' o
      by_success false o₁ p₁ e₁ h₁ = grind (arith, h₁)
      by_success true o₁ p₁ e₁ h₁ =
          let i = parse_ethernet-IsEthernet bytes parsed p₁ o₁ e₁ in
          by_type o₁ p₁ (p₁.ether_type == 0x0800) i.offset (i.no_tcp ∙ t) (i.no_udp ∙ u) h₁
