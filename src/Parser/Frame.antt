-- ===== src/Parser/Frame.antt =====
-- What `PacketParser.parse` of dpi/packet_parser.py says of a packet that carries TCP or UDP.
use python_deep_packet_inspe.Prelude.{
  Option, refl, value_of, Bool, ap, sym, drop, ltb, some, none, ◌-◌, if◌then◌else◌, ℕ, ◌≡◌, ◌||◌,
  arith, ◌∙◌, subst,
}
use python_deep_packet_inspe.Pack.{ByteOrder}
use python_deep_packet_inspe.Parser.{
  RawPacket, ParsedPacket, parse_layers, set_payload, parse_into, parse, reset, List, false, ok,
  true, length, Bool,
}
use python_deep_packet_inspe.Parser.Safety.{parse_layers-is_ok}
use python_deep_packet_inspe.Parser.Layers.{IsFlowFrame, parse_layers-IsFlowFrame}

-- A packet that the parser returns: its headers, and the payload after them.
pub record IsParsed (order : ByteOrder) (bytes : List ℕ) (parsed : ParsedPacket) : Type 0 where
  pub end : ℕ
  pub frame : IsFlowFrame order bytes parsed end
  pub payload_length : parsed.payload_length ≡ length bytes - end
  pub payload_data :
      parsed.payload_data ≡ (if ltb end (length bytes) then some (drop end bytes) else none)

-- The payload changes nothing of the headers.
frame_of :
    (order : ByteOrder) (bytes : List ℕ) (parsed : ParsedPacket) (n : ℕ) (payload : Option (List ℕ))
    (o : ℕ)
    → IsFlowFrame order bytes parsed o
    → IsFlowFrame order bytes (record parsed { payload_length = n; payload_data = payload }) o
frame_of order bytes parsed n payload o i = record {
  version_ihl = i.version_ihl;
  source = i.source;
  target = i.target;
  first = i.first;
  source_at = i.source_at;
  target_at = i.target_at;
  src_ip = i.src_ip;
  dest_ip = i.dest_ip;
  transport = i.transport;
  within = i.within;
  protocol = i.protocol;
}

set_payload-IsParsed :
    (order : ByteOrder) (bytes : List ℕ) (parsed : ParsedPacket) (o : ℕ)
    → IsFlowFrame order bytes parsed o
    → IsParsed order bytes (set_payload bytes parsed o)
unfolding set_payload
set_payload-IsParsed order bytes parsed o i = by_end (ltb o (length bytes)) refl
  where
    by_end :
        (b : Bool)
        → ltb o (length bytes) ≡ b
        → IsParsed order bytes (
            if b
            then record parsed {
              payload_length = length bytes - o;
              payload_data = some (drop o bytes);
            }
            else record parsed { payload_length = 0; payload_data = none })
    by_end true e = record {
      end = o;
      frame = frame_of order bytes parsed (length bytes - o) (some (drop o bytes)) o i;
      payload_length = refl;
      payload_data = rw e;
    }
    by_end false e = record {
      end = o;
      frame = frame_of order bytes parsed 0 none o i;
      payload_length = ground (arith, e);
      payload_data = rw e;
    }

set_payload-flags :
    (bytes : List ℕ) (parsed : ParsedPacket) (o : ℕ)
    → ((set_payload bytes parsed o).has_tcp || (set_payload bytes parsed o).has_udp)
      ≡ (parsed.has_tcp || parsed.has_udp)
unfolding set_payload
set_payload-flags bytes parsed o = ground arith

-- A packet with TCP or UDP that the parser returns has the headers and the payload of its bytes.
pub parse-IsParsed :
    (order : ByteOrder) (raw : RawPacket) (parsed : ParsedPacket)
    → parse order raw ≡ ok (some parsed)
    → parsed.has_tcp || parsed.has_udp ≡ true
    → IsParsed order raw.content parsed
unfolding parse parse_into reset
parse-IsParsed order raw parsed h f =
    let begun : ParsedPacket = record reset {
      timestamp_sec = raw.header.ts_sec;
      timestamp_usec = raw.header.ts_usec;
    } in
    let (r, e) =
      value_of (parse_layers order raw.content begun)
        (parse_layers-is_ok raw.content order begun) in
    by_success r.0 r.1 r.2 e
  where
    by_success :
        (s : Bool) (o : ℕ) (p : ParsedPacket)
        → parse_layers order raw.content (record reset {
          timestamp_sec = raw.header.ts_sec;
          timestamp_usec = raw.header.ts_usec;
        })
          ≡ ok (s, o, p)
        → IsParsed order raw.content parsed
    by_success false o p e = grind (arith, h, e)
    by_success true o p e =
        let same : parsed ≡ set_payload raw.content p o = grind (arith, h, e) in
        subst (IsParsed order raw.content) (sym same) (
          set_payload-IsParsed order raw.content p o (
            parse_layers-IsFlowFrame order raw.content
              (record reset {
                timestamp_sec = raw.header.ts_sec;
                timestamp_usec = raw.header.ts_usec;
              })
              p o
              (sym (set_payload-flags raw.content p o)
                ∙ ap (λ (q : ParsedPacket). q.has_tcp || q.has_udp) (sym same)
                ∙ f)
              refl refl e))
