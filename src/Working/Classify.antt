-- ===== src/Working/Classify.antt =====
-- How main_working.py finds the name and the application of a flow.
use python_deep_packet_inspe.Prelude.{
  ℕ, ◌+◌, ◌-◌, ◌*◌, ◌/◌, ◌%◌, Bool, true, false, not, ◌&&◌, ◌||◌, Option, none, some, List, [], ◌∷◌,
  length, ltb, ◌==◌, if◌then◌else◌, Py, ok, ◌>>=◌, index, drop,
}
use python_deep_packet_inspe.Flow.{FiveTuple}
use python_deep_packet_inspe.Sni
use python_deep_packet_inspe.Sni.{Name}
use python_deep_packet_inspe.Http
use python_deep_packet_inspe.Apps.{AppType, unknown, http, https, dns, same_app, sni_to_app_type}
use python_deep_packet_inspe.Parser.{ParsedPacket}

-- `tuple` is `None` until the first packet.
pub record Flow : Type 0 where
  pub tuple : Option FiveTuple
  pub app_type : AppType
  pub sni : Name
  pub packets : ℕ
  pub bytes : ℕ
  pub blocked : Bool

-- `Flow()`.
abbrev pub new_flow : Flow
new_flow = record {
  tuple = none;
  app_type = unknown;
  sni = [];
  packets = 0;
  bytes = 0;
  blocked = false;
}

-- Where the payload of a TCP packet begins, for a packet with a payload.
unfoldable pub tcp_payload : List ℕ → Py (Option ℕ)
tcp_payload bytes = do
  ip_ihl ← index bytes 14
  let start = 14 + ip_ihl % 16 * 4
  if not (ltb (start + 12) (length bytes)) then ok none else do
    tcp_offset ← index bytes (start + 12)
    let payload_offset = start + tcp_offset / 16 % 16 * 4
    ok (if ltb payload_offset (length bytes) then some payload_offset else none)

unfoldable pub is_empty : Name → Bool
is_empty [] = true
is_empty (c ∷ name) = false

-- The name that an extractor found.
unfoldable pub take_name : Option Name → Flow → Flow
unfolding sni_to_app_type
take_name none flow = flow
take_name (some name) flow = record flow { sni = name; app_type = sni_to_app_type name }

-- The name of a Client Hello in the payload at an offset, for a payload of six bytes or more.
unfoldable pub sni_at : List ℕ → Option ℕ → Py (Option Name)
unfolding Sni.extract
sni_at bytes none = ok none
sni_at bytes (some offset) =
    if ltb 5 (length bytes - offset)
    then Sni.extract (drop offset bytes) (length bytes - offset)
    else ok none

unfoldable pub host_at : List ℕ → Option ℕ → Py (Option Name)
unfolding Http.extract
host_at bytes none = ok none
host_at bytes (some offset) = Http.extract (drop offset bytes) (length bytes - offset)

-- Whether the flow still looks for a name on a TCP packet to `port`.
unfoldable pub wants_name : AppType → ℕ → ParsedPacket → Flow → Bool
unfolding same_app is_empty
wants_name app port parsed flow =
    (same_app flow.app_type unknown || same_app flow.app_type app)
    && is_empty flow.sni
    && parsed.has_tcp
    && parsed.dest_port == port

unfoldable pub try_sni : ParsedPacket → List ℕ → Flow → Py Flow
unfolding wants_name tcp_payload sni_at take_name
try_sni parsed bytes flow =
    if not (wants_name https 443 parsed flow)
    then ok flow
    else do offset ← tcp_payload bytes; name ← sni_at bytes offset; ok (take_name name flow)

unfoldable pub try_host : ParsedPacket → List ℕ → Flow → Py Flow
unfolding wants_name tcp_payload host_at take_name
try_host parsed bytes flow =
    if not (wants_name http 80 parsed flow)
    then ok flow
    else do offset ← tcp_payload bytes; name ← host_at bytes offset; ok (take_name name flow)

unfoldable pub classify_dns : ParsedPacket → Flow → Flow
unfolding same_app
classify_dns parsed flow =
    if same_app flow.app_type unknown && (parsed.dest_port == 53 || parsed.src_port == 53)
    then record flow { app_type = dns }
    else flow

unfoldable pub classify_port : ParsedPacket → Flow → Flow
unfolding same_app
classify_port parsed flow =
    if not (same_app flow.app_type unknown)
    then flow
    else if parsed.dest_port == 443
    then record flow { app_type = https }
    else if parsed.dest_port == 80
    then record flow { app_type = http }
    else flow

unfoldable pub classify : ParsedPacket → List ℕ → Flow → Py Flow
unfolding try_sni try_host classify_dns classify_port
classify parsed bytes flow = do
  with_sni ← try_sni parsed bytes flow
  with_host ← try_host parsed bytes with_sni
  ok (classify_port parsed (classify_dns parsed with_host))
