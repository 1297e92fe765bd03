-- ===== src/FastPath/Safety.antt =====
-- That `_process_packet` of dpi/fast_path.py never raises.
use python_deep_packet_inspe.Prelude.{
  ℕ, ◌+◌, ◌≤◌, ◌≡◌, refl, ap, Bool, true, arith, length, ok, is_ok, is_ok-bind, value_of, drop,
  length-drop,
}
use python_deep_packet_inspe.Job.{PacketJob}
use python_deep_packet_inspe.Sni
use python_deep_packet_inspe.Sni.{Name}
use python_deep_packet_inspe.Sni.Safety as SniSafety
use python_deep_packet_inspe.Http.Safety as HttpSafety
use python_deep_packet_inspe.Dns.Safety.{extract_query-is_ok}
use python_deep_packet_inspe.Tracker.{Connection, get_or_create_connection}
use python_deep_packet_inspe.FastPath.{
  FastPath, try_extract_sni, try_extract_http_host, dns_name, inspect_payload, judge, track_packet,
  process_packet,
}
use python_deep_packet_inspe.Tracker.{PacketAction}

-- The payload of a job that the parser made lies within its bytes.
abbrev pub FitsPayload : PacketJob → Type 0
FitsPayload job = job.payload_offset + job.payload_length ≤ length job.content

module _ (job : PacketJob) (fits : FitsPayload job) where
  fits_drop : job.payload_length ≤ length (drop job.payload_offset job.content)
  fits_drop = grind (arith, length-drop job.payload_offset job.content, fits)

  sni-is_ok : is_ok (Sni.extract (drop job.payload_offset job.content) job.payload_length) ≡ true
  sni-is_ok =
      let (name, e) =
        SniSafety.extract-returns (drop job.payload_offset job.content) job.payload_length
          fits_drop in
      ap is_ok e

  try_extract_sni-is_ok :
      (fp : FastPath) (conn : Connection) → is_ok (try_extract_sni job fp conn) ≡ true
  unfolding try_extract_sni
  try_extract_sni-is_ok fp conn = ground (arith, sni-is_ok)

  try_extract_http_host-is_ok :
      (fp : FastPath) (conn : Connection) → is_ok (try_extract_http_host job fp conn) ≡ true
  unfolding try_extract_http_host
  try_extract_http_host-is_ok fp conn = ground (
    arith,
    HttpSafety.extract-is_ok (drop job.payload_offset job.content) job.payload_length fits_drop,
  )

  dns_name-is_ok : is_ok (dns_name job) ≡ true
  unfolding dns_name
  dns_name-is_ok = ground (
    arith,
    extract_query-is_ok (drop job.payload_offset job.content) job.payload_length fits_drop,
  )

  inspect_payload-is_ok :
      (fp : FastPath) (conn : Connection) → is_ok (inspect_payload job fp conn) ≡ true
  unfolding inspect_payload
  inspect_payload-is_ok fp conn =
      grind (arith, try_extract_sni-is_ok, try_extract_http_host-is_ok, dns_name-is_ok)

module _ (fnmatchcase : Name → Name → Bool) (job : PacketJob) (fits : FitsPayload job) where
  judge-is_ok : (fp : FastPath) (conn : Connection) → is_ok (judge fnmatchcase job fp conn) ≡ true
  unfolding judge
  judge-is_ok fp conn = ground (arith, inspect_payload-is_ok job fits fp conn)

  process_packet-is_ok :
      (now later : ℕ) (fp : FastPath) → is_ok (process_packet fnmatchcase now later job fp) ≡ true
  unfolding process_packet
  process_packet-is_ok now later fp =
      let r = get_or_create_connection now job.tuple fp.conn_tracker in
      let fp' : FastPath = record fp { conn_tracker = r.0 } in
      is_ok-bind (judge fnmatchcase job fp' (track_packet later job r.1)) _
        (judge-is_ok fp' (track_packet later job r.1)) (λ a e. refl)

  -- A packet whose payload lies within its bytes gets a verdict in every state of the processor,
  -- whatever its bytes: nothing that inspects it raises or runs on.
  pub process_packet-returns :
      (now later : ℕ) (fp : FastPath)
      → (r : FastPath × PacketAction) × (process_packet fnmatchcase now later job fp ≡ ok r)
  process_packet-returns now later fp =
      value_of (process_packet fnmatchcase now later job fp) (process_packet-is_ok now later fp)
