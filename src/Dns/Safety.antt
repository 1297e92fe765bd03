-- ===== src/Dns/Safety.antt =====
-- `DNSExtractor.extract_query` of dpi/sni_extractor.py on any bytes.
use python_deep_packet_inspe.Prelude.{
  ℕ, zero, suc, ◌+◌, ◌≤◌, ◌<◌, ◌≡◌, true, Option, List, arith, length, ok, is_ok, index-is_ok,
  value_of,
}
use python_deep_packet_inspe.Sni.{Name}
use python_deep_packet_inspe.Sni.Safety.{read_uint16_be-is_ok}
use python_deep_packet_inspe.Dns.{is_dns_query, walk_labels, extract_query}

module _ (payload : List ℕ) where
  is_dns_query-is_ok : (n : ℕ) → n ≤ length payload → is_ok (is_dns_query payload n) ≡ true
  unfolding is_dns_query
  is_dns_query-is_ok n h = grind (arith, index-is_ok, read_uint16_be-is_ok)

  walk_labels-is_ok :
      (fuel n o : ℕ)
      → n < o + fuel
      → n ≤ length payload
      → is_ok (walk_labels (suc fuel) payload n o) ≡ true
  unfolding walk_labels
  walk_labels-is_ok zero n o h l = grind (arith, index-is_ok)
  walk_labels-is_ok (suc fuel) n o h l = grind (arith, index-is_ok, walk_labels-is_ok fuel)

  pub extract_query-is_ok : (n : ℕ) → n ≤ length payload → is_ok (extract_query payload n) ≡ true
  unfolding extract_query
  extract_query-is_ok n h = grind (arith, is_dns_query-is_ok, walk_labels-is_ok)

  -- The query walk returns on any bytes.
  pub extract_query-returns :
      (n : ℕ) → n ≤ length payload → (name : Option Name) × (extract_query payload n ≡ ok name)
  extract_query-returns n h = value_of (extract_query payload n) (extract_query-is_ok n h)
