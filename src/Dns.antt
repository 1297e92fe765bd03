-- ===== src/Dns.antt =====
-- `DNSExtractor` of dpi/sni_extractor.py, on the bytes of a payload. `flags & 0x80` is `bit_and`;
-- the loop is on fuel: each round moves `offset` on by two at least.
pub mod Safety
pub mod Query
use python_deep_packet_inspe.Prelude.{
  ℕ, zero, suc, ◌+◌, bit_and, Bool, true, false, not, ◌||◌, Option, none, some, List, [], ◌∷◌,
  length, ltb, ◌==◌, if◌then◌else◌, Py, ok, raise, out_of_fuel, ◌>>=◌, index, take, drop,
}
use python_deep_packet_inspe.Text.{dot, join}
use python_deep_packet_inspe.Sni.{Name, read_uint16_be}

unfoldable pub is_dns_query : List ℕ → ℕ → Py Bool
unfolding read_uint16_be
is_dns_query payload length = if ltb length 12 then ok false else do
  flags ← index payload 2
  if not (bit_and flags 0x80 == 0)
      then ok false
      else do qdcount ← read_uint16_be payload 4; if qdcount == 0 then ok false else ok true

-- The labels from `offset` on.
unfoldable pub walk_labels : ℕ → List ℕ → ℕ → ℕ → Py (List Name)
walk_labels zero payload length offset = raise out_of_fuel
walk_labels (suc fuel) payload length offset = elim (ltb offset length) [
  | false ↦ ok []
  | true ↦ do
    label_length ← index payload offset
    elim (label_length == 0 || ltb 63 label_length || ltb length (offset + 1 + label_length)) [
      | true ↦ ok []
      | false ↦ do
        labels ← walk_labels fuel payload length (offset + 1 + label_length)
        ok (take label_length (drop (offset + 1) payload) ∷ labels)
    ]
]

-- `domain if domain else None`.
unfoldable pub non_empty : Name → Option Name
non_empty [] = none
non_empty (c ∷ name) = some (c ∷ name)

unfoldable pub extract_query : List ℕ → ℕ → Py (Option Name)
unfolding is_dns_query walk_labels join non_empty
extract_query payload length = do
  query ← is_dns_query payload length
  if not query
      then ok none
      else do labels ← walk_labels (suc length) payload length 12; ok (non_empty (join dot labels))
