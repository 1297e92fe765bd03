-- ===== src/Dns/Query.antt =====
-- `create_dns_query` of generate_test_pcap.py, and that `extract_query` reads its name back. The
-- transaction id is an argument; a domain is the bytes of an ASCII name.
use python_deep_packet_inspe.Prelude.{
  ℕ, zero, suc, ◌+◌, ◌/◌, ◌%◌, ◌^◌, ◌≤◌, ◌<◌, ◌≡◌, refl, sym, ap, ◌∙◌, true, some, List, [], ◌∷◌,
  ◌++◌, append_assoc, arith, length, ltb, if◌then◌else◌, Py, ok, raise, lt→ltb, struct_error,
  get_elem?-drop, drop-drop, length-drop, drop-append, take-append, length-append, ◌>>=◌, index,
  take, drop, get_elem?, All, of_option,
}
use python_deep_packet_inspe.Text.{dot, split}
use python_deep_packet_inspe.Sni.{read_uint16_be, Name}
use python_deep_packet_inspe.Sni.ClientHello.{pack_uint16}
use python_deep_packet_inspe.Text.Laws.{join-split}
use python_deep_packet_inspe.Dns.{
  walk_labels, is_dns_query, non_empty, extract_query, read_uint16_be,
}

-- The loop over the labels.
unfoldable pub encode_labels : List Name → Py (List ℕ)
encode_labels [] = ok []
encode_labels (label ∷ labels) = do
  rest ← encode_labels labels
  if ltb (length label) (2 ^ 8) then ok (length label ∷ (label ++ rest)) else raise struct_error

unfoldable pub create_dns_query : ℕ → Name → Py (List ℕ)
unfolding encode_labels pack_uint16 split
create_dns_query txid domain = do
  id ← pack_uint16 txid
  question ← encode_labels (split dot domain)
  ok (id ++ (1 ∷ 0 ∷ 0 ∷ 1 ∷ 0 ∷ 0 ∷ 0 ∷ 0 ∷ 0 ∷ 0 ∷ (question ++ 0 ∷ 0 ∷ 1 ∷ 0 ∷ 1 ∷ [])))

-- What the labels are encoded to when they fit.
labels_bytes : List Name → List ℕ
labels_bytes [] = []
labels_bytes (label ∷ labels) = length label ∷ (label ++ labels_bytes labels)

-- A label has between 1 and 63 bytes.
abbrev pub FitLabels : List Name → Type 0
FitLabels labels = All (λ label. (0 < length label) × (length label ≤ 63)) labels

encode_labels_fits :
    (labels : List Name) → FitLabels labels → encode_labels labels ≡ ok (labels_bytes labels)
unfolding encode_labels labels_bytes
encode_labels_fits [] h = refl
encode_labels_fits (label ∷ labels) h =
    let (fits, rest) = h in rw (encode_labels_fits labels rest) (ground (arith, fits))

module _ (payload : List ℕ) where
  head_at : (o b : ℕ) (rest : List ℕ) → drop o payload ≡ b ∷ rest → index payload o ≡ ok b
  head_at o b rest h = ap of_option (
      sym (get_elem?-drop o 0 payload ∙ ap (get_elem? payload) (omega arith))
      ∙ ap (λ l. get_elem? l 0) h)

  tail_at : (o b : ℕ) (rest : List ℕ) → drop o payload ≡ b ∷ rest → drop (o + 1) payload ≡ rest
  tail_at o b rest h = sym (drop-drop o 1 payload) ∙ ap (drop 1) h

  room :
      (o b : ℕ) (rest : List ℕ) → drop o payload ≡ b ∷ rest → o + suc (length rest) ≡ length payload
  room o b rest h = grind (arith, length-drop o payload, ap length h)

  walk_stop :
      (fuel n o : ℕ) → o < n → index payload o ≡ ok 0 → walk_labels (suc fuel) payload n o ≡ ok []
  unfolding walk_labels
  walk_stop fuel n o h e = grind (arith, e, h)

  walk_step :
      (fuel n o l : ℕ) (labels : List Name)
      → index payload o ≡ ok l
      → 0 < l
      → l ≤ 63
      → o + 1 + l ≤ n
      → walk_labels fuel payload n (o + 1 + l) ≡ ok labels
      → walk_labels (suc fuel) payload n o ≡ ok (take l (drop (o + 1) payload) ∷ labels)
  unfolding walk_labels
  walk_step fuel n o l labels e p q r h = grind (arith, e, p, q, r, h)

  walk_lem :
      (labels : List Name) (fuel o : ℕ) (tail : List ℕ)
      → FitLabels labels
      → length labels < fuel
      → drop o payload ≡ labels_bytes labels ++ (0 ∷ tail)
      → walk_labels fuel payload (length payload) o ≡ ok labels
  unfolding labels_bytes
  walk_lem labels zero o tail f h e = elim h [ ]
  walk_lem [] (suc fuel) o tail f h e =
      walk_stop fuel (length payload) o (omega (arith, room o 0 tail e)) (head_at o 0 tail e)
  walk_lem (label ∷ labels) (suc fuel) o tail f h e =
      let more = labels_bytes labels ++ (0 ∷ tail) in
      let split_bytes : drop o payload ≡ length label ∷ (label ++ more) =
        e ∙ ap (λ l. length label ∷ l) (append_assoc label (labels_bytes labels) (0 ∷ tail)) in
      let body = tail_at o (length label) (label ++ more) split_bytes in
      let next : drop (o + 1 + length label) payload ≡ more =
        sym (drop-drop (o + 1) (length label) payload)
        ∙ ap (drop (length label)) body
        ∙ drop-append label more in
      let size = room o (length label) (label ++ more) split_bytes in
      walk_step fuel (length payload) o (length label) labels
        (head_at o (length label) (label ++ more) split_bytes) f.0.0 f.0.1
        (grind (arith, size, length-append label more))
        (walk_lem labels fuel (o + 1 + length label) tail f.1 (omega (arith, h)) next)
      ∙ ap (λ l. ok (l ∷ labels)) (ap (take (length label)) body ∙ take-append label more)

count_le : (labels : List Name) → length labels ≤ length (labels_bytes labels)
unfolding labels_bytes
count_le [] = omega arith
count_le (label ∷ labels) =
    grind (arith, count_le labels, length-append label (labels_bytes labels))

abbrev question_end : List ℕ
question_end = 0 ∷ 0 ∷ 1 ∷ 0 ∷ 1 ∷ []

abbrev query_bytes : ℕ → List Name → List ℕ
query_bytes txid labels =
    txid / 2 ^ 8
    ∷ txid % 2 ^ 8
    ∷ 1
    ∷ 0
    ∷ 0
    ∷ 1
    ∷ 0
    ∷ 0
    ∷ 0
    ∷ 0
    ∷ 0
    ∷ 0
    ∷ (labels_bytes labels ++ question_end)

query_bytes-is_query :
    (txid : ℕ) (labels : List Name)
    → is_dns_query (query_bytes txid labels) (length (query_bytes txid labels)) ≡ ok true
unfolding is_dns_query read_uint16_be
query_bytes-is_query txid labels = ground arith

query_bytes-labels :
    (txid : ℕ) (labels : List Name)
    → FitLabels labels
    → walk_labels
        (suc (length (query_bytes txid labels)))
        (query_bytes txid labels)
        (length (query_bytes txid labels))
        12
      ≡ ok labels
query_bytes-labels txid labels h =
    walk_lem (query_bytes txid labels) labels (suc (length (query_bytes txid labels))) 12
      (0 ∷ 1 ∷ 0 ∷ 1 ∷ []) h
      (omega (arith, count_le labels, length-append (labels_bytes labels) question_end)) refl

create_lem :
    (txid : ℕ) (domain : Name)
    → txid < 2 ^ 16
    → FitLabels (split dot domain)
    → create_dns_query txid domain ≡ ok (query_bytes txid (split dot domain))
unfolding create_dns_query pack_uint16
create_lem txid domain h f =
    rw (lt→ltb txid (2 ^ 16) h, encode_labels_fits (split dot domain) f) refl

non_empty_lem : (domain : Name) → FitLabels (split dot domain) → non_empty domain ≡ some domain
unfolding non_empty split
non_empty_lem [] f = ground (arith, f.0.0)
non_empty_lem (c ∷ domain) f = refl

-- The generator writes a query for every transaction id of 16 bits and every domain whose labels
-- have between 1 and 63 bytes, and `extract_query` finds that domain in it.
pub extract_query-create :
    (txid : ℕ) (domain : Name)
    → txid < 2 ^ 16
    → FitLabels (split dot domain)
    → (query : List ℕ) × (create_dns_query txid domain ≡ ok query)
      × (extract_query query (length query) ≡ ok (some domain))
unfolding extract_query
extract_query-create txid domain h f = (
  query_bytes txid (split dot domain),
  create_lem txid domain h f,
  rw (query_bytes-is_query txid (split dot domain)) (
      rw
        (
          query_bytes-labels txid (split dot domain) f,
          join-split dot domain,
          non_empty_lem domain f,
        )
        refl),
)
