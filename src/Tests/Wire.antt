-- ===== src/Tests/Wire.antt =====
-- The theorems on the extractors of dpi/sni_extractor.py, at bytes.
use python_deep_packet_inspe.Prelude.{
  ℕ, replicate, ◌+◌, ◌≤◌, ◌<◌, ◌≡◌, refl, true, Option, some, List, [], ◌∷◌, arith, length, ok,
}
use python_deep_packet_inspe.Sni
use python_deep_packet_inspe.Sni.{Name, extract_extensions, hex_bodies}
use python_deep_packet_inspe.Sni.Safety.{extract-returns}
use python_deep_packet_inspe.Sni.Extensions.{first_sni, extract-first_sni}
use python_deep_packet_inspe.Sni.ClientHello.{create_tls_client_hello, extract-create}
use python_deep_packet_inspe.Http
use python_deep_packet_inspe.Http.{is_http_request, is_host_line, host_value}
use python_deep_packet_inspe.Http.Anchor.{StartsLine, extract-StartsLine}
use python_deep_packet_inspe.Dns.{extract_query}
use python_deep_packet_inspe.Dns.Query.{FitLabels, create_dns_query, extract_query-create}
use python_deep_packet_inspe.Text.{dot, split}
use python_deep_packet_inspe.Tests.{http_request, dns_query}

-- The start of a Client Hello, cut off.
abbrev truncated : List ℕ
truncated = 22 ∷ 3 ∷ 1 ∷ 0 ∷ 5 ∷ 1 ∷ 0 ∷ 0 ∷ 1 ∷ 3 ∷ []

extract-returns_example : (name : Option Name) × (Sni.extract truncated 10 ≡ ok name)
extract-returns_example = extract-returns truncated 10 (omega arith)

extract-first_sni_example :
    (es : List (ℕ × List ℕ)) × (extract_extensions truncated 9 ≡ ok (hex_bodies es))
    × (Sni.extract truncated 9 ≡ ok (first_sni es))
extract-first_sni_example = extract-first_sni truncated 9 (omega arith)

extract-create_example :
    (record' : List ℕ) × (create_tls_client_hello (replicate 32 7) (97 ∷ 46 ∷ 98 ∷ []) ≡ ok record')
    × (Sni.extract record' (length record') ≡ ok (some (97 ∷ 46 ∷ 98 ∷ [])))
extract-create_example = extract-create (replicate 32 7) (97 ∷ 46 ∷ 98 ∷ []) refl (omega arith)

extract-StartsLine_example :
    (is_http_request http_request 17 ≡ true)
    × (k : ℕ) × StartsLine http_request k
    × (is_host_line http_request k ≡ ok true)
    × (host_value http_request 17 (k + 5) ≡ ok (some (97 ∷ 46 ∷ 98 ∷ [])))
unfolding Http.extract is_http_request
extract-StartsLine_example = extract-StartsLine http_request 17 (97 ∷ 46 ∷ 98 ∷ []) refl

-- The name in the query.
extract_query_test : extract_query dns_query 21 ≡ ok (some (97 ∷ 46 ∷ 98 ∷ []))
unfolding extract_query
extract_query_test = refl

labels-FitLabels : FitLabels (split dot (97 ∷ 46 ∷ 98 ∷ []))
unfolding split
labels-FitLabels =
    let first : (0 < 1) × (1 ≤ 63) = (omega arith, omega arith) in
    let rest : FitLabels ((98 ∷ []) ∷ []) = (first, tt) in (first, rest)

extract_query-create_example :
    (query : List ℕ) × (create_dns_query 7 (97 ∷ 46 ∷ 98 ∷ []) ≡ ok query)
    × (extract_query query (length query) ≡ ok (some (97 ∷ 46 ∷ 98 ∷ [])))
extract_query-create_example =
    extract_query-create 7 (97 ∷ 46 ∷ 98 ∷ []) (omega arith) labels-FitLabels
