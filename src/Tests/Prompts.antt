-- ===== src/Tests/Prompts.antt =====
-- What the AI layer sends, at concrete inputs: a reference block under a tight budget, names and
-- addresses that are sanitized, and a section that is split.
use python_deep_packet_inspe.Prelude.{
  ℕ, ◌≤◌, ◌≡◌, ◌↔◌, refl, Bool, true, false, none, some, List, [], ◌∷◌, ◌++◌, map, arith, length,
  replicate, All, ltb, ◌==◌, if◌then◌else◌, ok, leb, ap, ◌&&◌, ◌||◌,
}
use python_deep_packet_inspe.Prelude.Strings.{codes}
use python_deep_packet_inspe.Rules.{ip_to_string}
use python_deep_packet_inspe.Rules
use python_deep_packet_inspe.Redaction
use python_deep_packet_inspe.Knowledge.{
  KnowledgeContextConfig, KnowledgeChunk, RetrievedChunk, KnowledgeContext, build_knowledge_context,
  neutralise_fences, distinct_ids,
}
use python_deep_packet_inspe.Knowledge.Fences.{NoFence, neutralise_fences-same_iff}
use python_deep_packet_inspe.Knowledge.Context.{
  IsContext, chunk_ids, build_knowledge_context-IsContext,
}
use python_deep_packet_inspe.Redaction.{
  Unicode, AddressKinds, redact_ip, redact_private, new_pseudonymiser, sanitize_hostname,
  host_label, is_internal, wire_order_to_ipv4, redacted_hostname,
}
use python_deep_packet_inspe.Redaction.Hostname.{
  IsSanitized, IsSafeName, sanitize_hostname-same_iff,
}
use python_deep_packet_inspe.Redaction.Ascii.{IsPython, is_plain, all_plain, count_ascii}
use python_deep_packet_inspe.Text.{lower_char}
use python_deep_packet_inspe.Redaction.Labels.{after, redact_ip-injective}
use python_deep_packet_inspe.Chunking.{Patterns, ChunkConfig, Piece, check_config, split_section}
use python_deep_packet_inspe.Chunking.Pieces.{FitsChunk, Parts}
use python_deep_packet_inspe.Chunking.Split.{split_section-Parts}

abbrev chunk_a : KnowledgeChunk
chunk_a = record {
  chunk_id = codes "dns#overview#00";
  document_id = codes "dns";
  section = codes "Overview";
  category = codes "protocol";
  text = codes "====== DNS ======";
  chunk_index = 0;
  chunk_count = 2;
}

-- The similarity is a number of ten thousandths below one.
abbrev format4 : ℕ → List ℕ
format4 n = codes "0." ++ Rules.decimal n

abbrev chunks : List (RetrievedChunk ℕ)
chunks =
    record { chunk = chunk_a; similarity = 8125; rank = 0; matched_signals = [] }
    ∷ record {
      chunk = record chunk_a { chunk_id = codes "dns#overview#01"; chunk_index = 1 };
      similarity = 7500;
      rank = 1;
      matched_signals = codes "dns_tunnel" ∷ [];
    }
    ∷ []

-- A budget that the second chunk would break.
abbrev tight : KnowledgeContextConfig
tight = record { max_items = 4; max_chars = 300; max_total_tokens = some 90 }

distinct_chunks : distinct_ids (chunk_ids chunks) ≡ true
unfolding distinct_ids
distinct_chunks = refl

build_knowledge_context-IsContext_example :
    (context : KnowledgeContext ℕ) × (build_knowledge_context format4 tight chunks ≡ ok context)
    × IsContext format4 tight chunks context
build_knowledge_context-IsContext_example =
    build_knowledge_context-IsContext format4 tight chunks distinct_chunks

build_knowledge_context_test :
    (context : KnowledgeContext ℕ) × (build_knowledge_context format4 tight chunks ≡ ok context)
    × (length context.items ≡ 1)
    × (context.dropped_items ≡ 1)
    × (context.total_chars ≡ 235)
unfolding build_knowledge_context
build_knowledge_context_test = (_, refl, refl, refl, refl)

neutralise_test : neutralise_fences (codes "====== a ====") ≡ codes "= = = = = = a ===="
unfolding neutralise_fences
neutralise_test = refl

neutralise_fences-same_iff_example :
    NoFence (neutralise_fences (codes "======"))
    × ((neutralise_fences (codes "======") ≡ codes "======") ↔ NoFence (codes "======"))
neutralise_fences-same_iff_example = neutralise_fences-same_iff (codes "======")

-- The lower case of ASCII and Latin-1, of the sign of Kelvin, which is a `k`, and of the capital I with
-- a dot, which is two characters.
abbrev lower_one : ℕ → List ℕ
lower_one c =
    if c == 0x212A then b'k' ∷ [] else if c == 0x130 then b'i' ∷ 0x307 ∷ [] else lower_char c ∷ []

abbrev lower_all : List ℕ → List ℕ
lower_all [] = []
lower_all (c ∷ s) = lower_one c ++ lower_all s

abbrev space_of : ℕ → Bool
space_of c =
    leb 9 c && leb c 13
    || leb 28 c && leb c 32
    || c == 133
    || c == 160
    || c == 0x2003
    || c == 0x3000

abbrev unicode : Unicode
unicode = record { lower_case = lower_all; is_space = space_of }

plain_lower_one : (c : ℕ) → is_plain c ≡ true → lower_one c ≡ c ∷ []
plain_lower_one c h = ground (arith, h)

plain_lower : (s : List ℕ) → all_plain s ≡ true → lower_all s ≡ s
plain_lower [] h = refl
plain_lower (c ∷ s) h =
    let p : is_plain c ≡ true = ground (arith, h) in
    let q : all_plain s ≡ true = ground (arith, h) in
    rw (plain_lower_one c p) (ap (◌∷◌ c) (plain_lower s q))

narrow : (s : List ℕ) → count_ascii (lower_all s) ≤ length s
unfolding count_ascii
narrow [] = omega arith
narrow (c ∷ s) = ground (arith, narrow s)

unicode-IsPython : IsPython unicode
unicode-IsPython = record {
  plain_lower = plain_lower;
  narrow = narrow;
  plain_space = λ c h. ground (arith, h);
}

sanitize_test :
    (sanitize_hostname unicode (some (codes "  WWW.Example.com\". "))
      ≡ some (codes "www.example.com"))
    × (sanitize_hostname unicode (some (codes "{}")) ≡ some redacted_hostname)
    × (sanitize_hostname unicode (some (codes "  ")) ≡ none)
    × (sanitize_hostname unicode (some (0x212A ∷ 0x130 ∷ [])) ≡ some (codes "ki"))
    × (sanitize_hostname unicode (some (0x2003 ∷ [])) ≡ none)
unfolding sanitize_hostname
sanitize_test = (refl, refl, refl, refl, refl)

sanitize_hostname-same_iff_example :
    IsSanitized (sanitize_hostname unicode (some (codes "A b")))
    × ((sanitize_hostname unicode (some (codes "A b")) ≡ some (codes "A b"))
        ↔ IsSafeName (codes "A b"))
sanitize_hostname-same_iff_example =
    sanitize_hostname-same_iff unicode unicode-IsPython (codes "A b")

labels_test :
    (host_label 0 ≡ codes "host_a")
    × (host_label 25 ≡ codes "host_z")
    × (host_label 26 ≡ codes "host_aa")
    × (host_label 702 ≡ codes "host_aaa")
unfolding host_label
labels_test = (refl, refl, refl, refl)

-- Addresses of 10.0.0.0/8 are private.
abbrev first_octet_10 : List ℕ → Bool
first_octet_10 [] = false
first_octet_10 (o ∷ octets) = o == 10

abbrev kinds : AddressKinds
kinds = record {
  is_private = first_octet_10;
  is_loopback = λ a. false;
  is_link_local = λ a. false;
  is_multicast = λ a. false;
  is_unspecified = λ a. false;
}

redact_ip-injective_example :
    ((redact_ip kinds 0x0200_000A redact_private (
        after
          (ip_to_string 3 ∷ [])
          (redact_ip kinds 0x0100_000A redact_private (after [] new_pseudonymiser)).0)).1
      ≡ (redact_ip kinds 0x0100_000A redact_private (after [] new_pseudonymiser)).1)
    ↔ (◌≡◌ {A = ℕ} 0x0200_000A 0x0100_000A)
redact_ip-injective_example =
    redact_ip-injective kinds [] (ip_to_string 3 ∷ []) 0x0100_000A 0x0200_000A (omega arith)
      (omega arith) (unfold is_internal in refl) (unfold is_internal in refl)

-- Patterns of which none matches but a space at the tenth place.
abbrev patterns : Patterns
patterns = record {
  paragraph_ends = λ t. [];
  list_item_starts = λ t. [];
  sentence_ends = λ t. [];
  space_ends = λ t. if ltb 10 (length t) then 10 ∷ [] else [];
  is_space = space_of;
}

abbrev small : ChunkConfig
small = record { max_chars = 200; overlap_chars = 20; min_fill_chars = 120 }

spans : (text : List ℕ) → All (λ e. e ≤ length text) (patterns.space_ends text)
spans text = by_length (ltb 10 (length text)) refl
  where
    by_length :
        (b : Bool)
        → ltb 10 (length text) ≡ b
        → All (λ e. e ≤ length text) (if b then 10 ∷ [] else [])
    by_length true e = (ground (arith, e), tt)
    by_length false e = tt

small_accepted : check_config small ≡ ok small
unfolding check_config
small_accepted = refl

split_section-Parts_example :
    (pieces : List Piece) × (split_section patterns small (replicate 250 b'a') ≡ ok pieces)
    × All (FitsChunk small) pieces
    × Parts space_of (Redaction.strip space_of (replicate 250 b'a')) pieces
split_section-Parts_example =
    split_section-Parts patterns small spans small_accepted (replicate 250 b'a')

-- Each cut but the last is after the tenth character of its window; half of a chunk is repeated before
-- the next, with the separator.
split_section_test :
    (pieces : List Piece) × (split_section patterns small (replicate 205 b'a') ≡ ok pieces)
    × (map (λ (p : Piece). length p.0) pieces ≡ 10 ∷ 17 ∷ 195 ∷ [])
unfolding split_section
split_section_test = (_, refl, refl)
