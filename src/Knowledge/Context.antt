-- ===== src/Knowledge/Context.antt =====
-- The context that `build_knowledge_context` of ai/rag/context.py returns.
use python_deep_packet_inspe.Prelude.{
  ℕ, ◌+◌, ◌≤◌, ◌≡◌, ◌⊎◌, refl, sym, ◌∙◌, subst, inl, inr, true, false, not, Option, none, some,
  List, [], ◌∷◌, map, arith, length, if◌then◌else◌, ok,
}
use python_deep_packet_inspe.Text.{same}
use python_deep_packet_inspe.Text.Laws.{same_refl, same→eq}
use python_deep_packet_inspe.Rules.Sets.{member, eq_sym}
use python_deep_packet_inspe.Knowledge.{
  Text, KnowledgeContextConfig, block_overhead, is_empty, tokens_for, estimate_tokens,
  RetrievedChunk, KnowledgeItem, ExcludedKnowledge, Selection, KnowledgeContext, labelled_from,
  item_ids, excluded_ids, distinct_ids, disjoint_ids, check_context, finish, render_block,
  select_all, build_knowledge_context, join_items,
}
use python_deep_packet_inspe.Knowledge.Budget.{
  Selected, none_left, taken, left_out, IsWithin, select_all-IsSelected, length-render_block,
}
use python_deep_packet_inspe.Knowledge.Limits.{WithinTokens}

abbrev pub chunk_ids : {Similarity : Type 0} → List (RetrievedChunk Similarity) → List Text
chunk_ids chunks = map (λ x. x.chunk.chunk_id) chunks

same_sym : (a b : Text) → same a b ≡ false → same b a ≡ false
same_sym a b h = eq_sym same same_refl same→eq a b h

disjoint-cons :
    (id : Text) (ids others : List Text)
    → member same id ids ≡ false
    → disjoint_ids ids others ≡ true
    → disjoint_ids ids (id ∷ others) ≡ true
unfolding member disjoint_ids
disjoint-cons id [] others m d = refl
disjoint-cons id (x ∷ ids) others m d =
    let p : same id x ≡ false = ground (arith, m) in
    let q = same_sym id x p in ground (arith, m, d, q, disjoint-cons id ids others)

module _ {Similarity : Type 0} (format4 : Similarity → Text) (cfg : KnowledgeContextConfig) where
  not_taken :
      (id : Text) (n used : ℕ) (chunks : List (RetrievedChunk Similarity))
      (items : List (KnowledgeItem Similarity)) (excluded : List (ExcludedKnowledge Similarity))
      → Selected format4 cfg n used chunks items excluded
      → member same id (chunk_ids chunks) ≡ false
      → (member same id (item_ids items) ≡ false) × (member same id (excluded_ids excluded) ≡ false)
  unfolding member
  not_taken id n used chunks items excluded none_left m = (refl, refl)
  not_taken id n used (c ∷ chunks) items excluded (taken _ f s) m =
      let (a, b) = not_taken id _ _ chunks _ excluded s (ground (arith, m)) in
      (ground (arith, m, a), b)
  not_taken id n used (c ∷ chunks) items excluded (left_out _ reason f s) m =
      let (a, b) = not_taken id _ _ chunks items _ s (ground (arith, m)) in
      (a, ground (arith, m, b))

  Selected-labelled :
      (n used : ℕ) (chunks : List (RetrievedChunk Similarity))
      (items : List (KnowledgeItem Similarity)) (excluded : List (ExcludedKnowledge Similarity))
      → Selected format4 cfg n used chunks items excluded
      → labelled_from n items ≡ true
  unfolding labelled_from
  Selected-labelled n used chunks items excluded none_left = refl
  Selected-labelled n used (c ∷ chunks) items excluded (taken _ f s) =
      let r = Selected-labelled _ _ chunks _ excluded s in ground (arith, r)
  Selected-labelled n used (c ∷ chunks) items excluded (left_out _ reason f s) =
      Selected-labelled _ _ chunks items _ s

  -- The items have distinct identifiers, and share none with the chunks left out.
  Selected-distinct :
      (n used : ℕ) (chunks : List (RetrievedChunk Similarity))
      (items : List (KnowledgeItem Similarity)) (excluded : List (ExcludedKnowledge Similarity))
      → Selected format4 cfg n used chunks items excluded
      → distinct_ids (chunk_ids chunks) ≡ true
      → (distinct_ids (item_ids items) ≡ true)
        × (disjoint_ids (item_ids items) (excluded_ids excluded) ≡ true)
  unfolding distinct_ids disjoint_ids
  Selected-distinct n used chunks items excluded none_left d = (refl, refl)
  Selected-distinct n used (c ∷ chunks) items excluded (taken _ f s) d =
      let (a, b) = Selected-distinct _ _ chunks _ excluded s (ground (arith, d)) in
      let (x, y) = not_taken c.chunk.chunk_id _ _ chunks _ excluded s (ground (arith, d)) in
      (ground (arith, a, x), ground (arith, b, y))
  Selected-distinct n used (c ∷ chunks) items excluded (left_out _ reason f s) d =
      let (a, b) = Selected-distinct _ _ chunks items _ s (ground (arith, d)) in
      let (x, y) = not_taken c.chunk.chunk_id _ _ chunks items _ s (ground (arith, d)) in
      (a, disjoint-cons c.chunk.chunk_id (item_ids items) _ x b)

  check_context_ok :
      (s : Selection Similarity)
      → labelled_from 0 s.items ≡ true
      → distinct_ids (item_ids s.items) ≡ true
      → disjoint_ids (item_ids s.items) (excluded_ids s.excluded) ≡ true
      → check_context (finish format4 s) ≡ ok (finish format4 s)
  unfolding check_context finish render_block
  check_context_ok s l d j = by_items s.items s.excluded l d j
    where
      by_items :
          (items : List (KnowledgeItem Similarity)) (excluded : List (ExcludedKnowledge Similarity))
          → labelled_from 0 items ≡ true
          → distinct_ids (item_ids items) ≡ true
          → disjoint_ids (item_ids items) (excluded_ids excluded) ≡ true
          → check_context (
              finish format4
                (record { items = items; excluded = excluded; used_chars = s.used_chars }))
            ≡ ok (
                finish format4
                  (record { items = items; excluded = excluded; used_chars = s.used_chars }))
      by_items [] [] l d j = ground (arith, l, d, j)
      by_items [] (e ∷ es) l d j = ground (arith, l, d, j)
      by_items (i ∷ is) [] l d j = ground (arith, l, d, j)
      by_items (i ∷ is) (e ∷ es) l d j = ground (arith, l, d, j)

  -- What a context holds of the chunks of a retrieval.
  pub record IsContext (chunks : List (RetrievedChunk Similarity))
      (context : KnowledgeContext Similarity) : Type 0 where
    pub selected : Selected format4 cfg 0 block_overhead chunks context.items context.excluded
    pub items : length context.items ≤ cfg.max_items
    pub characters : length context.text ≤ cfg.max_chars
    pub tokens : WithinTokens cfg.max_total_tokens (length context.text)
    pub text :
        context.text ≡ (if is_empty context.items then [] else render_block format4 context.items)
    pub total_chars : context.total_chars ≡ length context.text
    pub estimated_tokens : context.estimated_tokens ≡ tokens_for (length context.text)
    pub capped : context.capped ≡ not (is_empty context.excluded)
    pub dropped_items : context.dropped_items ≡ length context.excluded

  block_within :
      (s : Selection Similarity)
      → IsWithin format4 cfg s
      → (length (finish format4 s).text ≤ cfg.max_chars)
        × WithinTokens cfg.max_total_tokens (length (finish format4 s).text)
        × (length (finish format4 s).items ≤ cfg.max_items)
  unfolding finish
  block_within s w = by_items s.items s.used_chars w.counted w.limits
    where
      no_tokens : (o : Option ℕ) → WithinTokens o 0
      no_tokens none = tt
      no_tokens (some l) = omega arith

      by_items :
          (items : List (KnowledgeItem Similarity)) (used : ℕ)
          → used ≡ block_overhead + length (join_items format4 items)
          → (length items ≡ 0)
            ⊎ ((length items ≤ cfg.max_items)
                × (used ≤ cfg.max_chars)
                × WithinTokens cfg.max_total_tokens used)
          → (length (if is_empty items then [] else render_block format4 items) ≤ cfg.max_chars)
            × WithinTokens cfg.max_total_tokens
                (length (if is_empty items then [] else render_block format4 items))
            × (length items ≤ cfg.max_items)
      by_items [] used c l = (omega arith, no_tokens cfg.max_total_tokens, omega arith)
      by_items (i ∷ items) used c (inl e) = absurd (omega (arith, e))
      by_items (i ∷ items) used c (inr (a, b, t)) =
          let n = length-render_block format4 (i ∷ items) in
          let e : used ≡ length (render_block format4 (i ∷ items)) = c ∙ sym n in
          (
            subst (λ k. k ≤ cfg.max_chars) e b,
            subst (λ k. WithinTokens cfg.max_total_tokens k) e t,
            a,
          )

  finish-IsContext :
      (chunks : List (RetrievedChunk Similarity)) (s : Selection Similarity)
      → Selected format4 cfg 0 block_overhead chunks s.items s.excluded
      → IsWithin format4 cfg s
      → IsContext chunks (finish format4 s)
  unfolding finish estimate_tokens
  finish-IsContext chunks s x w =
      let b = block_within s w in
      record {
        selected = x;
        items = b.2;
        characters = b.0;
        tokens = b.1;
        text = refl;
        total_chars = totals s.items;
        estimated_tokens = tokens s.items;
        capped = refl;
        dropped_items = refl;
      }
    where
      totals :
          (items : List (KnowledgeItem Similarity))
          → (if is_empty items
              then 0
              else length (if is_empty items then [] else render_block format4 items))
            ≡ length (if is_empty items then [] else render_block format4 items)
      totals [] = refl
      totals (i ∷ items) = refl

      tokens :
          (items : List (KnowledgeItem Similarity))
          → (if is_empty items
              then 0
              else tokens_for (length (if is_empty items then [] else render_block format4 items)))
            ≡ tokens_for (length (if is_empty items then [] else render_block format4 items))
      tokens [] = unfold tokens_for in refl
      tokens (i ∷ items) = refl

  abbrev start : ℕ → Selection Similarity
  start used = record { items = []; excluded = []; used_chars = used }

  -- For chunks with distinct identifiers a context is returned. Each chunk, in order, is taken whole
  -- under the next label when the block with it keeps every limit, and is otherwise left out with
  -- the first limit that it would break; the block keeps the limits on items, characters and tokens
  -- as it is rendered, its size is the one reported, and the context is capped exactly when a chunk
  -- was left out.
  pub build_knowledge_context-IsContext :
      (chunks : List (RetrievedChunk Similarity))
      → distinct_ids (chunk_ids chunks) ≡ true
      → (context : KnowledgeContext Similarity) × (build_knowledge_context format4 cfg chunks
          ≡ ok context)
        × IsContext chunks context
  unfolding build_knowledge_context select_all finish
  build_knowledge_context-IsContext [] d = (
    finish format4 (start 0),
    check_context_ok (start 0) (unfold labelled_from in refl) (unfold distinct_ids in refl)
        (unfold disjoint_ids in refl),
    finish-IsContext [] (start block_overhead) none_left
        (record { counted = unfold join_items in omega arith; limits = inl refl }),
  )
  build_knowledge_context-IsContext (c ∷ chunks) d =
      let w : IsWithin format4 cfg (start block_overhead) = record {
        counted = unfold join_items in omega arith;
        limits = inl refl;
      } in
      let r = select_all-IsSelected format4 cfg (c ∷ chunks) (start block_overhead) w in
      let e = r.result in
      let x : Selected format4 cfg 0 block_overhead (c ∷ chunks) r.end.items r.end.excluded =
        subst (λ i. Selected format4 cfg 0 block_overhead (c ∷ chunks) i r.end.excluded)
          (sym r.new_items)
          (subst (λ i. Selected format4 cfg 0 block_overhead (c ∷ chunks) r.items i)
            (sym r.new_excluded) r.selected) in
      let (p, q) = Selected-distinct 0 block_overhead (c ∷ chunks) r.end.items r.end.excluded x d in
      (
        finish format4 r.end,
        rw e (
            check_context_ok r.end
              (Selected-labelled 0 block_overhead (c ∷ chunks) r.end.items r.end.excluded x) p q),
        finish-IsContext (c ∷ chunks) r.end x r.within,
      )
