-- ===== src/Knowledge/Budget.antt =====
-- Which chunks `build_knowledge_context` of ai/rag/context.py takes.
use python_deep_packet_inspe.Prelude.{
  ℕ, ◌+◌, ◌≤◌, ◌≡◌, ◌⊎◌, refl, sym, ◌∙◌, subst, inr, false, Option, none, some, List, [], ◌∷◌, ◌++◌,
  append-nil, append_assoc, arith, length, length-append, ◌==◌, if◌then◌else◌, ok,
}
use python_deep_packet_inspe.Knowledge.{
  Text, newline, KnowledgeContextConfig, BudgetReason, rejection, block_end, block_overhead,
  RetrievedChunk, KnowledgeItem, ExcludedKnowledge, Selection, make_item, renumbered, render,
  join_items, render_block, select, select_all,
}
use python_deep_packet_inspe.Knowledge.Limits.{
  WithinTokens, Fits, Breaks, IsRejection, rejection-IsRejection,
}

module _ {Similarity : Type 0} (format4 : Similarity → Text) where
  -- The item for a chunk after `n` others.
  abbrev pub item_for : ℕ → RetrievedChunk Similarity → KnowledgeItem Similarity
  item_for n retrieved = record { ref = n + 1; retrieved = record retrieved { rank = n } }

  -- What the item adds to the block: itself, and a blank line before it if it is not the first.
  abbrev pub size_for : ℕ → RetrievedChunk Similarity → ℕ
  size_for n retrieved = length (render format4 (item_for n retrieved)) + (if n == 0 then 0 else 2)

  -- The chunks in their order, from a block with `n` items and `used` characters on: each is taken
  -- when it fits, whole and under the next label, or left out with the limit that it would break.
  pub data Selected (cfg : KnowledgeContextConfig)
      : ℕ
        → ℕ
        → List (RetrievedChunk Similarity)
        → List (KnowledgeItem Similarity)
        → List (ExcludedKnowledge Similarity)
        → Type 0 where
    none_left : {n used : ℕ} → Selected cfg n used [] [] []
    taken :
        {n used : ℕ} {chunks : List (RetrievedChunk Similarity)}
        {items : List (KnowledgeItem Similarity)} {excluded : List (ExcludedKnowledge Similarity)}
        (retrieved : RetrievedChunk Similarity)
        → Fits cfg n (used + size_for n retrieved)
        → Selected cfg (n + 1) (used + size_for n retrieved) chunks items excluded
        → Selected cfg n used (retrieved ∷ chunks) (item_for n retrieved ∷ items) excluded
    left_out :
        {n used : ℕ} {chunks : List (RetrievedChunk Similarity)}
        {items : List (KnowledgeItem Similarity)} {excluded : List (ExcludedKnowledge Similarity)}
        (retrieved : RetrievedChunk Similarity) (reason : BudgetReason)
        → Breaks cfg n (used + size_for n retrieved) reason
        → Selected cfg n used chunks items excluded
        → Selected cfg n used
            (retrieved ∷ chunks)
            items
            (record { retrieved = retrieved; reason = reason } ∷ excluded)

  renumbered_lem :
      (retrieved : RetrievedChunk Similarity) (n : ℕ)
      → renumbered retrieved n ≡ record retrieved { rank = n }
  unfolding renumbered
  renumbered_lem retrieved n = ground arith

  make_item_ok :
      (retrieved : RetrievedChunk Similarity) (n : ℕ)
      → make_item (n + 1) (renumbered retrieved n) ≡ ok (item_for n retrieved)
  unfolding make_item
  make_item_ok retrieved n = rw (renumbered_lem retrieved n) (ground arith)

  length-join_items :
      (items : List (KnowledgeItem Similarity)) (item : KnowledgeItem Similarity)
      → length (join_items format4 (items ++ item ∷ []))
        ≡ length (join_items format4 items)
          + (length (render format4 item) + (if length items == 0 then 0 else 2))
  unfolding join_items
  length-join_items [] item = omega arith
  length-join_items (x ∷ []) item =
      let l = length-append (render format4 x) (newline ∷ newline ∷ render format4 item) in
      omega (arith, l)
  length-join_items (x ∷ y ∷ items) item =
      let ih = length-join_items (y ∷ items) item in
      let l =
        length-append (render format4 x) (newline ∷ newline ∷ join_items format4 (y ∷ items)) in
      let r =
        length-append (render format4 x)
          (newline ∷ newline ∷ join_items format4 (y ∷ (items ++ item ∷ []))) in
      let e : (length (y ∷ items) == 0) ≡ false = ground arith in
      let e' : (length (x ∷ y ∷ items) == 0) ≡ false = ground arith in ground (arith, ih, l, r)

  pub length-render_block :
      (items : List (KnowledgeItem Similarity))
      → length (render_block format4 items) ≡ block_overhead + length (join_items format4 items)
  unfolding render_block block_overhead
  length-render_block items =
      let a = length-append (join_items format4 items) (newline ∷ block_end) in omega (arith, a)

  -- The size of the block so far is counted, and it keeps the limits when it has an item.
  pub record IsWithin (cfg : KnowledgeContextConfig) (s : Selection Similarity) : Type 0 where
    pub counted : s.used_chars ≡ block_overhead + length (join_items format4 s.items)
    pub limits :
        (length s.items ≡ 0)
        ⊎ ((length s.items ≤ cfg.max_items)
            × (s.used_chars ≤ cfg.max_chars)
            × WithinTokens cfg.max_total_tokens s.used_chars)

  abbrev include : RetrievedChunk Similarity → Selection Similarity → Selection Similarity
  include retrieved s = record s {
    items = s.items ++ item_for (length s.items) retrieved ∷ [];
    used_chars = s.used_chars + size_for (length s.items) retrieved;
  }

  abbrev exclude :
      RetrievedChunk Similarity → BudgetReason → Selection Similarity → Selection Similarity
  exclude retrieved reason s = record s {
    excluded = s.excluded ++ record { retrieved = retrieved; reason = reason } ∷ [];
  }

  select_lem :
      (cfg : KnowledgeContextConfig) (retrieved : RetrievedChunk Similarity)
      (s : Selection Similarity)
      → select format4 cfg retrieved s
        ≡ ok
            (elim (rejection cfg
              (length s.items)
              s.used_chars
              (size_for (length s.items) retrieved)) [
                | some reason ↦ exclude retrieved reason s
                | none ↦ include retrieved s
              ])
  unfolding select
  select_lem cfg retrieved s = rw (make_item_ok retrieved (length s.items)) refl

  include-IsWithin :
      (cfg : KnowledgeContextConfig) (retrieved : RetrievedChunk Similarity)
      (s : Selection Similarity)
      → Fits cfg (length s.items) (s.used_chars + size_for (length s.items) retrieved)
      → IsWithin cfg s
      → IsWithin cfg (include retrieved s)
  include-IsWithin cfg retrieved s f w =
      let c = w.counted in
      let l = length-append s.items (item_for (length s.items) retrieved ∷ []) in
      let j = length-join_items s.items (item_for (length s.items) retrieved) in
      let i = f.items in
      record {
        counted = omega (arith, c, j);
        limits = inr (omega (arith, l, i), f.characters, f.tokens);
      }

  -- What the loop makes of a list of chunks.
  pub record IsSelected (cfg : KnowledgeContextConfig) (chunks : List (RetrievedChunk Similarity))
      (s : Selection Similarity) : Type 0 where
    pub end : Selection Similarity
    pub items : List (KnowledgeItem Similarity)
    pub excluded : List (ExcludedKnowledge Similarity)
    pub result : select_all format4 cfg chunks s ≡ ok end
    pub new_items : end.items ≡ s.items ++ items
    pub new_excluded : end.excluded ≡ s.excluded ++ excluded
    pub selected : Selected cfg (length s.items) s.used_chars chunks items excluded
    pub within : IsWithin cfg end

  pub select_all-IsSelected :
      (cfg : KnowledgeContextConfig) (chunks : List (RetrievedChunk Similarity))
      (s : Selection Similarity)
      → IsWithin cfg s
      → IsSelected cfg chunks s
  unfolding select_all
  select_all-IsSelected cfg [] s w = record {
    end = s;
    items = [];
    excluded = [];
    result = refl;
    new_items = sym (append-nil s.items);
    new_excluded = sym (append-nil s.excluded);
    selected = none_left;
    within = w;
  }
  select_all-IsSelected cfg (retrieved ∷ chunks) s w =
      by_rejection (rejection cfg n s.used_chars (size_for n retrieved)) refl
        (rejection-IsRejection cfg n s.used_chars (size_for n retrieved))
        (λ s w. select_all-IsSelected cfg chunks s w)
    where
      n : ℕ
      n = length s.items

      by_rejection :
          (o : Option BudgetReason)
          → rejection cfg (length s.items) s.used_chars (size_for (length s.items) retrieved) ≡ o
          → IsRejection cfg (length s.items) (s.used_chars + size_for (length s.items) retrieved) o
          → ((s : Selection Similarity) → IsWithin cfg s → IsSelected cfg chunks s)
          → IsSelected cfg (retrieved ∷ chunks) s
      by_rejection none e f go =
          let r = go (include retrieved s) (include-IsWithin cfg retrieved s f w) in
          let res = r.result in
          let k = length-append s.items (item_for (length s.items) retrieved ∷ []) in
          let ni = r.new_items in
          record {
            end = r.end;
            items = item_for (length s.items) retrieved ∷ r.items;
            excluded = r.excluded;
            result = rw (select_lem cfg retrieved s) (rw e res);
            new_items =
                ni ∙ append_assoc s.items (item_for (length s.items) retrieved ∷ []) r.items;
            new_excluded = r.new_excluded;
            selected = taken retrieved f (
                subst
                  (λ m.
                    Selected cfg m (s.used_chars + size_for (length s.items) retrieved) chunks
                      r.items r.excluded)
                  k r.selected);
            within = r.within;
          }
      by_rejection (some reason) e b go =
          let r =
            go (exclude retrieved reason s) (record { counted = w.counted; limits = w.limits }) in
          let res = r.result in
          let ne = r.new_excluded in
          record {
            end = r.end;
            items = r.items;
            excluded = record { retrieved = retrieved; reason = reason } ∷ r.excluded;
            result = rw (select_lem cfg retrieved s) (rw e res);
            new_items = r.new_items;
            new_excluded =
                ne
                ∙ append_assoc s.excluded (record { retrieved = retrieved; reason = reason } ∷ [])
                    r.excluded;
            selected = left_out retrieved reason b r.selected;
            within = r.within;
          }
