-- ===== src/Knowledge.antt =====
-- The reference block of ai/rag/context.py: the chunks that a retrieval found, taken into a prompt
-- as long as the budget lasts. A string is its list of code points. A label `K3` is its number. The
-- similarity, a floating point number that is only printed, and its text are parameters. The texts
-- of `budget` and `notes` are left out, as is the export to JSON.
pub mod Rejection
pub mod Delimiters
pub mod Limits
pub mod Fences
pub mod Budget
pub mod Context
pub use Delimiters.{Text, newline, block_start, block_end}
unfoldable pub use Delimiters.{spaced, flush, neutralise, neutralise_fences, block_overhead}
pub use Rejection.{
  KnowledgeContextConfig, default_config, BudgetReason, over_items, over_chars, over_tokens,
}
unfoldable pub use Rejection.{tokens_for, estimate_tokens, over_token_limit, rejection}
use python_deep_packet_inspe.Prelude.{
  ℕ, ◌+◌, ◌/◌, Bool, true, false, not, ◌&&◌, ◌||◌, none, some, List, [], ◌∷◌, ◌++◌, map, length,
  ltb, ◌==◌, if◌then◌else◌, Py, ok, raise, value_error, ◌>>=◌,
}
use python_deep_packet_inspe.Prelude.Strings.{codes}
use python_deep_packet_inspe.Text.{same, join}
use python_deep_packet_inspe.Rules.{decimal}
use python_deep_packet_inspe.Rules.Sets.{member}

-- The fields of `KnowledgeChunk` of ai/rag/chunking.py that the block shows.
pub record KnowledgeChunk : Type 0 where
  pub chunk_id : Text
  pub document_id : Text
  pub section : Text
  pub category : Text
  pub text : Text
  pub chunk_index : ℕ
  pub chunk_count : ℕ

-- `KnowledgeChunk.citation`.
unfoldable pub citation : KnowledgeChunk → Text
unfolding decimal
citation chunk =
    chunk.document_id
    ++ (codes " / "
        ++ (chunk.section
            ++ (if ltb 1 chunk.chunk_count
                then codes " ["
                  ++ (decimal (chunk.chunk_index + 1)
                      ++ (codes "/" ++ (decimal chunk.chunk_count ++ codes "]")))
                else [])))

-- `", ".join(names)`.
unfoldable pub join_names : List Text → Text
join_names [] = []
join_names (name ∷ []) = name
join_names (name ∷ next ∷ names) = name ++ (codes ", " ++ join_names (next ∷ names))

-- The fields of `RetrievedChunk` of ai/rag/retrieval.py that the block reads.
pub record RetrievedChunk (Similarity : Type 0) : Type 0 where
  pub chunk : KnowledgeChunk
  pub similarity : Similarity
  pub rank : ℕ
  pub matched_signals : List Text

pub record KnowledgeItem (Similarity : Type 0) : Type 0 where
  pub ref : ℕ
  pub retrieved : RetrievedChunk Similarity

pub record ExcludedKnowledge (Similarity : Type 0) : Type 0 where
  pub retrieved : RetrievedChunk Similarity
  pub reason : BudgetReason

-- The variables of the loop of `build_knowledge_context`.
pub record Selection (Similarity : Type 0) : Type 0 where
  pub items : List (KnowledgeItem Similarity)
  pub excluded : List (ExcludedKnowledge Similarity)
  pub used_chars : ℕ

pub record KnowledgeContext (Similarity : Type 0) : Type 0 where
  pub items : List (KnowledgeItem Similarity)
  pub text : Text
  pub capped : Bool
  pub dropped_items : ℕ
  pub excluded : List (ExcludedKnowledge Similarity)
  pub total_chars : ℕ
  pub estimated_tokens : ℕ

unfoldable pub signals_text : List Text → Text
unfolding join_names
signals_text names = let text = join_names names in if length text == 0 then codes "none" else text

-- `len(set(ids)) == len(ids)`.
unfoldable pub distinct_ids : List Text → Bool
unfolding member same
distinct_ids [] = true
distinct_ids (id ∷ ids) = not (member same id ids) && distinct_ids ids

-- Whether two sets have no identifier in common.
unfoldable pub disjoint_ids : List Text → List Text → Bool
unfolding member same
disjoint_ids [] others = true
disjoint_ids (id ∷ ids) others = not (member same id others) && disjoint_ids ids others

abbrev pub is_empty {ℓ} : {A : Type ℓ} → List A → Bool
is_empty [] = true
is_empty (x ∷ xs) = false

module _ {Similarity : Type 0} where
  -- `KnowledgeItem(...)` with its two validators.
  unfoldable pub make_item : ℕ → RetrievedChunk Similarity → Py (KnowledgeItem Similarity)
  make_item ref retrieved =
      if ref == 0 || not (ref == retrieved.rank + 1)
      then raise value_error
      else ok (record { ref = ref; retrieved = retrieved })

  unfoldable pub renumbered : RetrievedChunk Similarity → ℕ → RetrievedChunk Similarity
  renumbered retrieved position =
      if retrieved.rank == position then retrieved else record retrieved { rank = position }

  -- The labels are K1, K2 and so on from `n + 1`.
  unfoldable pub labelled_from : ℕ → List (KnowledgeItem Similarity) → Bool
  labelled_from n [] = true
  labelled_from n (item ∷ items) = item.ref == n + 1 && labelled_from (n + 1) items

  abbrev pub item_ids : List (KnowledgeItem Similarity) → List Text
  item_ids items = map (λ (item : KnowledgeItem Similarity). item.retrieved.chunk.chunk_id) items

  abbrev pub excluded_ids : List (ExcludedKnowledge Similarity) → List Text
  excluded_ids excluded =
      map (λ (x : ExcludedKnowledge Similarity). x.retrieved.chunk.chunk_id) excluded

  -- `_consistent`.
  unfoldable pub check_context : KnowledgeContext Similarity → Py (KnowledgeContext Similarity)
  unfolding labelled_from distinct_ids disjoint_ids
  check_context context =
      if not (labelled_from 0 context.items)
      then raise value_error
      else if not (distinct_ids (item_ids context.items))
      then raise value_error
      else if (if context.capped
          then context.dropped_items == 0
          else not (context.dropped_items == 0))
      then raise value_error
      else if not (context.dropped_items == length context.excluded)
      then raise value_error
      else if not (disjoint_ids (item_ids context.items) (excluded_ids context.excluded))
      then raise value_error
      else if not (is_empty context.items) && is_empty context.text
      then raise value_error
      else if not (is_empty context.text) && is_empty context.items
      then raise value_error
      else ok context

module _ {Similarity : Type 0} (format4 : Similarity → Text) where
  unfoldable pub render : KnowledgeItem Similarity → Text
  unfolding decimal citation signals_text neutralise_fences join
  render item =
      let chunk = item.retrieved.chunk in
      join newline (
        (codes "[K" ++ (decimal item.ref ++ codes "]"))
        ∷ (codes "Document: " ++ chunk.document_id)
        ∷ (codes "Section: " ++ chunk.section)
        ∷ (codes "Category: " ++ chunk.category)
        ∷ (codes "Similarity: " ++ format4 item.retrieved.similarity)
        ∷ (codes "Citation: " ++ citation chunk)
        ∷ (codes "Matched signals: " ++ signals_text item.retrieved.matched_signals)
        ∷ codes "Text:"
        ∷ neutralise_fences chunk.text
        ∷ [])

  -- `"\n\n".join(item.render() for item in items)`.
  unfoldable pub join_items : List (KnowledgeItem Similarity) → Text
  unfolding render
  join_items [] = []
  join_items (item ∷ []) = render item
  join_items (item ∷ next ∷ items) = render item ++ newline ∷ newline ∷ join_items (next ∷ items)

  unfoldable pub render_block : List (KnowledgeItem Similarity) → Text
  unfolding join_items
  render_block items = block_start ++ newline ∷ (join_items items ++ newline ∷ block_end)

  -- The round for one chunk.
  unfoldable pub select :
      KnowledgeContextConfig
      → RetrievedChunk Similarity
      → Selection Similarity
      → Py (Selection Similarity)
  unfolding make_item renumbered render rejection
  select cfg retrieved s = do
    candidate ← make_item (length s.items + 1) (renumbered retrieved (length s.items))
    let size = length (render candidate) + (if length s.items == 0 then 0 else 2)
    ok (elim (rejection cfg (length s.items) s.used_chars size) [
      | some reason ↦ record s {
        excluded = s.excluded ++ record { retrieved = retrieved; reason = reason } ∷ [];
      }
      | none ↦ record s { items = s.items ++ candidate ∷ []; used_chars = s.used_chars + size }
    ])

  unfoldable pub select_all :
      KnowledgeContextConfig
      → List (RetrievedChunk Similarity)
      → Selection Similarity
      → Py (Selection Similarity)
  unfolding select
  select_all cfg [] s = ok s
  select_all cfg (retrieved ∷ chunks) s = do s' ← select cfg retrieved s; select_all cfg chunks s'

  unfoldable pub finish : Selection Similarity → KnowledgeContext Similarity
  unfolding render_block estimate_tokens
  finish s =
      let text = if is_empty s.items then [] else render_block s.items in
      record {
        items = s.items;
        text = text;
        capped = not (is_empty s.excluded);
        dropped_items = length s.excluded;
        excluded = s.excluded;
        total_chars = if is_empty s.items then 0 else length text;
        estimated_tokens = if is_empty s.items then 0 else estimate_tokens text;
      }

  -- `build_knowledge_context` on the chunks of a retrieval report.
  unfoldable pub build_knowledge_context :
      KnowledgeContextConfig → List (RetrievedChunk Similarity) → Py (KnowledgeContext Similarity)
  unfolding select_all finish check_context block_overhead
  build_knowledge_context cfg chunks = do
    s ← select_all cfg chunks (record {
      items = [];
      excluded = [];
      used_chars = if is_empty chunks then 0 else block_overhead;
    })
    check_context (finish s)
