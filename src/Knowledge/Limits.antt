-- ===== src/Knowledge/Limits.antt =====
-- The limits of ai/rag/context.py on the reference block, and which of them _rejection names.
use python_deep_packet_inspe.Prelude.{
  ℕ, ◌+◌, ◌*◌, ◌≤◌, ◌<◌, ◌≡◌, refl, sym, subst, Bool, true, false, Option, none, some, arith, ltb,
  leb, if◌then◌else◌, ltb→lt, leb→le, ltb→ge, leb→gt,
}
use python_deep_packet_inspe.Knowledge.{
  KnowledgeContextConfig, BudgetReason, over_items, over_chars, over_tokens, tokens_for,
  over_token_limit, rejection,
}

abbrev pub WithinTokens : Option ℕ → ℕ → Type 0
WithinTokens none characters = Unit
WithinTokens (some limit) characters = characters * 2 ≤ limit * 7

-- A block of `total` characters with one item more than `n` keeps every limit. A token is three and
-- a half characters.
pub record Fits (cfg : KnowledgeContextConfig) (n total : ℕ) : Type 0 where
  pub items : n < cfg.max_items
  pub characters : total ≤ cfg.max_chars
  pub tokens : WithinTokens cfg.max_total_tokens total

-- The first limit that it would break.
pub data Breaks (cfg : KnowledgeContextConfig) (n total : ℕ) : BudgetReason → Type 0 where
  break_items : cfg.max_items ≤ n → Breaks cfg n total over_items
  break_chars : n < cfg.max_items → cfg.max_chars < total → Breaks cfg n total over_chars
  break_tokens :
      (limit : ℕ)
      → n < cfg.max_items
      → total ≤ cfg.max_chars
      → cfg.max_total_tokens ≡ some limit
      → limit * 7 < total * 2
      → Breaks cfg n total over_tokens

abbrev pub IsRejection : KnowledgeContextConfig → ℕ → ℕ → Option BudgetReason → Type 0
IsRejection cfg n total none = Fits cfg n total
IsRejection cfg n total (some reason) = Breaks cfg n total reason

module _ (cfg : KnowledgeContextConfig) (n used size : ℕ) where
  token_limit :
      (limit : Option ℕ)
      → cfg.max_total_tokens ≡ limit
      → n < cfg.max_items
      → used + size ≤ cfg.max_chars
      → (b : Bool) → over_token_limit limit (used + size) ≡ b
      → IsRejection cfg n (used + size) (if b then some over_tokens else none)
  unfolding over_token_limit tokens_for
  token_limit none e i c true t = cc
  token_limit none e i c false t = record {
    items = i;
    characters = c;
    tokens = subst (λ o. WithinTokens o (used + size)) (sym e) tt;
  }
  token_limit (some limit) e i c true t = break_tokens limit i c e (ground (arith, t))
  token_limit (some limit) e i c false t = record {
    items = i;
    characters = c;
    tokens =
        let w : used * 2 + size * 2 ≤ limit * 7 = ground (arith, t) in
        subst (λ o. WithinTokens o (used + size)) (sym e) (omega (arith, w));
  }

  pub rejection-IsRejection : IsRejection cfg n (used + size) (rejection cfg n used size)
  unfolding rejection
  rejection-IsRejection = by_items (leb cfg.max_items n) refl
    where
      by_chars :
          n < cfg.max_items
          → (b : Bool) → ltb cfg.max_chars (used + size) ≡ b
          → IsRejection cfg n (used + size) (
              if b
              then some over_chars
              else if over_token_limit cfg.max_total_tokens (used + size)
              then some over_tokens
              else none)
      by_chars i true e = break_chars i (ltb→lt _ _ e)
      by_chars i false e =
          token_limit cfg.max_total_tokens refl i (ltb→ge _ _ e)
            (over_token_limit cfg.max_total_tokens (used + size)) refl

      by_items :
          (b : Bool)
          → leb cfg.max_items n ≡ b
          → IsRejection cfg n (used + size) (
              if b
              then some over_items
              else if ltb cfg.max_chars (used + size)
              then some over_chars
              else if over_token_limit cfg.max_total_tokens (used + size)
              then some over_tokens
              else none)
      by_items true e = break_items (leb→le _ _ e)
      by_items false e = by_chars (leb→gt _ _ e) (ltb cfg.max_chars (used + size)) refl
