-- ===== src/Knowledge/Rejection.antt =====
-- The limits of ai/rag/context.py and its estimate of tokens.
-- `characters / 3.5` is rounded up to the whole number that it is for lengths below 2 ^ 50.
use python_deep_packet_inspe.Knowledge.Delimiters.{Text}
use python_deep_packet_inspe.Prelude.{
  ℕ, ◌+◌, ◌*◌, ◌/◌, Bool, false, Option, none, some, length, ltb, leb, if◌then◌else◌,
}

-- `max_total_tokens` is `None` where there is no limit.
pub record KnowledgeContextConfig : Type 0 where
  pub max_items : ℕ
  pub max_chars : ℕ
  pub max_total_tokens : Option ℕ

-- The defaults.
abbrev pub default_config : KnowledgeContextConfig
default_config = record { max_items = 4; max_chars = 3000; max_total_tokens = some 900 }

pub data BudgetReason : Type 0 where
  over_items over_chars over_tokens : BudgetReason

unfoldable pub tokens_for : ℕ → ℕ
tokens_for characters = (characters * 2 + 6) / 7

unfoldable pub estimate_tokens : Text → ℕ
unfolding tokens_for
estimate_tokens text = tokens_for (length text)

unfoldable pub over_token_limit : Option ℕ → ℕ → Bool
unfolding tokens_for
over_token_limit none characters = false
over_token_limit (some limit) characters = ltb limit (tokens_for characters)

unfoldable pub rejection : KnowledgeContextConfig → ℕ → ℕ → ℕ → Option BudgetReason
unfolding over_token_limit
rejection cfg included used_chars size =
    if leb cfg.max_items included
    then some over_items
    else if ltb cfg.max_chars (used_chars + size)
    then some over_chars
    else if over_token_limit cfg.max_total_tokens (used_chars + size)
    then some over_tokens
    else none
