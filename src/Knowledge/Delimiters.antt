-- ===== src/Knowledge/Delimiters.antt =====
-- The delimiters of the reference block of ai/rag/context.py and what it does to text like them.
use python_deep_packet_inspe.Prelude.{
  ℕ, zero, suc, ◌+◌, List, [], ◌∷◌, ◌++◌, length, replicate, ltb, ◌==◌, if◌then◌else◌,
}
use python_deep_packet_inspe.Prelude.Strings.{codes}

abbrev pub Text : Type 0
Text = List ℕ

abbrev pub newline : ℕ
newline = 10

-- `" ".join("=" * n)`.
unfoldable pub spaced : ℕ → Text
spaced zero = []
spaced (suc zero) = b'=' ∷ []
spaced (suc (suc n)) = b'=' ∷ b' ' ∷ spaced (suc n)

-- A run of `n` equals signs, as it is after the substitution.
unfoldable pub flush : ℕ → Text
unfolding spaced
flush n = if ltb n 5 then replicate n b'=' else spaced n

-- `_neutralise_fences`, after a run of `n` equals signs.
unfoldable pub neutralise : ℕ → Text → Text
unfolding flush
neutralise n [] = flush n
neutralise n (c ∷ text) =
    let rest = neutralise (if c == b'=' then n + 1 else 0) text in
    if c == b'=' then rest else flush n ++ c ∷ rest

unfoldable pub neutralise_fences : Text → Text
unfolding neutralise
neutralise_fences text = neutralise 0 text

abbrev pub block_start : Text
block_start = codes "===== BEGIN REFERENCE KNOWLEDGE ====="

abbrev pub block_end : Text
block_end = codes "===== END REFERENCE KNOWLEDGE ====="

unfoldable pub block_overhead : ℕ
block_overhead = length block_start + length block_end + 2
