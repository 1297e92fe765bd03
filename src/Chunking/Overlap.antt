-- ===== src/Chunking/Overlap.antt =====
-- What `_split_section` of ai/rag/chunking.py repeats of one chunk before the next.
use python_deep_packet_inspe.Prelude.{
  ℕ, ◌+◌, ◌-◌, ◌*◌, ◌/◌, ◌≤◌, ◌<◌, min, ◌≡◌, refl, Bool, true, false, Option, none, some, List, [],
  ◌∷◌, ◌++◌, arith, length, drop, length-append, length-drop, leb, ◌==◌, if◌then◌else◌, ok,
}
use python_deep_packet_inspe.Redaction.{strip}
use python_deep_packet_inspe.Redaction.Strip.{length-strip}
use python_deep_packet_inspe.Chunking.{
  Text, Patterns, ChunkConfig, check_config, last_of, least_from, first_of, overlap_tail, Piece,
  overlap_separator, prefix_for,
}

-- The bounds that a configuration keeps.
abbrev pub IsConfig : ChunkConfig → Type 0
IsConfig config = (200 ≤ config.max_chars) × (config.overlap_chars * 2 < config.max_chars)

pub check_config-IsConfig :
    (config : ChunkConfig) → check_config config ≡ ok config → IsConfig config
unfolding check_config
check_config-IsConfig config h = (ground (arith, h), ground (arith, h))

least_from-le : (floor n : ℕ) (ns : List ℕ) → least_from floor ns ≡ some n → floor ≤ n
unfolding least_from
least_from-le floor n [] h = cc
least_from-le floor n (m ∷ ns) h =
    by_test (leb floor m) refl (least_from floor ns) (λ k. least_from-le floor k ns) h
  where
    by_test :
        (b : Bool)
        → leb floor m ≡ b
        → (rest : Option ℕ) → ((k : ℕ) → rest ≡ some k → floor ≤ k)
        → (if b then (elim rest [ none ↦ some m | some best ↦ some (min m best) ]) else rest)
          ≡ some n
        → floor ≤ n
    by_test true e none go h = let f : m ≡ n = ground (arith, h) in ground (arith, e, f)
    by_test true e (some best) go h =
        let l = go best refl in
        let f : min m best ≡ n = ground (arith, h) in
        let k : floor ≤ m = ground (arith, e) in omega (arith, l, f, k)
    by_test false e rest go h = go n h

-- The overlap is not longer than its budget.
overlap_tail-le :
    (patterns : Patterns) (previous : Text) (budget : ℕ)
    → length (overlap_tail patterns previous budget) ≤ budget
unfolding overlap_tail
overlap_tail-le patterns previous budget = by_empty (min budget (length previous / 2) == 0) _ (
    by_end (least_from floor (patterns.sentence_ends previous))
      (λ n. least_from-le floor n (patterns.sentence_ends previous)))
  where
    by_empty : (b : Bool) (t : Text) → length t ≤ budget → length (if b then [] else t) ≤ budget
    by_empty true t h = omega arith
    by_empty false t h = h

    floor : ℕ
    floor = length previous - min budget (length previous / 2)

    tail_le :
        (n : ℕ)
        → length previous - min budget (length previous / 2) ≤ n
        → length (strip patterns.is_space (drop n previous)) ≤ budget
    tail_le n h =
        omega (arith, length-strip patterns.is_space (drop n previous), length-drop n previous, h)

    by_end :
        (o : Option ℕ)
        → ((n : ℕ) → o ≡ some n → length previous - min budget (length previous / 2) ≤ n)
        → length (elim o [
          | some end ↦ strip patterns.is_space (drop end previous)
          | none ↦ strip patterns.is_space (
              drop
                (first_of (
                  patterns.space_ends
                    (drop (length previous - min budget (length previous / 2)) previous)))
                (drop (length previous - min budget (length previous / 2)) previous))
        ])
          ≤ budget
    by_end (some end) h = tail_le end (h end refl)
    by_end none h =
        let f = length previous - min budget (length previous / 2) in
        let n = first_of (patterns.space_ends (drop f previous)) in
        omega (
          arith,
          length-strip patterns.is_space (drop n (drop f previous)),
          length-drop n (drop f previous),
          length-drop f previous,
        )

-- What stands before a chunk: nothing, or an overlap with the separator after it.
pub data IsPrefix (config : ChunkConfig) : Text → Type 0 where
  no_prefix : IsPrefix config []
  overlapping :
      (tail : Text)
      → 0 < length tail
      → length tail ≤ config.overlap_chars
      → IsPrefix config (tail ++ overlap_separator)

pub prefix_for-IsPrefix :
    (patterns : Patterns) (config : ChunkConfig) (pieces : List Piece)
    → IsPrefix config (prefix_for patterns config pieces)
unfolding prefix_for
prefix_for-IsPrefix patterns config pieces = by_last (last_of pieces)
  where
    by_tail :
        (tail : Text) (b : Bool)
        → (length tail == 0) ≡ b
        → length tail ≤ config.overlap_chars
        → IsPrefix config (if b then [] else tail ++ overlap_separator)
    by_tail tail true e l = no_prefix
    by_tail tail false e l = overlapping tail (ground (arith, e)) l

    by_last :
        (o : Option Piece)
        → IsPrefix config (elim o [
          | none ↦ []
          | some (previous, overlap) ↦
              let tail = overlap_tail patterns previous config.overlap_chars in
              if length tail == 0 then [] else tail ++ overlap_separator
        ])
    by_last none = no_prefix
    by_last (some (previous, overlap)) =
        let tail = overlap_tail patterns previous config.overlap_chars in
        by_tail tail (length tail == 0) refl
          (overlap_tail-le patterns previous config.overlap_chars)

pub prefix-le :
    (config : ChunkConfig) (prefix : Text)
    → IsPrefix config prefix
    → length prefix ≤ config.overlap_chars + 2
prefix-le config prefix no_prefix = omega arith
prefix-le config prefix (overlapping tail a b) =
    omega (arith, length-append tail overlap_separator, b)
