-- ===== src/Chunking/Pieces.antt =====
-- What a round of `_split_section` of ai/rag/chunking.py adds to the chunks.
use python_deep_packet_inspe.Prelude.{
  ℕ, ◌+◌, ◌-◌, ◌≤◌, ◌<◌, ◌≡◌, refl, sym, ap, ◌∙◌, false, List, [], ◌∷◌, ◌++◌, arith, length, drop,
  Bool, length-append, drop-append, ◌==◌, if◌then◌else◌,
}
use python_deep_packet_inspe.Redaction.{strip}
use python_deep_packet_inspe.Redaction.Strip.{length-strip}
use python_deep_packet_inspe.Chunking.{
  Text, ChunkConfig, Piece, overlap_separator, add_piece, body_of,
}
use python_deep_packet_inspe.Chunking.Overlap.{IsPrefix, no_prefix, overlapping}

-- A chunk is within the limit, and so is what it repeats.
pub record FitsChunk (config : ChunkConfig) (piece : Piece) : Type 0 where
  pub size : length piece.0 ≤ config.max_chars
  pub overlap : piece.1 ≤ config.overlap_chars

-- The chunks of a text: it is cut into parts, and each part without white space at its ends is the
-- body of one chunk, or nothing is left of it.
pub data Parts (space : ℕ → Bool) : Text → List Piece → Type 0 where
  no_parts : Parts space [] []
  blank :
      {text : Text} {pieces : List Piece} (part rest : Text)
      → text ≡ part ++ rest
      → strip space part ≡ []
      → Parts space rest pieces
      → Parts space text pieces
  chunk :
      {text : Text} {pieces : List Piece} (piece : Piece) (part rest : Text)
      → text ≡ part ++ rest
      → body_of piece ≡ strip space part
      → Parts space rest pieces
      → Parts space text (piece ∷ pieces)

-- What a round adds for a part: nothing for a blank one, or one chunk with its body.
pub data IsAdded (space : ℕ → Bool) (config : ChunkConfig) (part : Text) (pieces : List Piece)
    : List Piece → Type 0 where
  nothing_added : strip space part ≡ [] → IsAdded space config part pieces pieces
  added :
      (piece : Piece)
      → FitsChunk config piece
      → body_of piece ≡ strip space part
      → IsAdded space config part pieces (pieces ++ piece ∷ [])

drop-prefix :
    (tail piece : Text) → drop (length tail + 2) ((tail ++ overlap_separator) ++ piece) ≡ piece
drop-prefix tail piece =
    let l : length tail + 2 ≡ length (tail ++ overlap_separator) =
      omega (arith, length-append tail overlap_separator) in
    ap (λ n. drop n ((tail ++ overlap_separator) ++ piece)) l
    ∙ drop-append (tail ++ overlap_separator) piece

not_zero : (n : ℕ) → 0 < n → (n == 0) ≡ false
not_zero n h = ground (arith, h)

repeated :
    (tail piece : Text)
    → 0 < length tail
    → body_of ((tail ++ overlap_separator) ++ piece, length tail) ≡ piece
unfolding body_of
repeated tail piece h = rw (not_zero (length tail) h) (drop-prefix tail piece)

pub add_piece-IsAdded :
    (space : ℕ → Bool) (config : ChunkConfig) (prefix part : Text) (pieces : List Piece)
    → IsPrefix config prefix
    → length prefix + length part ≤ config.max_chars
    → IsAdded space config part pieces (add_piece prefix (strip space part) pieces)
unfolding add_piece
add_piece-IsAdded space config prefix part pieces p l =
    by_piece (strip space part) refl (length-strip space part) prefix p l
  where
    by_piece :
        (piece : Text)
        → strip space part ≡ piece
        → length piece ≤ length part
        → (prefix : Text) → IsPrefix config prefix
        → length prefix + length part ≤ config.max_chars
        → IsAdded space config part pieces (
            if length piece == 0
            then pieces
            else if length prefix == 0
            then pieces ++ (piece, 0) ∷ []
            else pieces ++ (prefix ++ piece, length prefix - 2) ∷ [])
    by_piece [] e s prefix p l = nothing_added e
    by_piece (c ∷ piece) e s prefix no_prefix l =
        let z : (length (c ∷ piece) == 0) ≡ false = ground arith in
        rw z (
          added (c ∷ piece, 0) (record { size = omega (arith, s, l); overlap = omega arith })
            (unfold body_of in sym e))
    by_piece (c ∷ piece) e s prefix (overlapping tail a b) l =
        let z : (length (c ∷ piece) == 0) ≡ false = ground arith in
        let n = length-append tail overlap_separator in
        let m = length-append (tail ++ overlap_separator) (c ∷ piece) in
        let y : (length (tail ++ overlap_separator) == 0) ≡ false =
          not_zero (length (tail ++ overlap_separator)) (omega (arith, n)) in
        let o : length (tail ++ overlap_separator) - 2 ≡ length tail = omega (arith, n) in
        rw z (
          rw y (
            added ((tail ++ overlap_separator) ++ c ∷ piece, length (tail ++ overlap_separator) - 2)
              (record { size = omega (arith, m, s, l); overlap = omega (arith, n, b) })
              (ap (λ k. body_of ((tail ++ overlap_separator) ++ c ∷ piece, k)) o
                ∙ repeated tail (c ∷ piece) a
                ∙ sym e)))
