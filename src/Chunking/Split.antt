-- ===== src/Chunking/Split.antt =====
-- The chunks that `_split_section` of ai/rag/chunking.py makes of a section.
use python_deep_packet_inspe.Prelude.{
  ℕ, zero, suc, ◌+◌, ◌-◌, ◌≤◌, ◌<◌, ◌≡◌, refl, sym, ap, ◌∙◌, subst, Bool, true, false, List, [],
  ◌∷◌, ◌++◌, append-nil, append_assoc, arith, length, take, drop, All, length-take, drop-drop, ltb,
  leb, ltb→lt, leb→le, ltb→ge, ok,
}
use python_deep_packet_inspe.Redaction.{strip}
use python_deep_packet_inspe.Redaction.Strip.{strip-StartsOutside, strip-EndsOutside, strip_same}
use python_deep_packet_inspe.Chunking.{
  Text, Patterns, ChunkConfig, check_config, Piece, prefix_for, end_of, add_piece, split_loop,
  split_section, body_of,
}
use python_deep_packet_inspe.Chunking.Cuts.{HaveSpans, end_of_bounds}
use python_deep_packet_inspe.Chunking.Overlap.{
  IsConfig, check_config-IsConfig, prefix_for-IsPrefix, prefix-le,
}
use python_deep_packet_inspe.Chunking.Pieces.{
  FitsChunk, Parts, no_parts, blank, chunk, IsAdded, nothing_added, added, add_piece-IsAdded,
}

drop_past : (n : ℕ) (s : Text) → length s ≤ n → drop n s ≡ []
drop_past zero [] h = refl
drop_past zero (c ∷ s) h = absurd (omega arith)
drop_past (suc n) [] h = refl
drop_past (suc n) (c ∷ s) h = drop_past n s (omega arith)

take-drop : (n : ℕ) (s : Text) → s ≡ take n s ++ drop n s
take-drop zero s = refl
take-drop (suc n) [] = refl
take-drop (suc n) (c ∷ s) = ap (◌∷◌ c) (take-drop n s)

cut_lem :
    (body : Text) (start end : ℕ)
    → start < end
    → drop start body ≡ take (end - start) (drop start body) ++ drop end body
cut_lem body start end h =
    let e : start + (end - start) ≡ end = omega (arith, h) in
    take-drop (end - start) (drop start body)
    ∙ ap (λ r. take (end - start) (drop start body) ++ r)
        (drop-drop start (end - start) body ∙ ap (λ k. drop k body) e)

module _ (patterns : Patterns) (spans : HaveSpans patterns.space_ends) (config : ChunkConfig)
    (valid : IsConfig config) where
  -- What the loop makes of the rest of a body.
  record Completes (body : Text) (fuel start : ℕ) (pieces : List Piece) : Type 0 where
    new : List Piece
    result : split_loop fuel patterns config body start pieces ≡ ok (pieces ++ new)
    fits : All (FitsChunk config) new
    parts : Parts patterns.is_space (drop start body) new

  loop_end :
      (body : Text) (fuel start : ℕ) (pieces : List Piece)
      → ltb start (length body) ≡ false
      → Completes body (suc fuel) start pieces
  unfolding split_loop
  loop_end body fuel start pieces e = record {
    new = [];
    result = rw e (ap ok (sym (append-nil pieces)));
    fits = tt;
    parts =
        subst (λ t. Parts patterns.is_space t []) (sym (drop_past start body (ltb→ge _ _ e)))
          no_parts;
  }

  loop_round :
      (body : Text) (fuel start end : ℕ) (pieces next : List Piece)
      → ltb start (length body) ≡ true
      → start < end
      → end_of patterns config body start
          (config.max_chars - length (prefix_for patterns config pieces))
        ≡ end
      → add_piece
          (prefix_for patterns config pieces)
          (strip patterns.is_space (take (end - start) (drop start body)))
          pieces
        ≡ next
      → IsAdded patterns.is_space config (take (end - start) (drop start body)) pieces next
      → Completes body fuel end next
      → Completes body (suc fuel) start pieces
  unfolding split_loop
  loop_round body fuel start end pieces next s l e a (nothing_added b) r =
      let res = r.result in
      record {
        new = r.new;
        result = rw s (rw e (rw a res));
        fits = r.fits;
        parts =
            blank (take (end - start) (drop start body)) (drop end body) (cut_lem body start end l)
              b r.parts;
      }
  loop_round body fuel start end pieces next s l e a (added piece f b) r =
      let res = r.result in
      record {
        new = piece ∷ r.new;
        result = rw s (rw e (rw a (res ∙ ap ok (append_assoc pieces (piece ∷ []) r.new))));
        fits = (f, r.fits);
        parts =
            chunk piece (take (end - start) (drop start body)) (drop end body)
              (cut_lem body start end l) b r.parts;
      }

  split_loop-Completes :
      (body : Text) (fuel start : ℕ) (pieces : List Piece)
      → length body - start < fuel
      → Completes body fuel start pieces
  split_loop-Completes body zero start pieces h = absurd (omega arith)
  split_loop-Completes body (suc fuel) start pieces h =
      by_test (ltb start (length body)) refl (λ k p l. split_loop-Completes body fuel k p l)
    where
      by_test :
          (b : Bool)
          → ltb start (length body) ≡ b
          → ((k : ℕ) (p : List Piece) → length body - k < fuel → Completes body fuel k p)
          → Completes body (suc fuel) start pieces
      by_test false e go = loop_end body fuel start pieces e
      by_test true e go =
          let prefix = prefix_for patterns config pieces in
          let i = prefix_for-IsPrefix patterns config pieces in
          let q = prefix-le config prefix i in
          let s : start < length body = ltb→lt _ _ e in
          let budget = config.max_chars - length prefix in
          let (a, b, c) =
            end_of_bounds patterns spans config body start budget s (omega (arith, q, valid)) in
          let end = end_of patterns config body start budget in
          let part = take (end - start) (drop start body) in
          let n = length-take (end - start) (drop start body) in
          let w : length prefix + length part ≤ config.max_chars = omega (arith, n, c, q, valid) in
          let next = add_piece prefix (strip patterns.is_space part) pieces in
          loop_round body fuel start end pieces next e a refl refl
            (add_piece-IsAdded patterns.is_space config prefix part pieces i w)
            (go end next (omega (arith, a, h, s)))

strip-strip : (p : ℕ → Bool) (s : Text) → strip p (strip p s) ≡ strip p s
strip-strip p s = strip_same p (strip p s) (strip-StartsOutside p s) (strip-EndsOutside p s)

-- Under a configuration that is accepted, and for patterns whose matches of white space end within
-- their text, every section is split: the loop ends, no chunk is longer than the limit or repeats
-- more than the overlap, and the section without white space at its ends is cut into parts, in
-- order, of which each without white space at its ends is the body of one chunk, unless it is blank.
pub split_section-Parts :
    (patterns : Patterns) (config : ChunkConfig)
    → HaveSpans patterns.space_ends
    → check_config config ≡ ok config
    → (text : Text)
    → (pieces : List Piece) × (split_section patterns config text ≡ ok pieces)
      × All (FitsChunk config) pieces
      × Parts patterns.is_space (strip patterns.is_space text) pieces
unfolding split_section
split_section-Parts patterns config spans c text = by_size (leb (length body) config.max_chars) refl
  where
    body : Text
    body = strip patterns.is_space text

    by_size :
        (b : Bool)
        → leb (length (strip patterns.is_space text)) config.max_chars ≡ b
        → (pieces : List Piece) × (split_section patterns config text ≡ ok pieces)
          × All (FitsChunk config) pieces
          × Parts patterns.is_space (strip patterns.is_space text) pieces
    by_size true e = (
      (strip patterns.is_space text, 0) ∷ [],
      rw e refl,
      (record { size = leb→le _ _ e; overlap = omega arith }, tt),
      chunk (strip patterns.is_space text, 0) (strip patterns.is_space text) []
          (sym (append-nil (strip patterns.is_space text)))
          (unfold body_of in sym (strip-strip patterns.is_space text)) no_parts,
    )
    by_size false e =
        let v = check_config-IsConfig config c in
        let l =
          split_loop-Completes patterns spans config v (strip patterns.is_space text)
            (suc (length (strip patterns.is_space text))) 0 [] (omega arith) in
        let r = l.result in (l.new, rw e r, l.fits, l.parts)
