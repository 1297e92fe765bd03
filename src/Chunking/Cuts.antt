-- ===== src/Chunking/Cuts.antt =====
-- Where `_split_section` of ai/rag/chunking.py cuts, and what it puts before a chunk.
use python_deep_packet_inspe.Prelude.{
  ℕ, ◌+◌, ◌-◌, ◌≤◌, ◌<◌, max, ◌≡◌, refl, subst, Bool, true, false, ◌&&◌, Option, none, some, List,
  [], ◌∷◌, arith, length, take, drop, All, length-take, ltb, leb, ◌==◌, if◌then◌else◌, on_branches,
}
use python_deep_packet_inspe.Chunking.{
  Text, Patterns, ChunkConfig, Boundaries, in_window, largest, best_rank, best_cut, last_of,
  hard_cut, cut_of, end_of, boundaries_of, paragraph, list_item, sentence,
}

-- A match ends within its text.
abbrev pub HaveSpans : (Text → List ℕ) → Type 0
HaveSpans ends = (text : Text) → All (λ e. e ≤ length text) (ends text)

abbrev IsIn : ℕ → ℕ → ℕ → Type 0
IsIn start limit cut = (start < cut) × (cut ≤ limit)

in_window-All :
    (start limit : ℕ) (found : Boundaries)
    → All (λ b. IsIn start limit b.0) (in_window start limit found)
unfolding in_window
in_window-All start limit [] = tt
in_window-All start limit ((offset, rank) ∷ found) =
    by_test (ltb start offset && leb offset limit) refl (in_window-All start limit found)
  where
    by_test :
        (b : Bool)
        → (ltb start offset && leb offset limit) ≡ b
        → All (λ b. IsIn start limit b.0) (in_window start limit found)
        → All
            (λ b. IsIn start limit b.0)
            (if b
              then (offset, rank) ∷ in_window start limit found
              else in_window start limit found)
    by_test true e h = ((ground (arith, e), ground (arith, e)), h)
    by_test false e h = h

module _ (start limit rank : ℕ) where
  -- A cut is one of the boundaries.
  largest-IsIn :
      (least cut : ℕ) (found : Boundaries)
      → All (λ b. IsIn start limit b.0) found
      → largest rank least found ≡ some cut
      → IsIn start limit cut
  unfolding largest
  largest-IsIn least cut [] h e = cc
  largest-IsIn least cut ((offset, r) ∷ found) h e =
      by_test (r == rank && leb least offset) (largest rank least found)
        (λ c. largest-IsIn least c found h.1) e
    where
      by_test :
          (b : Bool) (rest : Option ℕ)
          → ((c : ℕ) → rest ≡ some c → IsIn start limit c)
          → (if b
              then (elim rest [ none ↦ some offset | some best ↦ some (max offset best) ])
              else rest)
            ≡ some cut
          → IsIn start limit cut
      by_test true none go e =
          let f : offset ≡ cut = ground (arith, e) in subst (IsIn start limit) f h.0
      by_test true (some best) go e =
          let (a, b) = go best refl in
          let (c, d) = h.0 in
          let f : max offset best ≡ cut = ground (arith, e) in
          subst (IsIn start limit) f (omega (arith, a, c), omega (arith, b, d))
      by_test false rest go e = go cut e

pick :
    (start limit cut : ℕ) (o next : Option ℕ)
    → ((c : ℕ) → o ≡ some c → IsIn start limit c)
    → (next ≡ some cut → IsIn start limit cut)
    → (elim o [ some c ↦ some c | none ↦ next ]) ≡ some cut
    → IsIn start limit cut
pick start limit cut none next f g e = g e
pick start limit cut (some c) next f g e = f cut e

best_cut-IsIn :
    (found : Boundaries) (start limit min_fill cut : ℕ)
    → best_cut found start limit min_fill ≡ some cut
    → IsIn start limit cut
unfolding best_cut
best_cut-IsIn found start limit min_fill cut =
    let w = in_window start limit found in
    let h = in_window-All start limit found in
    let least = start + min_fill in
    pick start limit cut (largest paragraph least w) _
      (λ c. largest-IsIn start limit paragraph least c w h)
      (pick start limit cut (largest list_item least w) _
        (λ c. largest-IsIn start limit list_item least c w h)
        (pick start limit cut (largest sentence least w) _
          (λ c. largest-IsIn start limit sentence least c w h) (by_window w h)))
  where
    by_window :
        (w : Boundaries)
        → All (λ b. IsIn start limit b.0) w
        → (elim w [
          | [] ↦ none
          | (offset, rank) ∷ rest ↦ largest (best_rank rank rest) 0 ((offset, rank) ∷ rest)
        ])
          ≡ some cut
        → IsIn start limit cut
    by_window [] h e = cc
    by_window ((offset, rank) ∷ rest) h e =
        largest-IsIn start limit (best_rank rank rest) 0 cut ((offset, rank) ∷ rest) h e

last_of-All :
    {A : Type 0} (P : A → Type 0) (xs : List A) (x : A) → All P xs → last_of xs ≡ some x → P x
unfolding last_of
last_of-All P [] x h e = cc
last_of-All P (y ∷ []) x h e = let f : y ≡ x = cc in subst P f h.0
last_of-All P (y ∷ z ∷ xs) x h e = last_of-All P (z ∷ xs) x h.1 e

module _ (patterns : Patterns) (spans : HaveSpans patterns.space_ends) where
  hard_cut-le :
      (text : Text) (start limit : ℕ)
      → start ≤ limit
      → limit ≤ length text
      → hard_cut patterns text start limit ≤ limit
  unfolding hard_cut
  hard_cut-le text start limit h l = by_last (last_of (patterns.space_ends window)) refl
    where
      window : Text
      window = take (limit - start) (drop start text)

      by_last :
          (o : Option ℕ)
          → last_of (patterns.space_ends (take (limit - start) (drop start text))) ≡ o
          → (elim o [ none ↦ limit | some end ↦ if ltb 0 end then start + end else limit ]) ≤ limit
      by_last none e = omega arith
      by_last (some end) e =
          let w = take (limit - start) (drop start text) in
          let b : end ≤ length w =
            last_of-All (λ x. x ≤ length w) (patterns.space_ends w) end (spans w) e in
          let n = length-take (limit - start) (drop start text) in
          let c : start + end ≤ limit = omega (arith, b, n, h) in
          on_branches (λ x. x ≤ limit) (ltb 0 end) c (omega arith)

  -- A round ends after it began, within the text and within the budget.
  pub end_of_bounds :
      (config : ChunkConfig) (body : Text) (start budget : ℕ)
      → start < length body
      → 0 < budget
      → (start < end_of patterns config body start budget)
        × (end_of patterns config body start budget ≤ length body)
        × (end_of patterns config body start budget ≤ start + budget)
  unfolding end_of
  end_of_bounds config body start budget s b =
      by_rest (leb (length body - start) budget) refl
        (cut_of
          (best_cut (boundaries_of patterns body) start (start + budget) config.min_fill_chars)
          (hard_cut patterns body start (start + budget)))
        (λ l.
          cut_le
            (best_cut (boundaries_of patterns body) start (start + budget) config.min_fill_chars)
            refl l)
    where
      cut_le :
          (o : Option ℕ)
          → best_cut (boundaries_of patterns body) start (start + budget) config.min_fill_chars ≡ o
          → start + budget ≤ length body
          → cut_of o (hard_cut patterns body start (start + budget)) ≤ start + budget
      cut_le none e l = unfold cut_of in hard_cut-le body start (start + budget) (omega arith) l
      cut_le (some cut) e l =
          unfold cut_of in
          (best_cut-IsIn (boundaries_of patterns body) start (start + budget) config.min_fill_chars
            cut e).1

      by_rest :
          (t : Bool)
          → leb (length body - start) budget ≡ t
          → (end : ℕ) → (start + budget ≤ length body → end ≤ start + budget)
          → (start < (if t then length body else if leb end start then start + budget else end))
            × ((if t then length body else if leb end start then start + budget else end)
                ≤ length body)
            × ((if t then length body else if leb end start then start + budget else end)
                ≤ start + budget)
      by_rest true e end f = (s, omega arith, ground (arith, e))
      by_rest false e end f =
          let l : start + budget ≤ length body = ground (arith, e) in
          let g = f l in (ground (arith, s, b, g), ground (arith, g, l), ground (arith, g))
