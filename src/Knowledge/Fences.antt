-- ===== src/Knowledge/Fences.antt =====
-- That `_neutralise_fences` of ai/rag/context.py leaves nothing that looks like a delimiter.
use python_deep_packet_inspe.Prelude.{
  ◌↔◌, subst, ℕ, zero, suc, ◌+◌, ◌≤◌, ◌≡◌, ◌≢◌, refl, sym, ap, ap₂, ◌∙◌, inl, inr, Bool, true,
  false, ◌&&◌, [], ◌∷◌, ◌++◌, append-nil, append_assoc, arith, replicate, ltb, ◌==◌, if◌then◌else◌,
  ==_iff, Bool-cases,
}
use python_deep_packet_inspe.Knowledge.{Text, spaced, flush, neutralise, neutralise_fences}

-- Five equals signs, which every delimiter begins with.
abbrev pub fence : Text
fence = replicate 5 b'='

-- No run of `=` reaches five, after a run of `n`.
calm : ℕ → Text → Bool
calm n [] = ltb n 5
calm n (c ∷ text) =
    let rest = calm (if c == b'=' then n + 1 else 0) text in
    if c == b'=' then rest else ltb n 5 && rest

not_calm : (n : ℕ) (text : Text) → 5 ≤ n → calm n text ≡ false
unfolding calm
not_calm n [] h = ground (arith, h)
not_calm n (c ∷ text) h = ground (arith, h, not_calm (n + 1) text)

fence-not_calm : (n : ℕ) (pre post : Text) → calm n (pre ++ (fence ++ post)) ≡ false
unfolding calm
fence-not_calm n [] post = not_calm _ post (omega arith)
fence-not_calm n (c ∷ pre) post =
    ground (arith, fence-not_calm (n + 1) pre post, fence-not_calm 0 pre post)

calm-replicate :
    (m n : ℕ) (c : ℕ) (text : Text)
    → c ≢ b'='
    → calm m (replicate n b'=' ++ c ∷ text) ≡ (ltb (m + n) 5 && calm 0 text)
unfolding calm
calm-replicate m zero c text h = ground (arith, h)
calm-replicate m (suc n) c text h = ground (arith, calm-replicate (m + 1) n c text h)

calm-spaced : (n : ℕ) (c : ℕ) (text : Text) → c ≢ b'=' → calm 0 (spaced n ++ c ∷ text) ≡ calm 0 text
unfolding calm spaced
calm-spaced zero c text h = ground (arith, h)
calm-spaced (suc zero) c text h = ground (arith, h)
calm-spaced (suc (suc n)) c text h = ground (arith, calm-spaced (suc n) c text h)

calm-flush : (n : ℕ) (c : ℕ) (text : Text) → c ≢ b'=' → calm 0 (flush n ++ c ∷ text) ≡ calm 0 text
unfolding flush
calm-flush n c text h = ground (arith, calm-replicate 0 n c text h, calm-spaced n c text h)

calm-replicate_end : (m n : ℕ) → calm m (replicate n b'=') ≡ ltb (m + n) 5
unfolding calm
calm-replicate_end m zero = ground arith
calm-replicate_end m (suc n) = ground (arith, calm-replicate_end (m + 1) n)

calm-spaced_end : (n : ℕ) → calm 0 (spaced n) ≡ true
unfolding calm spaced
calm-spaced_end zero = refl
calm-spaced_end (suc zero) = refl
calm-spaced_end (suc (suc n)) = ground (arith, calm-spaced_end (suc n))

calm-flush_end : (n : ℕ) → calm 0 (flush n) ≡ true
unfolding flush
calm-flush_end n = ground (arith, calm-replicate_end 0 n, calm-spaced_end n)

neutralise-calm : (n : ℕ) (text : Text) → calm 0 (neutralise n text) ≡ true
unfolding neutralise
neutralise-calm n [] = calm-flush_end n
neutralise-calm n (c ∷ text) = ground (
  arith,
  neutralise-calm (n + 1) text,
  neutralise-calm 0 text,
  λ (h : c ≢ b'='). calm-flush n c (neutralise 0 text) h,
)

replicate-cons :
    (n : ℕ) (text : Text) → replicate n b'=' ++ b'=' ∷ text ≡ replicate (suc n) b'=' ++ text
replicate-cons zero text = refl
replicate-cons (suc n) text = ap (◌∷◌ b'=') (replicate-cons n text)

calm-neutralise :
    (n : ℕ) (text : Text) → calm n text ≡ true → neutralise n text ≡ replicate n b'=' ++ text
unfolding calm neutralise flush
calm-neutralise n [] h = ground (arith, h, append-nil {A = ℕ} (replicate n b'='))
calm-neutralise n (c ∷ text) h =
    ground (arith, h, calm-neutralise (n + 1) text, calm-neutralise 0 text, replicate-cons n text)

-- Where the runs of `=` end up as five there is a fence.
find_fence :
    (n : ℕ) (text : Text)
    → n ≤ 4
    → calm n text ≡ false
    → (pre post : Text) × (replicate n b'=' ++ text ≡ pre ++ (fence ++ post))
unfolding calm
find_fence n [] l h = absurd (ground (arith, l, h))
find_fence n (c ∷ text) l h =
    by_char (c == b'=') (n == 4) refl refl (λ k l h. find_fence k text l h)
  where
    by_char :
        (b u : Bool)
        → (c == b'=') ≡ b
        → (n == 4) ≡ u
        → ((k : ℕ)
            → k ≤ 4
            → calm k text ≡ false
            → (pre post : Text) × (replicate k b'=' ++ text ≡ pre ++ (fence ++ post)))
        → (pre post : Text) × (replicate n b'=' ++ c ∷ text ≡ pre ++ (fence ++ post))
    by_char true true ec en go = (
      [],
      text,
      ap₂ (λ k d. replicate k b'=' ++ d ∷ text) ((==_iff n 4).0 en) ((==_iff c b'=').0 ec),
    )
    by_char true false ec en go =
        let (pre, post, e) = go (n + 1) (ground (arith, l, en)) (ground (arith, h, ec)) in
        let next : suc n ≡ n + 1 = omega arith in
        (
          pre,
          post,
          ap (λ d. replicate n b'=' ++ d ∷ text) ((==_iff c b'=').0 ec)
              ∙ replicate-cons n text
              ∙ ap (λ k. replicate k b'=' ++ text) next
              ∙ e,
        )
    by_char false u ec en go =
        let (pre, post, e) = go 0 (omega arith) (ground (arith, h, ec, l)) in
        (
          replicate n b'=' ++ c ∷ pre,
          post,
          ap (λ t. replicate n b'=' ++ c ∷ t) e
              ∙ sym (append_assoc (replicate n b'=') (c ∷ pre) (fence ++ post)),
        )

-- No five equals signs stand in a row.
abbrev pub NoFence : Text → Type 0
NoFence text = (pre post : Text) → text ≢ pre ++ (fence ++ post)

-- A text that went through `_neutralise_fences` has no five equals signs in a row.
neutralise_fences-NoFence : (text : Text) → NoFence (neutralise_fences text)
unfolding neutralise_fences
neutralise_fences-NoFence text pre post e =
    let c = neutralise-calm 0 text in
    let b : true ≡ false = sym c ∙ ap (calm 0) e ∙ fence-not_calm 0 pre post in cc

-- A text without five equals signs in a row goes through `_neutralise_fences` unchanged.
neutralise_fences-same : (text : Text) → NoFence text → neutralise_fences text ≡ text
unfolding neutralise_fences
neutralise_fences-same text h = elim (Bool-cases (calm 0 text)) [
  | inl c ↦ calm-neutralise 0 text c
  | inr c ↦ let (pre, post, e) = find_fence 0 text (omega arith) c in absurd (h pre post e)
]

-- A text that went through `_neutralise_fences` has no five equals signs in a row, and a text goes
-- through unchanged exactly when it has none.
pub neutralise_fences-same_iff :
    (text : Text)
    → NoFence (neutralise_fences text) × ((neutralise_fences text ≡ text) ↔ NoFence text)
neutralise_fences-same_iff text =
    let clean = neutralise_fences-NoFence text in
    (clean, ((λ e. subst NoFence e clean), neutralise_fences-same text))
