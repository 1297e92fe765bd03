-- ===== src/Quic/Window.antt =====
-- What the scan of `QUICSNIExtractor.extract` of dpi/sni_extractor.py finds.
use python_deep_packet_inspe.Prelude.{
  ℕ_discrete, subst, ltb→lt, ◌⊎◌, inl, inr, ℕ, zero, suc, ◌+◌, ◌-◌, ◌<◌, ◌≤◌, ◌≡◌, Bool, true,
  false, Option, none, some, List, ok, index, index_ok, index-is_ok, value_of, drop, ltb, length,
  arith, is_ok, length-drop, refl, ◌==◌,
}
use python_deep_packet_inspe.Sni as Tls
use python_deep_packet_inspe.Sni.{Name}
use python_deep_packet_inspe.Sni.Safety as SniSafety
use python_deep_packet_inspe.Quic.{is_quic_initial, extract_at, scan, extract}

is_quic_initial-is_ok :
    (payload : List ℕ) (size : ℕ)
    → size ≤ length payload
    → is_ok (is_quic_initial payload size) ≡ true
unfolding is_quic_initial
is_quic_initial-is_ok payload size h = grind (arith, index-is_ok)

long : (payload : List ℕ) (size : ℕ) → is_quic_initial payload size ≡ ok true → 5 ≤ size
unfolding is_quic_initial
long payload size e = ground (arith, e)

-- The answer of a scan from `i`: nothing in any window, or the name in the first window with one.
pub data IsScanned (payload : List ℕ) (size i : ℕ) : Option Name → Type 0 where
  missing :
      ((j : ℕ) → i ≤ j → j + 50 < size → extract_at payload size j ≡ ok none)
      → IsScanned payload size i none
  found :
      {name : Name} (k : ℕ)
      → i ≤ k
      → k + 50 < size
      → extract_at payload size k ≡ ok (some name)
      → ((j : ℕ) → i ≤ j → j < k → extract_at payload size j ≡ ok none)
      → IsScanned payload size i (some name)

module _ (payload : List ℕ) (size : ℕ) (within : size ≤ length payload) where
  extract_at-returns :
      (i : ℕ) → 5 ≤ i → i < size → (name : Option Name) × (extract_at payload size i ≡ ok name)
  unfolding extract_at
  extract_at-returns i h l =
      let (b, e) = index_ok payload i (omega (arith, l, within)) in
      let d = length-drop (i - 5) payload in
      let (name, q) =
        SniSafety.extract-returns (drop (i - 5) payload) (size - i + 5)
          (omega (arith, d, h, l, within)) in
      by_kind b e name q (b == 1) refl
    where
      by_kind :
          (b : ℕ)
          → index payload i ≡ ok b
          → (name : Option Name) → Tls.extract (drop (i - 5) payload) (size - i + 5) ≡ ok name
          → (t : Bool) → (b == 1) ≡ t
          → (name : Option Name) × (extract_at payload size i ≡ ok name)
      by_kind b e name q true t = (name, ground (arith, e, q, t))
      by_kind b e name q false t = (none, ground (arith, e, t))

  nothing_first :
      (i : ℕ)
      → extract_at payload size i ≡ ok none
      → (name : Option Name) → IsScanned payload size (i + 1) name
      → IsScanned payload size i name
  nothing_first i e none (missing rest) = missing (λ j h l. elim (ℕ_discrete i j) [
    | yes same ↦ subst (λ k. extract_at payload size k ≡ ok none) same e
    | no n ↦ rest j (grind (arith, n, h)) l
  ])
  nothing_first i e (some name) (found k h l q before) = found k (omega (arith, h)) l q (λ j g m.
      elim (ℕ_discrete i j) [
        | yes same ↦ subst (λ k. extract_at payload size k ≡ ok none) same e
        | no n ↦ before j (grind (arith, n, g)) m
      ])

  scan-IsScanned :
      (fuel i : ℕ)
      → 5 ≤ i
      → i ≤ size
      → size < fuel + i
      → (name : Option Name) × (scan fuel payload size i ≡ ok name) × IsScanned payload size i name
  unfolding scan
  scan-IsScanned zero i h g l = absurd (omega (arith, g, l))
  scan-IsScanned (suc fuel) i h g l =
      by_end (ltb (i + 50) size) refl
        (λ m. scan-IsScanned fuel (i + 1) (omega (arith, h)) (omega (arith, m)) (omega (arith, l)))
    where
      by_found :
          (r : Option Name)
          → ltb (i + 50) size ≡ true
          → extract_at payload size i ≡ ok r
          → (i + 50 < size
              → (name : Option Name) × (scan fuel payload size (i + 1) ≡ ok name)
                × IsScanned payload size (i + 1) name)
          → (name : Option Name) × (scan (suc fuel) payload size i ≡ ok name)
            × IsScanned payload size i name
      by_found (some name) t e go = (
        some name,
        rw t (rw e refl),
        found i (omega arith) (ltb→lt (i + 50) size t) e (λ j g m. absurd (omega (arith, g, m))),
      )
      by_found none t e go =
          let m = ltb→lt (i + 50) size t in
          let (name, q, r) = go m in (name, rw t (rw e q), nothing_first i e name r)

      by_end :
          (b : Bool)
          → ltb (i + 50) size ≡ b
          → (i + 50 < size
              → (name : Option Name) × (scan fuel payload size (i + 1) ≡ ok name)
                × IsScanned payload size (i + 1) name)
          → (name : Option Name) × (scan (suc fuel) payload size i ≡ ok name)
            × IsScanned payload size i name
      by_end false t go = (none, rw t refl, missing (λ j g m. absurd (grind (arith, t, g, m))))
      by_end true t go =
          let m = ltb→lt (i + 50) size t in
          let (r, e) = extract_at-returns i h (omega (arith, m)) in by_found r t e go

-- For a length within the payload the extractor returns: nothing when the packet is no Initial of
-- QUIC, and otherwise the name in the first window with one, of those that begin at a byte of the
-- payload and whose Client Hello byte has more than fifty bytes from it on, or nothing without one.
pub extract-IsScanned :
    (payload : List ℕ) (size : ℕ)
    → size ≤ length payload
    → (initial : Bool) × (is_quic_initial payload size ≡ ok initial)
      × (name : Option Name) × (extract payload size ≡ ok name)
      × (((initial ≡ false) × (name ≡ none)) ⊎ ((initial ≡ true) × IsScanned payload size 5 name))
unfolding extract
extract-IsScanned payload size within = let (initial, e) = initial_ok in by_initial initial e
  where
    initial_ok : (initial : Bool) × (is_quic_initial payload size ≡ ok initial)
    initial_ok = value_of (is_quic_initial payload size) (is_quic_initial-is_ok payload size within)

    by_initial :
        (initial : Bool)
        → is_quic_initial payload size ≡ ok initial
        → (initial : Bool) × (is_quic_initial payload size ≡ ok initial)
          × (name : Option Name) × (extract payload size ≡ ok name)
          × (((initial ≡ false) × (name ≡ none))
              ⊎ ((initial ≡ true) × IsScanned payload size 5 name))
    by_initial false e = (false, e, none, rw e refl, inl (refl, refl))
    by_initial true e =
        let (name, q, r) =
          scan-IsScanned payload size within (suc size) 5 (omega arith) (long payload size e)
            (omega arith) in
        (true, e, name, rw e q, inr (refl, r))
