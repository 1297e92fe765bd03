-- ===== src/Http/Anchor.antt =====
-- Which Host header `HTTPHostExtractor.extract` of dpi/sni_extractor.py takes.
use python_deep_packet_inspe.Prelude.{
  ℕ, zero, suc, ◌+◌, ◌-◌, ◌≡◌, ◌⊎◌, inl, inr, true, some, List, arith, ◌==◌, Bool-cases, ok,
}
use python_deep_packet_inspe.Sni.{Name}
use python_deep_packet_inspe.Http.{
  is_http_request, byte_in, is_host_line, host_value, find_host, extract,
}

-- The position is the start of the payload, or just after a CR or LF.
abbrev pub StartsLine : List ℕ → ℕ → Type 0
StartsLine payload i = (i ≡ 0) ⊎ (byte_in payload (i - 1) 0x0A 0x0D ≡ ok true)

module _ (payload : List ℕ) where
  is_host_line-StartsLine : (i : ℕ) → is_host_line payload i ≡ ok true → StartsLine payload i
  unfolding is_host_line
  is_host_line-StartsLine i h = elim (Bool-cases (i == 0)) [
    | inl e ↦ inl (ground (arith, e))
    | inr e ↦ inr (ground (arith, e, h))
  ]

  found_here :
      (fuel n i : ℕ) (host : Name)
      → find_host (suc fuel) payload n i ≡ ok (some host)
      → ((is_host_line payload i ≡ ok true) × (host_value payload n (i + 5) ≡ ok (some host)))
        ⊎ (find_host fuel payload n (i + 1) ≡ ok (some host))
  unfolding find_host
  found_here fuel n i host h = ground (arith, h)

  find_host-value :
      (fuel n i : ℕ) (host : Name)
      → find_host fuel payload n i ≡ ok (some host)
      → (k : ℕ) × StartsLine payload k
        × (is_host_line payload k ≡ ok true)
        × (host_value payload n (k + 5) ≡ ok (some host))
  unfolding find_host
  find_host-value zero n i host h = cc
  find_host-value (suc fuel) n i host h = elim (found_here fuel n i host h) [
    | inl (line, value) ↦ (i, is_host_line-StartsLine i line, line, value)
    | inr later ↦ find_host-value fuel n (i + 1) host later
  ]

  -- A host that the extractor returns is the value of a Host header at the start of a line of a
  -- request: never of a field whose name only ends with "host:", such as X-Forwarded-Host.
  pub extract-StartsLine :
      (n : ℕ) (host : Name)
      → extract payload n ≡ ok (some host)
      → (is_http_request payload n ≡ true)
        × (k : ℕ) × StartsLine payload k
        × (is_host_line payload k ≡ ok true)
        × (host_value payload n (k + 5) ≡ ok (some host))
  unfolding extract
  extract-StartsLine n host h =
      let (k, starts, line, value) = find_host-value (suc n) n 0 host (ground (arith, h)) in
      (ground (arith, h), k, starts, line, value)
