-- ===== src/Working/Safety.antt =====
-- That a turn of main_working.py never raises, and what it does to the flow, the counters and the
-- output.
use python_deep_packet_inspe.Prelude.{
  ℕ, ◌+◌, ◌-◌, ◌*◌, ◌%◌, ◌≡◌, refl, inl, inr, true, Option, none, some, List, arith, length, drop,
  length-drop, ltb, ltb→lt, Bool-cases, ok, index, index_ok, is_ok, value_of, is_ok-bind,
}
use python_deep_packet_inspe.Sni.Safety as SniSafety
use python_deep_packet_inspe.Http.Safety as HttpSafety
use python_deep_packet_inspe.Working.{
  tcp_payload, sni_at, host_at, try_sni, try_host, classify, Flow, ParsedPacket,
}

module _ (bytes : List ℕ) where
  sni_at-is_ok : (offset : Option ℕ) → is_ok (sni_at bytes offset) ≡ true
  unfolding sni_at
  sni_at-is_ok none = refl
  sni_at-is_ok (some o) =
      let l = length-drop o bytes in
      let (n, e) = SniSafety.extract-returns (drop o bytes) (length bytes - o) (omega (arith, l)) in
      ground (arith, e)

  host_at-is_ok : (offset : Option ℕ) → is_ok (host_at bytes offset) ≡ true
  unfolding host_at
  host_at-is_ok none = refl
  host_at-is_ok (some o) =
      let l = length-drop o bytes in
      HttpSafety.extract-is_ok (drop o bytes) (length bytes - o) (omega (arith, l))

  tcp_payload-is_ok : (v : ℕ) → index bytes 14 ≡ ok v → is_ok (tcp_payload bytes) ≡ true
  unfolding tcp_payload
  tcp_payload-is_ok v e =
      let start = 14 + v % 16 * 4 in
      elim (Bool-cases (ltb (start + 12) (length bytes))) [
        | inl t ↦ let (d, f) = index_ok bytes (start + 12) (ltb→lt _ _ t) in rw e (rw t (rw f refl))
        | inr f ↦ rw e (rw f refl)
      ]

  module _ (parsed : ParsedPacket) (v : ℕ) (first : index bytes 14 ≡ ok v) where
    try_sni-is_ok : (flow : Flow) → is_ok (try_sni parsed bytes flow) ≡ true
    unfolding try_sni
    try_sni-is_ok flow = grind (arith, tcp_payload-is_ok v first, sni_at-is_ok)

    try_host-is_ok : (flow : Flow) → is_ok (try_host parsed bytes flow) ≡ true
    unfolding try_host
    try_host-is_ok flow = grind (arith, tcp_payload-is_ok v first, host_at-is_ok)

    pub classify-returns : (flow : Flow) → (flow' : Flow) × (classify parsed bytes flow ≡ ok flow')
    unfolding classify
    classify-returns flow =
        value_of (classify parsed bytes flow)
          (is_ok-bind _ _ (try_sni-is_ok flow) λ a _. is_ok-bind _ _ (try_host-is_ok a) λ b _. refl)
