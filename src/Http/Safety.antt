-- ===== src/Http/Safety.antt =====
-- `HTTPHostExtractor.extract` of dpi/sni_extractor.py on any bytes.
use python_deep_packet_inspe.Prelude.{
  ℕ, zero, suc, ◌+◌, ◌≤◌, ◌<◌, ◌≡◌, true, Option, List, arith, length, ok, is_ok, index-is_ok,
  is_ok-bind, value_of,
}
use python_deep_packet_inspe.Sni.{Name}
use python_deep_packet_inspe.Http.{
  byte_in, is_host_line, skip_blanks, find_line_end, host_value, find_host, extract,
}

module _ (payload : List ℕ) where
  pub byte_in-is_ok : (i a b : ℕ) → i < length payload → is_ok (byte_in payload i a b) ≡ true
  unfolding byte_in
  byte_in-is_ok i a b h = grind (arith, index-is_ok)

  is_host_line-is_ok : (i : ℕ) → i + 5 ≤ length payload → is_ok (is_host_line payload i) ≡ true
  unfolding is_host_line
  is_host_line-is_ok i h = grind (arith, byte_in-is_ok)

  skip_blanks-is_ok :
      (fuel n i : ℕ)
      → n < i + fuel
      → n ≤ length payload
      → is_ok (skip_blanks (suc fuel) payload n i) ≡ true
  unfolding skip_blanks
  skip_blanks-is_ok zero n i h l = grind (arith, byte_in-is_ok)
  skip_blanks-is_ok (suc fuel) n i h l = grind (arith, byte_in-is_ok, skip_blanks-is_ok fuel)

  find_line_end-is_ok :
      (fuel n i : ℕ)
      → n < i + fuel
      → n ≤ length payload
      → is_ok (find_line_end (suc fuel) payload n i) ≡ true
  unfolding find_line_end
  find_line_end-is_ok zero n i h l = grind (arith, byte_in-is_ok)
  find_line_end-is_ok (suc fuel) n i h l = grind (arith, byte_in-is_ok, find_line_end-is_ok fuel)

  -- The value begins where the header's name ends, or later.
  skip_blanks-le : (fuel n i start : ℕ) → skip_blanks (suc fuel) payload n i ≡ ok start → i ≤ start
  unfolding skip_blanks
  skip_blanks-le zero n i start e = grind (arith)
  skip_blanks-le (suc fuel) n i start e = grind (arith, skip_blanks-le fuel)

  host_value-is_ok : (n i : ℕ) → 0 < i → n ≤ length payload → is_ok (host_value payload n i) ≡ true
  unfolding host_value
  host_value-is_ok n i h l =
      is_ok-bind (skip_blanks (suc n) payload n i) _ (skip_blanks-is_ok n n i (omega arith) l)
        (λ start e. grind (arith, find_line_end-is_ok n n start, skip_blanks-le n n i start e))

  find_host-is_ok :
      (fuel n i : ℕ)
      → n < i + fuel + 6
      → n ≤ length payload
      → is_ok (find_host (suc fuel) payload n i) ≡ true
  unfolding find_host
  find_host-is_ok zero n i h l = grind (arith)
  find_host-is_ok (suc fuel) n i h l =
      grind (arith, is_host_line-is_ok, host_value-is_ok, find_host-is_ok fuel)

  pub extract-is_ok : (n : ℕ) → n ≤ length payload → is_ok (extract payload n) ≡ true
  unfolding extract
  extract-is_ok n h = ground (arith, find_host-is_ok n n 0)

  -- On any payload and any length within it the Host extractor returns: no byte is read out of
  -- range, and its loops end.
  pub http_extract-returns :
      (n : ℕ) → n ≤ length payload → (host : Option Name) × (extract payload n ≡ ok host)
  http_extract-returns n h = value_of (extract payload n) (extract-is_ok n h)
