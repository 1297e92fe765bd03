-- ===== src/Sni/Safety.antt =====
-- Memory safety and termination of `SNIExtractor.extract` and `extract_extensions` of
-- dpi/sni_extractor.py: whatever the bytes, no read is out of range and the loops end.
use python_deep_packet_inspe.Prelude.{
  ℕ, zero, suc, ◌+◌, ◌≤◌, ◌<◌, ◌≡◌, refl, true, false, Option, none, some, List, length, ok, is_ok,
  value_of, index-is_ok, arith, is_ok-bind,
}
use python_deep_packet_inspe.Sni.{
  Name, read_uint16_be, read_uint24_be, is_tls_client_hello, extension_bounds, read_sni_extension,
  sni_if, find_sni, walk_sni, extract, list_extensions, walk_extensions, extract_extensions,
}

module _ (payload : List ℕ) where
  pub read_uint16_be-is_ok :
      (offset : ℕ) → offset + 1 < length payload → is_ok (read_uint16_be payload offset) ≡ true
  unfolding read_uint16_be
  read_uint16_be-is_ok offset h = grind (arith, index-is_ok)

  pub read_uint24_be-is_ok :
      (offset : ℕ) → offset + 2 < length payload → is_ok (read_uint24_be payload offset) ≡ true
  unfolding read_uint24_be
  read_uint24_be-is_ok offset h = grind (arith, index-is_ok)

  pub is_tls_client_hello-is_ok :
      (n : ℕ) → n ≤ length payload → is_ok (is_tls_client_hello payload n) ≡ true
  unfolding is_tls_client_hello
  is_tls_client_hello-is_ok n h = grind (arith, index-is_ok, read_uint16_be-is_ok)

  -- A hello has nine bytes at least.
  pub hello_long : (n : ℕ) → is_tls_client_hello payload n ≡ ok true → 9 ≤ n
  unfolding is_tls_client_hello
  hello_long n h = ground arith

  pub extension_bounds-is_ok :
      (n : ℕ) → n ≤ length payload → is_ok (extension_bounds payload n) ≡ true
  unfolding extension_bounds
  extension_bounds-is_ok n h = grind (arith, index-is_ok, read_uint16_be-is_ok)

  -- The extensions end within the payload.
  pub extension_bounds-le : (n o e : ℕ) → extension_bounds payload n ≡ ok (some (o, e)) → e ≤ n
  unfolding extension_bounds
  extension_bounds-le n o e h = ground arith

  extension_bounds-start : (n o e : ℕ) → extension_bounds payload n ≡ ok (some (o, e)) → 0 < o
  unfolding extension_bounds
  extension_bounds-start n o e h = ground arith

  read_sni_extension-is_ok :
      (o l : ℕ) → o + l ≤ length payload → is_ok (read_sni_extension payload o l) ≡ true
  unfolding read_sni_extension
  read_sni_extension-is_ok o l h = grind (arith, read_uint16_be-is_ok, index-is_ok)

  sni_if-is_ok : (t o l : ℕ) → o + l ≤ length payload → is_ok (sni_if t payload o l) ≡ true
  unfolding sni_if
  sni_if-is_ok t o l h = ground (arith, read_sni_extension-is_ok o l)

  find_sni-is_ok :
      (fuel o e : ℕ)
      → e < o + fuel
      → e ≤ length payload
      → is_ok (find_sni (suc fuel) payload o e) ≡ true
  unfolding find_sni
  find_sni-is_ok zero o e enough h = ground arith
  find_sni-is_ok (suc fuel) o e enough h =
      grind (arith, read_uint16_be-is_ok, sni_if-is_ok, find_sni-is_ok fuel)

  walk_sni-is_ok :
      (n : ℕ) (bounds : Option (ℕ × ℕ))
      → n ≤ length payload
      → extension_bounds payload n ≡ ok bounds
      → is_ok (walk_sni payload bounds) ≡ true
  unfolding walk_sni
  walk_sni-is_ok n none h e = refl
  walk_sni-is_ok n (some (o, end)) h e =
      let inside = extension_bounds-le n o end e in
      find_sni-is_ok end o end (omega (arith, extension_bounds-start n o end e)) (omega arith)

  list_extensions-is_ok :
      (fuel o e : ℕ)
      → e < o + fuel
      → e ≤ length payload
      → is_ok (list_extensions (suc fuel) payload o e) ≡ true
  unfolding list_extensions
  list_extensions-is_ok zero o e enough h = ground arith
  list_extensions-is_ok (suc fuel) o e enough h =
      grind (arith, read_uint16_be-is_ok, list_extensions-is_ok fuel)

  pub walk_extensions-is_ok :
      (n : ℕ) (bounds : Option (ℕ × ℕ))
      → n ≤ length payload
      → extension_bounds payload n ≡ ok bounds
      → is_ok (walk_extensions payload bounds) ≡ true
  unfolding walk_extensions
  walk_extensions-is_ok n none h e = refl
  walk_extensions-is_ok n (some (o, end)) h e =
      let inside = extension_bounds-le n o end e in
      list_extensions-is_ok end o end (omega (arith, extension_bounds-start n o end e))
        (omega arith)

  -- For a `length` within the payload, whatever its bytes, `extract` returns: it reads no byte out
  -- of range, and its loop ends.
  pub extract-returns :
      (n : ℕ) → n ≤ length payload → (name : Option Name) × (extract payload n ≡ ok name)
  unfolding extract
  extract-returns n h = value_of _ (
      is_ok-bind _ _ (is_tls_client_hello-is_ok n h) (elim [
        | false ↦ λ _. refl
        | true ↦ λ hello.
            let long = hello_long n hello in
            is_ok-bind _ _ (read_uint24_be-is_ok 6 (omega arith)) λ _ _.
              is_ok-bind _ _ (extension_bounds-is_ok n h) λ bounds e. walk_sni-is_ok n bounds h e
      ]))

  pub extract_extensions-returns :
      (n : ℕ)
      → n ≤ length payload
      → (found : List (ℕ × List ℕ)) × (extract_extensions payload n ≡ ok found)
  unfolding extract_extensions
  extract_extensions-returns n h = value_of _ (
      is_ok-bind _ _ (is_tls_client_hello-is_ok n h) (elim [
        | false ↦ λ _. refl
        | true ↦ λ hello.
            is_ok-bind _ _ (extension_bounds-is_ok n h)
              λ bounds e. is_ok-bind _ _ (walk_extensions-is_ok n bounds h e) λ _ _. refl
      ]))
