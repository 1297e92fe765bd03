-- ===== src/Sni/ClientHello.antt =====
-- `create_tls_client_hello` of generate_test_pcap.py, and that `extract` reads its name back.
-- `struct.pack` raises `struct_error` for a number that does not fit. The random bytes are an
-- argument; `sni` is the bytes of an ASCII name.
use python_deep_packet_inspe.Prelude.{
  drop-drop, drop-append, take-append, take_all, ℕ, suc, ◌+◌, ◌*◌, ◌<◌, ◌^◌, ◌/◌, ◌%◌, ◌≡◌, refl,
  bit_or, ap, sym, ◌∙◌, true, some, List, [], ◌∷◌, ◌++◌, length, length-append, take, drop, Py, ok,
  raise, struct_error, get_elem?, ltb, lt→ltb, if◌then◌else◌, ◌>>=◌, arith, get_elem?-append_right,
}
use python_deep_packet_inspe.Prelude.Bits.{bit_or_high}
use python_deep_packet_inspe.Sni.Extensions.{server_name, sni_if-server_name}
use python_deep_packet_inspe.Sni.{
  read_uint16_be, read_uint24_be, is_tls_client_hello, extension_bounds, sni_if, find_sni, walk_sni,
  extract,
}

-- `struct.pack('>H', n)`.
unfoldable pub pack_uint16 : ℕ → Py (List ℕ)
pack_uint16 n = if ltb n (2 ^ 16) then ok (n / 2 ^ 8 ∷ n % 2 ^ 8 ∷ []) else raise struct_error

-- `struct.pack('>I', n)[1:]`.
unfoldable pub pack_uint24 : ℕ → Py (List ℕ)
pack_uint24 n =
    if ltb n (2 ^ 32)
    then ok (n / 2 ^ 16 % 2 ^ 8 ∷ n / 2 ^ 8 % 2 ^ 8 ∷ n % 2 ^ 8 ∷ [])
    else raise struct_error

unfoldable pub create_tls_client_hello : List ℕ → List ℕ → Py (List ℕ)
create_tls_client_hello random_bytes sni = do
  sni_length ← pack_uint16 (length sni)
  let sni_entry = 0 ∷ sni_length ++ sni
  entry_length ← pack_uint16 (length sni_entry)
  let sni_list = entry_length ++ sni_entry
  list_length ← pack_uint16 (length sni_list)
  let sni_ext = 0 ∷ 0 ∷ list_length ++ sni_list
  let supported_versions = 0 ∷ 0x2b ∷ 0 ∷ 3 ∷ 2 ∷ 3 ∷ 4 ∷ []
  let extensions = sni_ext ++ supported_versions
  extensions_length ← pack_uint16 (length extensions)
  let body =
      3 ∷ 3 ∷ random_bytes
      ++ (0 ∷ 0 ∷ 4 ∷ 0x13 ∷ 1 ∷ 0x13 ∷ 2 ∷ 1 ∷ 0 ∷ extensions_length ++ extensions)
  body_length ← pack_uint24 (length body)
  let handshake = 1 ∷ body_length ++ body
  handshake_length ← pack_uint16 (length handshake)
  ok (0x16 ∷ 3 ∷ 1 ∷ handshake_length ++ handshake)

abbrev uint16 : ℕ → List ℕ
uint16 n = n / 2 ^ 8 ∷ n % 2 ^ 8 ∷ []

pack_uint16_fits : (m n : ℕ) → m ≡ n → n < 2 ^ 16 → pack_uint16 m ≡ ok (uint16 n)
unfolding pack_uint16
pack_uint16_fits m n e h = rw e (rw (lt→ltb n (2 ^ 16) h))

pack_uint24_fits : (m n : ℕ) → m ≡ n → n < 2 ^ 16 → pack_uint24 m ≡ ok (0 ∷ uint16 n)
unfolding pack_uint24
pack_uint24_fits m n e h = rw e (rw (lt→ltb n (2 ^ 32) (omega arith)) (ground arith))

join_uint16 : (n : ℕ) → bit_or (n / 2 ^ 8 * 2 ^ 8) (n % 2 ^ 8) ≡ n
join_uint16 n = omega (arith, bit_or_high 8 (n / 2 ^ 8) (n % 2 ^ 8) (omega arith))

module _ (random_bytes sni : List ℕ) where
  abbrev supported_versions : List ℕ
  supported_versions = 0 ∷ 0x2b ∷ 0 ∷ 3 ∷ 2 ∷ 3 ∷ 4 ∷ []

  -- The body of the server name extension, with what follows it.
  abbrev list_on : List ℕ
  list_on = uint16 (3 + length sni) ++ 0 ∷ uint16 (length sni) ++ (sni ++ supported_versions)

  -- From the session id on.
  abbrev rest : List ℕ
  rest =
      0 ∷ 0 ∷ 4 ∷ 0x13 ∷ 1 ∷ 0x13 ∷ 2 ∷ 1 ∷ 0 ∷ uint16 (16 + length sni)
      ++ (0 ∷ 0 ∷ uint16 (5 + length sni) ++ list_on)

  abbrev front : List ℕ
  front =
      0x16 ∷ 3 ∷ 1 ∷ uint16 (65 + length sni)
      ++ (1 ∷ 0 ∷ uint16 (61 + length sni) ++ (3 ∷ 3 ∷ random_bytes))

  module _ (filled : length random_bytes ≡ 32) (fits : length sni < 65471) where
    create_lem : create_tls_client_hello random_bytes sni ≡ ok (front ++ rest)
    unfolding create_tls_client_hello
    create_lem = rw (pack_uint16_fits n n refl (omega arith)) (
        rw (pack_uint16_fits (length (0 ∷ 0 ∷ 0 ∷ sni)) (3 + n) (omega arith) (omega arith)) (
          rw
            (pack_uint16_fits (length (0 ∷ 0 ∷ 0 ∷ 0 ∷ 0 ∷ sni)) (5 + n) (omega arith)
              (omega arith))
            (rw (pack_uint16_fits (length extensions) (16 + n) extensions_fit (omega arith)) (
              rw (pack_uint24_fits (length body) (61 + n) body_fits (omega arith)) (
                rw (
                  pack_uint16_fits (length (0 ∷ 0 ∷ 0 ∷ 0 ∷ body)) (65 + n)
                    (omega (arith, body_fits)) (omega arith)))))))
      where
        n : ℕ
        n = length sni

        extensions : List ℕ
        extensions = 0 ∷ 0 ∷ 0 ∷ 0 ∷ 0 ∷ 0 ∷ 0 ∷ 0 ∷ 0 ∷ (sni ++ supported_versions)

        extensions_fit : length extensions ≡ 16 + n
        extensions_fit = omega (arith, length-append sni supported_versions)

        body : List ℕ
        body = 3 ∷ 3 ∷ (random_bytes ++ rest)

        body_fits : length body ≡ 61 + n
        body_fits = omega (arith, length-append random_bytes rest, extensions_fit)

    length-front : length front ≡ 43
    length-front = omega (arith, filled)

    length-record : length (front ++ rest) ≡ 70 + length sni
    length-record =
        omega (arith, length-append front rest, length-front, length-append sni supported_versions)

    at : (i : ℕ) → get_elem? (front ++ rest) (43 + i) ≡ get_elem? rest i
    at i =
        let e : 43 + i ≡ length front + i = omega (arith, length-front) in
        ap (get_elem? (front ++ rest)) e ∙ get_elem?-append_right front rest i

    hello_lem : is_tls_client_hello (front ++ rest) (70 + length sni) ≡ ok true
    unfolding is_tls_client_hello read_uint16_be
    hello_lem = ground (arith, join_uint16 (65 + length sni))

    bounds_lem :
        extension_bounds (front ++ rest) (70 + length sni) ≡ ok (some (54, 70 + length sni))
    unfolding extension_bounds read_uint16_be
    bounds_lem = ground (arith, at 0, at 1, at 2, at 7, at 9, at 10, join_uint16 (16 + length sni))

    drop_lem :
        drop 58 (front ++ rest)
        ≡ uint16 (3 + length sni) ++ 0 ∷ uint16 (length sni) ++ (sni ++ supported_versions)
    drop_lem =
        sym (drop-drop 43 15 (front ++ rest))
        ∙ ap (drop 15)
            (ap (λ k. drop k (front ++ rest)) (sym length-front) ∙ drop-append front rest)

    value_lem : server_name (take (suc (suc (suc (suc (suc (length sni)))))) list_on) ≡ some sni
    unfolding server_name
    value_lem =
        rw (take-append sni supported_versions)
          (ground (arith, join_uint16 (3 + length sni), join_uint16 (length sni), take_all sni))

    name_lem : sni_if 0 (front ++ rest) 58 (5 + length sni) ≡ ok (some sni)
    name_lem =
        let e : 5 + length sni ≡ suc (suc (suc (suc (suc (length sni))))) = omega arith in
        sni_if-server_name 0 (front ++ rest) 58 (5 + length sni) (omega (arith, length-record))
        ∙ rw (drop_lem, e) (ap ok value_lem)

    walk_lem : walk_sni (front ++ rest) (some (54, 70 + length sni)) ≡ ok (some sni)
    unfolding walk_sni find_sni read_uint16_be
    walk_lem = ground (arith, at 11, at 12, at 13, at 14, join_uint16 (5 + length sni), name_lem)

    length24-lem : (n : ℕ) × (read_uint24_be (front ++ rest) (5 + 1) ≡ ok n)
    unfolding read_uint24_be
    length24-lem = (_, refl)

    -- The generator writes a record for every name that fits, and `extract` finds that name in it.
    pub extract-create :
        (record' : List ℕ) × (create_tls_client_hello random_bytes sni ≡ ok record')
        × (extract record' (length record') ≡ ok (some sni))
    unfolding extract
    extract-create =
        let (n, length24) = length24-lem in
        (
          front ++ rest,
          create_lem,
          rw (length-record, hello_lem) (rw (length24, bounds_lem) walk_lem),
        )
