-- ===== src/Sni.antt =====
-- `SNIExtractor` of dpi/sni_extractor.py. A payload is its bytes; `length` is the argument of that
-- name, which every caller in the engine gives. A name is the latin-1 text of its bytes, so the
-- bytes themselves. `(a << 8) | b` is `bit_or (a * 256) b`.
pub mod Safety
pub mod Extensions
pub mod ClientHello
use python_deep_packet_inspe.Prelude.{
  ℕ, zero, suc, ◌+◌, ◌-◌, ◌*◌, ◌/◌, ◌%◌, ◌^◌, min, bit_or, map, Bool, true, false, not, ◌||◌,
  Option, none, some, List, [], ◌∷◌, ltb, leb, ◌==◌, if◌then◌else◌, length, take, drop, Py, ok,
  raise, out_of_fuel, index, ◌>>=◌,
}

abbrev pub Name : Type 0
Name = List ℕ

unfoldable pub read_uint16_be : List ℕ → ℕ → Py ℕ
read_uint16_be payload offset = do
  a ← index payload offset
  b ← index payload (offset + 1)
  ok (bit_or (a * 2 ^ 8) b)

unfoldable pub read_uint24_be : List ℕ → ℕ → Py ℕ
read_uint24_be payload offset = do
  a ← index payload offset
  b ← index payload (offset + 1)
  c ← index payload (offset + 2)
  ok (bit_or (bit_or (a * 2 ^ 16) (b * 2 ^ 8)) c)

unfoldable pub is_tls_client_hello : List ℕ → ℕ → Py Bool
is_tls_client_hello payload length = if ltb length 9 then ok false else do
  content_type ← index payload 0
  if not (content_type == 0x16) then ok false else do
    version ← read_uint16_be payload 1
    if ltb version 0x0300 || ltb 0x0304 version then ok false else do
      record_length ← read_uint16_be payload 3
      if ltb (length - 5) record_length then ok false else do
        handshake_type ← index payload 5
        if not (handshake_type == 0x01) then ok false else ok true

-- From the session id at byte 43 to the extensions, the lines that `extract` and
-- `extract_extensions` share: where the extensions begin and end, if the payload gets so far.
unfoldable pub extension_bounds : List ℕ → ℕ → Py (Option (ℕ × ℕ))
extension_bounds payload length = if leb length 43 then ok none else do
  session_id_length ← index payload 43
  let suites = 43 + (1 + session_id_length)
  if ltb length (suites + 2) then ok none else do
    cipher_suites_length ← read_uint16_be payload suites
    let methods = suites + (2 + cipher_suites_length)
    if leb length methods then ok none else do
      compression_methods_length ← index payload methods
      let extensions = methods + (1 + compression_methods_length)
      if ltb length (extensions + 2) then ok none else do
        extensions_length ← read_uint16_be payload extensions
        ok (some (extensions + 2, min (extensions + 2 + extensions_length) length))

unfoldable pub read_sni_extension : List ℕ → ℕ → ℕ → Py (Option Name)
read_sni_extension payload offset extension_length = if ltb extension_length 5 then ok none else do
  sni_list_length ← read_uint16_be payload offset
  if ltb sni_list_length 3 then ok none else do
    sni_type ← index payload (offset + 2)
    sni_length ← read_uint16_be payload (offset + 3)
    if not (sni_type == 0x00)
        then ok none
        else if ltb (extension_length - 5) sni_length
        then ok none
        else ok (some (take sni_length (drop (offset + 5) payload)))

unfoldable pub sni_if : ℕ → List ℕ → ℕ → ℕ → Py (Option Name)
sni_if extension_type payload offset extension_length =
    if extension_type == 0x0000 then read_sni_extension payload offset extension_length else ok none

-- The `while` loop of `extract`, on fuel: each round moves `offset` on by four at least.
unfoldable pub find_sni : ℕ → List ℕ → ℕ → ℕ → Py (Option Name)
find_sni zero payload offset end = raise out_of_fuel
find_sni (suc fuel) payload offset end = elim (leb (offset + 4) end) [
  | false ↦ ok none
  | true ↦ do
    extension_type ← read_uint16_be payload offset
    extension_length ← read_uint16_be payload (offset + 2)
    elim (ltb end (offset + 4 + extension_length)) [
      | true ↦ ok none
      | false ↦ do
        name ← sni_if extension_type payload (offset + 4) extension_length
        elim name [
          | some n ↦ ok (some n)
          | none ↦ find_sni fuel payload (offset + 4 + extension_length) end
        ]
    ]
]

unfoldable pub walk_sni : List ℕ → Option (ℕ × ℕ) → Py (Option Name)
walk_sni payload none = ok none
walk_sni payload (some (offset, end)) = find_sni (suc end) payload offset end

unfoldable pub extract : List ℕ → ℕ → Py (Option Name)
extract payload length = do
  hello ← is_tls_client_hello payload length
  if not hello then ok none else do
    handshake_length ← read_uint24_be payload (5 + 1)
    bounds ← extension_bounds payload length
    walk_sni payload bounds

-- The `while` loop of `extract_extensions`: each extension's type and body.
unfoldable pub list_extensions : ℕ → List ℕ → ℕ → ℕ → Py (List (ℕ × List ℕ))
list_extensions zero payload offset end = raise out_of_fuel
list_extensions (suc fuel) payload offset end = elim (leb (offset + 4) end) [
  | false ↦ ok []
  | true ↦ do
    extension_type ← read_uint16_be payload offset
    extension_length ← read_uint16_be payload (offset + 2)
    elim (ltb end (offset + 4 + extension_length)) [
      | true ↦ ok []
      | false ↦ do
        rest ← list_extensions fuel payload (offset + 4 + extension_length) end
        ok ((extension_type, take extension_length (drop (offset + 4) payload)) ∷ rest)
    ]
]

hex_digit : ℕ → ℕ
hex_digit d = if ltb d 10 then b'0' + d else b'a' + (d - 10)

-- `bytes.hex`.
unfoldable pub hex : List ℕ → List ℕ
unfolding hex_digit
hex [] = []
hex (b ∷ bytes) = hex_digit (b / 16) ∷ hex_digit (b % 16) ∷ hex bytes

unfoldable pub walk_extensions : List ℕ → Option (ℕ × ℕ) → Py (List (ℕ × List ℕ))
walk_extensions payload none = ok []
walk_extensions payload (some (offset, end)) = list_extensions (suc end) payload offset end

abbrev pub hex_bodies : List (ℕ × List ℕ) → List (ℕ × List ℕ)
hex_bodies = map (λ e. (e.0, hex e.1))

unfoldable pub extract_extensions : List ℕ → ℕ → Py (List (ℕ × List ℕ))
extract_extensions payload length = do
  hello ← is_tls_client_hello payload length
  if not hello then ok [] else do
    bounds ← extension_bounds payload length
    found ← walk_extensions payload bounds
    ok (hex_bodies found)
