-- ===== src/Http.antt =====
-- `HTTPHostExtractor` of dpi/sni_extractor.py, on the bytes of a payload. The loops are on fuel:
-- each round moves its position on by one.
pub mod Safety
pub mod Anchor
use python_deep_packet_inspe.Prelude.{
  ℕ, zero, suc, ◌+◌, ◌-◌, Bool, true, false, not, ◌||◌, Option, none, some, List, [], ◌∷◌, length,
  ltb, leb, ◌==◌, if◌then◌else◌, Py, ok, raise, out_of_fuel, ◌>>=◌, index, take, drop,
}
use python_deep_packet_inspe.Text.{same}
use python_deep_packet_inspe.Sni.{Name}

-- GET, POST, PUT, HEAD, DELETE, PATCH and OPTIONS, by their first four bytes.
abbrev pub methods : List (List ℕ)
methods =
    (71 ∷ 69 ∷ 84 ∷ 32 ∷ [])
    ∷ (80 ∷ 79 ∷ 83 ∷ 84 ∷ [])
    ∷ (80 ∷ 85 ∷ 84 ∷ 32 ∷ [])
    ∷ (72 ∷ 69 ∷ 65 ∷ 68 ∷ [])
    ∷ (68 ∷ 69 ∷ 76 ∷ 69 ∷ [])
    ∷ (80 ∷ 65 ∷ 84 ∷ 67 ∷ [])
    ∷ (79 ∷ 80 ∷ 84 ∷ 73 ∷ [])
    ∷ []

is_method : List ℕ → List (List ℕ) → Bool
unfolding same
is_method first_four [] = false
is_method first_four (method ∷ rest) = same first_four method || is_method first_four rest

unfoldable pub is_http_request : List ℕ → ℕ → Bool
unfolding is_method
is_http_request payload length = if ltb length 4 then false else is_method (take 4 payload) methods

-- `payload[i] in (a, b)`.
unfoldable pub byte_in : List ℕ → ℕ → ℕ → ℕ → Py Bool
byte_in payload i a b = do c ← index payload i; ok (c == a || c == b)

-- The condition of the loop, whose parts are tried in order.
unfoldable pub is_host_line : List ℕ → ℕ → Py Bool
unfolding byte_in
is_host_line payload i = do
  at_line_start ← if i == 0 then ok true else byte_in payload (i - 1) 0x0A 0x0D
  if not at_line_start then ok false else do
    h ← byte_in payload i 0x48 0x68
    if not h then ok false else do
      o ← byte_in payload (i + 1) 0x6F 0x4F
      if not o then ok false else do
        s ← byte_in payload (i + 2) 0x73 0x53
        if not s then ok false else do
          t ← byte_in payload (i + 3) 0x74 0x54
          if not t then ok false else byte_in payload (i + 4) 0x3A 0x3A

unfoldable pub skip_blanks : ℕ → List ℕ → ℕ → ℕ → Py ℕ
unfolding byte_in
skip_blanks zero payload length start = raise out_of_fuel
skip_blanks (suc fuel) payload length start = elim (ltb start length) [
  | true ↦ do
    blank ← byte_in payload start 0x20 0x09
    elim blank [ true ↦ skip_blanks fuel payload length (start + 1) | false ↦ ok start ]
  | false ↦ ok start
]

unfoldable pub find_line_end : ℕ → List ℕ → ℕ → ℕ → Py ℕ
unfolding byte_in
find_line_end zero payload length end = raise out_of_fuel
find_line_end (suc fuel) payload length end = elim (ltb end length) [
  | true ↦ do
    stop ← byte_in payload end 0x0D 0x0A
    elim stop [ true ↦ ok end | false ↦ find_line_end fuel payload length (end + 1) ]
  | false ↦ ok end
]

-- The host up to the first colon.
unfoldable pub drop_port : Name → Name
drop_port [] = []
drop_port (c ∷ host) = if c == 58 then [] else c ∷ drop_port host

-- The value of a Host header whose name ends before `i`, `none` when it is empty.
unfoldable pub host_value : List ℕ → ℕ → ℕ → Py (Option Name)
unfolding skip_blanks find_line_end drop_port
host_value payload length i = do
  start ← skip_blanks (suc length) payload length i
  end ← find_line_end (suc length) payload length start
  ok (if ltb start end then some (drop_port (take (end - start) (drop start payload))) else none)

unfoldable pub find_host : ℕ → List ℕ → ℕ → ℕ → Py (Option Name)
unfolding is_host_line host_value
find_host zero payload length i = raise out_of_fuel
find_host (suc fuel) payload length i = elim (leb (i + 6) length) [
  | true ↦ do
    matched ← is_host_line payload i
    value ← if matched then host_value payload length (i + 5) else ok none
    elim value [ some host ↦ ok (some host) | none ↦ find_host fuel payload length (i + 1) ]
  | false ↦ ok none
]

unfoldable pub extract : List ℕ → ℕ → Py (Option Name)
unfolding find_host
extract payload length =
    if not (is_http_request payload length)
    then ok none
    else find_host (suc length) payload length 0
