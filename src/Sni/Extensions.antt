-- ===== src/Sni/Extensions.antt =====
-- `extract` and `extract_extensions` of dpi/sni_extractor.py against one list of extensions: the
-- server name is that of the first extension whose body is a well-formed host name entry.
use python_deep_packet_inspe.Prelude.{
  ℕ, zero, suc, ◌+◌, ◌*◌, ◌≤◌, ◌<◌, ◌^◌, ◌≡◌, refl, bit_or, ap, sym, ◌∙◌, not, Option, none, some,
  List, [], ◌∷◌, length, length-drop, ok, index, of_option, get_elem?-drop, drop, take, drop-drop,
  take-take, ltb, ◌==◌, if◌then◌else◌, arith, lt→ltb, length-take, Bool, value_of, false, true,
}
use native.Mathlib.Nat.{add-zero, add_assoc}
use python_deep_packet_inspe.Sni.Safety.{
  is_tls_client_hello-is_ok, hello_long, read_uint24_be-is_ok, extension_bounds-is_ok,
  extension_bounds-le, walk_extensions-is_ok,
}
use python_deep_packet_inspe.Sni.{
  Name, read_uint16_be, read_sni_extension, sni_if, find_sni, list_extensions, walk_extensions,
  extract_extensions, extract, walk_sni, hex_bodies, extension_bounds, is_tls_client_hello,
}

-- The name in the body of a server name extension: two bytes of list length, a type, two bytes of
-- length, and the name.
unfoldable pub server_name : List ℕ → Option Name
server_name (a ∷ b ∷ sni_type ∷ c ∷ d ∷ value) =
    if ltb (bit_or (a * 2 ^ 8) b) 3
    then none
    else if not (sni_type == 0)
    then none
    else if ltb (length value) (bit_or (c * 2 ^ 8) d)
    then none
    else some (take (bit_or (c * 2 ^ 8) d) value)
server_name _ = none

-- The name of the first extension of type 0 that has one.
unfoldable pub first_sni : List (ℕ × List ℕ) → Option Name
first_sni [] = none
first_sni ((extension_type, body) ∷ rest) =
    elim (if extension_type == 0 then server_name body else none) [
      | some name ↦ some name
      | none ↦ first_sni rest
    ]

index-drop : (payload : List ℕ) (o i : ℕ) → index payload (o + i) ≡ index (drop o payload) i
index-drop payload o i = ap of_option (sym (get_elem?-drop o i payload))

-- The same reads on the bytes from `o` on.
read_at_zero :
    (payload : List ℕ) (o l : ℕ)
    → read_sni_extension payload o l ≡ read_sni_extension (drop o payload) 0 l
unfolding read_sni_extension read_uint16_be
read_at_zero payload o l = simp (get_elem?-drop, drop-drop, add-zero, add_assoc)

server_name_short : (xs : List ℕ) → length xs < 5 → server_name xs ≡ none
unfolding server_name
server_name_short (a ∷ b ∷ c ∷ d ∷ f ∷ xs) h = absurd (omega arith)
server_name_short _ h = refl

read_short :
    (xs : List ℕ) (l : ℕ) → l < 5 → read_sni_extension xs 0 l ≡ ok (server_name (take l xs))
unfolding read_sni_extension
read_short xs l h =
    rw (lt→ltb l 5 h, server_name_short (take l xs) (omega (arith, length-take l xs)))

read-server_name :
    (xs : List ℕ) (l : ℕ) → l ≤ length xs → read_sni_extension xs 0 l ≡ ok (server_name (take l xs))
unfolding read_sni_extension read_uint16_be server_name
read-server_name (a ∷ b ∷ c ∷ d ∷ f ∷ xs) (suc (suc (suc (suc (suc l))))) h =
    ground (arith, take-take (bit_or (d * 2 ^ 8) f) l xs, length-take l xs)
read-server_name xs l h = read_short xs l (omega arith)

read_sni-server_name :
    (payload : List ℕ) (o l : ℕ)
    → o + l ≤ length payload
    → read_sni_extension payload o l ≡ ok (server_name (take l (drop o payload)))
read_sni-server_name payload o l h =
    read_at_zero payload o l
    ∙ read-server_name (drop o payload) l (omega (arith, length-drop o payload))

pub sni_if-server_name :
    (t : ℕ) (payload : List ℕ) (o l : ℕ)
    → o + l ≤ length payload
    → sni_if t payload o l ≡ ok (if t == 0 then server_name (take l (drop o payload)) else none)
unfolding sni_if
sni_if-server_name t payload o l h = ground (arith, read_sni-server_name payload o l h)

find_sni-list_extensions :
    (fuel : ℕ) (payload : List ℕ) (o e : ℕ) (es : List (ℕ × List ℕ))
    → e ≤ length payload
    → list_extensions fuel payload o e ≡ ok es
    → find_sni fuel payload o e ≡ ok (first_sni es)
unfolding find_sni list_extensions first_sni
find_sni-list_extensions zero payload o e es h found = cc
find_sni-list_extensions (suc fuel) payload o e es h found =
    grind (arith, sni_if-server_name, find_sni-list_extensions fuel payload)

walk-first_sni :
    (payload : List ℕ) (bounds : Option (ℕ × ℕ)) (es : List (ℕ × List ℕ)) (n : ℕ)
    → n ≤ length payload
    → extension_bounds payload n ≡ ok bounds
    → walk_extensions payload bounds ≡ ok es
    → walk_sni payload bounds ≡ ok (first_sni es)
unfolding walk_extensions walk_sni first_sni
walk-first_sni payload none es n h e found = ground arith
walk-first_sni payload (some (o, end)) es n h e found =
    find_sni-list_extensions (suc end) payload o end es
      (omega (arith, extension_bounds-le payload n o end e)) found

abbrev Agree : List ℕ → ℕ → Type 0
Agree payload n =
    (es : List (ℕ × List ℕ)) × (extract_extensions payload n ≡ ok (hex_bodies es))
    × (extract payload n ≡ ok (first_sni es))

by_hello :
    (payload : List ℕ) (n : ℕ)
    → n ≤ length payload
    → (hello : Bool) → is_tls_client_hello payload n ≡ ok hello
    → Agree payload n
unfolding extract extract_extensions first_sni
by_hello payload n h false e = ([], rw e, rw e)
by_hello payload n h true e =
    let (length24, e24) =
      value_of _ (read_uint24_be-is_ok payload 6 (omega (arith, hello_long payload n e))) in
    let (bounds, eb) = value_of _ (extension_bounds-is_ok payload n h) in
    let (es, found) = value_of _ (walk_extensions-is_ok payload n bounds h eb) in
    (es, rw (e, eb, found), rw (e, e24, eb) (walk-first_sni payload bounds es n h eb found))

-- For a `length` within the payload there is one list of extensions, each a type and a body, such
-- that `extract_extensions` returns it with the bodies in hexadecimal, and `extract` returns the
-- name of its first extension of type 0 with a well-formed host name entry, or none without one.
pub extract-first_sni :
    (payload : List ℕ) (n : ℕ)
    → n ≤ length payload
    → (es : List (ℕ × List ℕ)) × (extract_extensions payload n ≡ ok (hex_bodies es))
      × (extract payload n ≡ ok (first_sni es))
extract-first_sni payload n h =
    let (hello, e) = value_of _ (is_tls_client_hello-is_ok payload n h) in
    by_hello payload n h hello e
