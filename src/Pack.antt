-- ===== src/Pack.antt =====
-- The formats of Python's `struct` that dpi/packet_parser.py, dpi/pcap_reader.py and dpi/dpi_engine.py
-- use: unsigned numbers of one, two and four bytes in a given byte order. `=` is the order of the
-- host, which is a parameter. A buffer that is too short, or a number too large, is `struct_error`.
use python_deep_packet_inspe.Prelude.{
  ℕ, ◌+◌, ◌*◌, ◌/◌, ◌%◌, ◌^◌, ◌≤◌, ◌≡◌, true, List, [], ◌∷◌, arith, length, ltb, if◌then◌else◌, Py,
  ok, raise, struct_error, ◌>>=◌, is_ok, take, drop, value_of, All, suc, ◌<◌, zero, Bool, false,
}

pub data ByteOrder : Type 0 where
  little_endian big_endian : ByteOrder

unfoldable pub little_value : List ℕ → ℕ
little_value [] = 0
little_value (b ∷ bytes) = b + 2 ^ 8 * little_value bytes

unfoldable pub big_value : ℕ → List ℕ → ℕ
big_value acc [] = acc
big_value acc (b ∷ bytes) = big_value (acc * 2 ^ 8 + b) bytes

unfoldable pub bytes_value : ByteOrder → List ℕ → ℕ
unfolding little_value big_value
bytes_value little_endian bytes = little_value bytes
bytes_value big_endian bytes = big_value 0 bytes

-- The `n` bytes from `offset` on.
unfoldable pub bytes_at : ℕ → List ℕ → ℕ → Py (List ℕ)
bytes_at n buffer offset =
    if ltb (length buffer) (offset + n)
    then raise struct_error
    else ok (take n (drop offset buffer))

-- `struct.unpack_from` with the format `H`, and with `I`.
unfoldable pub unpack16 : ByteOrder → List ℕ → ℕ → Py ℕ
unfolding bytes_at bytes_value
unpack16 order buffer offset = do bytes ← bytes_at 2 buffer offset; ok (bytes_value order bytes)

unfoldable pub unpack32 : ByteOrder → List ℕ → ℕ → Py ℕ
unfolding bytes_at bytes_value
unpack32 order buffer offset = do bytes ← bytes_at 4 buffer offset; ok (bytes_value order bytes)

-- `struct.pack`.
unfoldable pub pack16 : ByteOrder → ℕ → Py (List ℕ)
pack16 order n =
    if ltb n (2 ^ 16)
    then ok (elim order [
      | little_endian ↦ n % 2 ^ 8 ∷ n / 2 ^ 8 ∷ []
      | big_endian ↦ n / 2 ^ 8 ∷ n % 2 ^ 8 ∷ []
    ])
    else raise struct_error

unfoldable pub pack32 : ByteOrder → ℕ → Py (List ℕ)
pack32 order n =
    if ltb n (2 ^ 32)
    then ok (elim order [
      | little_endian ↦ n % 2 ^ 8 ∷ n / 2 ^ 8 % 2 ^ 8 ∷ n / 2 ^ 16 % 2 ^ 8 ∷ n / 2 ^ 24 ∷ []
      | big_endian ↦ n / 2 ^ 24 ∷ n / 2 ^ 16 % 2 ^ 8 ∷ n / 2 ^ 8 % 2 ^ 8 ∷ n % 2 ^ 8 ∷ []
    ])
    else raise struct_error

pub unpack16-is_ok :
    (order : ByteOrder) (buffer : List ℕ) (offset : ℕ)
    → offset + 2 ≤ length buffer
    → is_ok (unpack16 order buffer offset) ≡ true
unfolding unpack16 bytes_at
unpack16-is_ok order buffer offset h = ground (arith, h)

pub unpack32-is_ok :
    (order : ByteOrder) (buffer : List ℕ) (offset : ℕ)
    → offset + 4 ≤ length buffer
    → is_ok (unpack32 order buffer offset) ≡ true
unfolding unpack32 bytes_at
unpack32-is_ok order buffer offset h = ground (arith, h)

pub unpack32_ok :
    (order : ByteOrder) (buffer : List ℕ) (offset : ℕ)
    → offset + 4 ≤ length buffer
    → (n : ℕ) × (unpack32 order buffer offset ≡ ok n)
unpack32_ok order buffer offset h =
    value_of (unpack32 order buffer offset) (unpack32-is_ok order buffer offset h)

pub unpack16_ok :
    (order : ByteOrder) (buffer : List ℕ) (offset : ℕ)
    → offset + 2 ≤ length buffer
    → (n : ℕ) × (unpack16 order buffer offset ≡ ok n)
unpack16_ok order buffer offset h =
    value_of (unpack16 order buffer offset) (unpack16-is_ok order buffer offset h)

-- A byte string.
abbrev pub AreBytes : List ℕ → Type 0
AreBytes bytes = All (λ b. b < 2 ^ 8) bytes

pub drop-All : (n : ℕ) (bytes : List ℕ) → AreBytes bytes → AreBytes (drop n bytes)
drop-All zero bytes h = h
drop-All (suc n) [] h = h
drop-All (suc n) (b ∷ bytes) h = drop-All n bytes h.1

pub take-All : (n : ℕ) (bytes : List ℕ) → AreBytes bytes → AreBytes (take n bytes)
take-All zero bytes h = tt
take-All (suc n) [] h = tt
take-All (suc n) (b ∷ bytes) h = (h.0, take-All n bytes h.1)

pub value-lt :
    (order : ByteOrder) (bytes : List ℕ)
    → AreBytes bytes
    → bytes_value order (take 4 bytes) < 2 ^ 32
unfolding bytes_value little_value big_value
value-lt order [] h = ground arith
value-lt order (a ∷ []) h = ground (arith, h)
value-lt order (a ∷ b ∷ []) h = ground (arith, h)
value-lt order (a ∷ b ∷ c ∷ []) h = ground (arith, h)
value-lt order (a ∷ b ∷ c ∷ d ∷ bytes) h = ground (arith, h)

-- A word of a byte string has 32 bits.
pub unpack32-lt :
    (order : ByteOrder) (buffer : List ℕ) (offset n : ℕ)
    → AreBytes buffer
    → unpack32 order buffer offset ≡ ok n
    → n < 2 ^ 32
unfolding unpack32 bytes_at
unpack32-lt order buffer offset n h e =
    let l = value-lt order (drop offset buffer) (drop-All offset buffer h) in ground (arith, l, e)

abbrev every_byte : List ℕ → Bool
every_byte [] = true
every_byte (b ∷ bytes) = if ltb b (2 ^ 8) then every_byte bytes else false

pub every_byte-AreBytes : (bytes : List ℕ) → every_byte bytes ≡ true → AreBytes bytes
every_byte-AreBytes [] h = tt
every_byte-AreBytes (b ∷ bytes) h =
    let l : b < 2 ^ 8 = ground (arith, h) in (l, every_byte-AreBytes bytes (ground (arith, h)))
