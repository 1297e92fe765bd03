-- ===== src/Pcap/Words.antt =====
-- The numbers of a capture: what dpi/dpi_engine.py packs in one byte order dpi/pcap_reader.py reads
-- in another, after swapping the bytes where the orders differ.
use python_deep_packet_inspe.Prelude.{
  ℕ, ◌≡◌, List, ◌∷◌, [], Bool, true, false, arith, if◌then◌else◌, ok, bit_or, ◌∙◌, ap, ◌%◌, ◌<◌,
  ◌/◌, ◌^◌, ◌+◌, ◌*◌,
}
use python_deep_packet_inspe.Prelude.Bits.{bit_or_low}
use python_deep_packet_inspe.Pack.{
  ByteOrder, little_endian, big_endian, bytes_value, big_value, little_value, pack16, pack32,
}
use python_deep_packet_inspe.Pcap.{swap16, swap32}

-- The bytes of a number.
abbrev pub word : ByteOrder → ℕ → List ℕ
word little_endian n = n % 2 ^ 8 ∷ n / 2 ^ 8 % 2 ^ 8 ∷ n / 2 ^ 16 % 2 ^ 8 ∷ n / 2 ^ 24 ∷ []
word big_endian n = n / 2 ^ 24 ∷ n / 2 ^ 16 % 2 ^ 8 ∷ n / 2 ^ 8 % 2 ^ 8 ∷ n % 2 ^ 8 ∷ []

abbrev pub half : ByteOrder → ℕ → List ℕ
half little_endian n = n % 2 ^ 8 ∷ n / 2 ^ 8 ∷ []
half big_endian n = n / 2 ^ 8 ∷ n % 2 ^ 8 ∷ []

pub pack32_lem : (w : ByteOrder) (n : ℕ) → n < 2 ^ 32 → pack32 w n ≡ ok (word w n)
unfolding pack32
pack32_lem little_endian n h = ground (arith, h)
pack32_lem big_endian n h = ground (arith, h)

pub pack16_lem : (w : ByteOrder) (n : ℕ) → n < 2 ^ 16 → pack16 w n ≡ ok (half w n)
unfolding pack16
pack16_lem little_endian n h = ground (arith, h)
pack16_lem big_endian n h = ground (arith, h)

-- A reader of the order `o` swaps what a writer of the order `w` wrote.
abbrev pub differs : ByteOrder → ByteOrder → Bool
differs little_endian little_endian = false
differs little_endian big_endian = true
differs big_endian little_endian = true
differs big_endian big_endian = false

pub swap32_lem :
    (n : ℕ)
    → swap32 n
      ≡ n / 2 ^ 24 % 2 ^ 8
        + n / 2 ^ 16 % 2 ^ 8 * 2 ^ 8
        + n / 2 ^ 8 % 2 ^ 8 * 2 ^ 16
        + n % 2 ^ 8 * 2 ^ 24
unfolding swap32
swap32_lem n =
    let a = n / 2 ^ 24 % 2 ^ 8 in
    let b = n / 2 ^ 16 % 2 ^ 8 in
    let c = n / 2 ^ 8 % 2 ^ 8 in
    let d = n % 2 ^ 8 in
    let x = bit_or_low 8 b a (omega arith) in
    let y = bit_or_low 16 c (a + b * 2 ^ 8) (omega arith) in
    let z = bit_or_low 24 d (a + b * 2 ^ 8 + c * 2 ^ 16) (omega arith) in
    ap (λ t. bit_or (bit_or t (c * 2 ^ 16)) (d * 2 ^ 24) % 2 ^ 32) x
    ∙ ap (λ t. bit_or t (d * 2 ^ 24) % 2 ^ 32) y
    ∙ ap (λ t. t % 2 ^ 32) z
    ∙ omega arith

pub swap16_lem : (n : ℕ) → swap16 n ≡ n / 2 ^ 8 % 2 ^ 8 + n % 2 ^ 8 * 2 ^ 8
unfolding swap16
swap16_lem n = bit_or_low 8 (n % 2 ^ 8) (n / 2 ^ 8 % 2 ^ 8) (omega arith)

pub read32_lem :
    (w o : ByteOrder) (n : ℕ)
    → n < 2 ^ 32
    → (if differs w o then swap32 (bytes_value o (word w n)) else bytes_value o (word w n)) ≡ n
unfolding bytes_value little_value big_value
read32_lem little_endian little_endian n h = omega (arith, h)
read32_lem little_endian big_endian n h =
    swap32_lem (bytes_value big_endian (word little_endian n)) ∙ omega (arith, h)
read32_lem big_endian little_endian n h =
    swap32_lem (bytes_value little_endian (word big_endian n)) ∙ omega (arith, h)
read32_lem big_endian big_endian n h = omega (arith, h)

pub read16_lem :
    (w o : ByteOrder) (n : ℕ)
    → n < 2 ^ 16
    → (if differs w o then swap16 (bytes_value o (half w n)) else bytes_value o (half w n)) ≡ n
unfolding bytes_value little_value big_value
read16_lem little_endian little_endian n h = omega (arith, h)
read16_lem little_endian big_endian n h =
    swap16_lem (bytes_value big_endian (half little_endian n)) ∙ omega (arith, h)
read16_lem big_endian little_endian n h =
    swap16_lem (bytes_value little_endian (half big_endian n)) ∙ omega (arith, h)
read16_lem big_endian big_endian n h = omega (arith, h)
