-- ===== src/Platform/Network.antt =====
-- Network byte order on any host: the conversions of dpi/platform.py against `struct`.
use python_deep_packet_inspe.Prelude.{
  ℕ, ◌+◌, ◌*◌, ◌/◌, ◌%◌, ◌^◌, ◌<◌, ◌≡◌, ok, refl, ap, ◌∙◌, sym, arith, ◌∷◌, [],
}
use python_deep_packet_inspe.Pack.{ByteOrder, little_endian, big_endian, pack16, pack32}
use python_deep_packet_inspe.Pcap.Words.{
  half, swap16_lem, pack16_lem, word, pack32_lem, swap32_lem, swap16_lem,
}
use python_deep_packet_inspe.Pcap.{swap16, swap32}
use python_deep_packet_inspe.Platform.{
  swap_bytes16, swap_bytes32, probe_little_endian, net_to_host32, host_to_net32, net_to_host16,
  host_to_net16,
}

swap_bytes32_lem :
    (n : ℕ)
    → swap_bytes32 n
      ≡ n / 2 ^ 24 % 2 ^ 8
        + n / 2 ^ 16 % 2 ^ 8 * 2 ^ 8
        + n / 2 ^ 8 % 2 ^ 8 * 2 ^ 16
        + n % 2 ^ 8 * 2 ^ 24
unfolding swap_bytes32 swap32
swap_bytes32_lem n = swap32_lem n

swap_bytes16_lem : (n : ℕ) → swap_bytes16 n ≡ n / 2 ^ 8 % 2 ^ 8 + n % 2 ^ 8 * 2 ^ 8
unfolding swap_bytes16 swap16
swap_bytes16_lem n = swap16_lem n

-- The number in network order of a number of the host.
abbrev network32 : ByteOrder → ℕ → ℕ
network32 little_endian n = swap_bytes32 n
network32 big_endian n = n % 2 ^ 32

net_to_host32_lem : (host : ByteOrder) (n : ℕ) → net_to_host32 host n ≡ ok (network32 host n)
unfolding net_to_host32 probe_little_endian pack16
net_to_host32_lem little_endian n = refl
net_to_host32_lem big_endian n = refl

-- The bytes that a host of either order has in memory for the result are those of the number in
-- network order, and converting back gives the number.
pub host_to_net32-pack32 :
    (host : ByteOrder) (n : ℕ)
    → n < 2 ^ 32
    → (m : ℕ) × (host_to_net32 host n ≡ ok m)
      × (pack32 host m ≡ pack32 big_endian n)
      × (net_to_host32 host m ≡ ok n)
unfolding host_to_net32
host_to_net32-pack32 little_endian n h =
    let s = swap_bytes32_lem n in
    let b : swap_bytes32 n < 2 ^ 32 = omega (arith, s, h) in
    (
      swap_bytes32 n,
      net_to_host32_lem little_endian n,
      pack32_lem little_endian (swap_bytes32 n) b
          ∙ ap ok (bytes s)
          ∙ sym (pack32_lem big_endian n h),
      net_to_host32_lem little_endian (swap_bytes32 n)
          ∙ ap ok (swap_bytes32_lem (swap_bytes32 n) ∙ omega (arith, s, h)),
    )
  where
    bytes :
        {x : ℕ}
        → x
          ≡ n / 2 ^ 24 % 2 ^ 8
            + n / 2 ^ 16 % 2 ^ 8 * 2 ^ 8
            + n / 2 ^ 8 % 2 ^ 8 * 2 ^ 16
            + n % 2 ^ 8 * 2 ^ 24
        → word little_endian x ≡ word big_endian n
    bytes {x} s =
        let a : x % 2 ^ 8 ≡ n / 2 ^ 24 = omega (arith, s, h) in
        let b : x / 2 ^ 8 % 2 ^ 8 ≡ n / 2 ^ 16 % 2 ^ 8 = omega (arith, s, h) in
        let c : x / 2 ^ 16 % 2 ^ 8 ≡ n / 2 ^ 8 % 2 ^ 8 = omega (arith, s, h) in
        let d : x / 2 ^ 24 ≡ n % 2 ^ 8 = omega (arith, s, h) in λ i. a i ∷ b i ∷ c i ∷ d i ∷ []
host_to_net32-pack32 big_endian n h =
    let e : n % 2 ^ 32 ≡ n = omega (arith, h) in
    (n, net_to_host32_lem big_endian n ∙ ap ok e, refl, net_to_host32_lem big_endian n ∙ ap ok e)

abbrev network16 : ByteOrder → ℕ → ℕ
network16 little_endian n = swap_bytes16 n
network16 big_endian n = n % 2 ^ 16

net_to_host16_lem : (host : ByteOrder) (n : ℕ) → net_to_host16 host n ≡ ok (network16 host n)
unfolding net_to_host16 probe_little_endian pack16
net_to_host16_lem little_endian n = refl
net_to_host16_lem big_endian n = refl

-- The same for numbers of sixteen bits.
host_to_net16-pack16 :
    (host : ByteOrder) (n : ℕ)
    → n < 2 ^ 16
    → (m : ℕ) × (host_to_net16 host n ≡ ok m)
      × (pack16 host m ≡ pack16 big_endian n)
      × (net_to_host16 host m ≡ ok n)
unfolding host_to_net16
host_to_net16-pack16 little_endian n h =
    let s = swap_bytes16_lem n in
    let b : swap_bytes16 n < 2 ^ 16 = omega (arith, s, h) in
    (
      swap_bytes16 n,
      net_to_host16_lem little_endian n,
      pack16_lem little_endian (swap_bytes16 n) b
          ∙ ap ok (bytes s)
          ∙ sym (pack16_lem big_endian n h),
      net_to_host16_lem little_endian (swap_bytes16 n)
          ∙ ap ok (swap_bytes16_lem (swap_bytes16 n) ∙ omega (arith, s, h)),
    )
  where
    bytes :
        {x : ℕ}
        → x ≡ n / 2 ^ 8 % 2 ^ 8 + n % 2 ^ 8 * 2 ^ 8
        → half little_endian x ≡ half big_endian n
    bytes {x} s =
        let a : x % 2 ^ 8 ≡ n / 2 ^ 8 = omega (arith, s, h) in
        let b : x / 2 ^ 8 ≡ n % 2 ^ 8 = omega (arith, s, h) in λ i. a i ∷ b i ∷ []
host_to_net16-pack16 big_endian n h =
    let e : n % 2 ^ 16 ≡ n = omega (arith, h) in
    (n, net_to_host16_lem big_endian n ∙ ap ok e, refl, net_to_host16_lem big_endian n ∙ ap ok e)
