-- ===== src/Flow.antt =====
-- The flow identity of dpi/types.py: `FiveTuple`, its methods, the 64-bit hash and the flow hash.
-- `value & UINT64_MASK` is the remainder by 2 ^ 64, `h << 6` and `h >> 2` are `h * 64` and `h / 4`.
pub mod Symmetry
use python_deep_packet_inspe.Prelude.{
  ℕ, ◌+◌, ◌*◌, ◌/◌, ◌%◌, ◌^◌, bit_xor, Bool, ◌&&◌, ◌||◌, List, [], ◌∷◌, ltb, leb, ◌==◌,
  if◌then◌else◌,
}

abbrev pub uint64_mod : ℕ
uint64_mod = 2 ^ 64

abbrev pub golden_ratio_constant : ℕ
golden_ratio_constant = 0x9E37_79B9

pub record FiveTuple : Type 0 where
  pub src_ip : ℕ
  pub dst_ip : ℕ
  pub src_port : ℕ
  pub dst_port : ℕ
  pub protocol : ℕ

unfoldable pub reverse : FiveTuple → FiveTuple
reverse t = record {
  src_ip = t.dst_ip;
  dst_ip = t.src_ip;
  src_port = t.dst_port;
  dst_port = t.src_port;
  protocol = t.protocol;
}

-- The comparison of the two pairs is Python's, first component first.
unfoldable pub canonical : FiveTuple → FiveTuple
unfolding reverse
canonical t =
    if ltb t.src_ip t.dst_ip || (t.src_ip == t.dst_ip && leb t.src_port t.dst_port)
    then t
    else reverse t

-- The generated `__eq__` of the frozen dataclass.
unfoldable pub tuple_eq : FiveTuple → FiveTuple → Bool
tuple_eq s t =
    s.src_ip == t.src_ip
    && s.dst_ip == t.dst_ip
    && s.src_port == t.src_port
    && s.dst_port == t.dst_port
    && s.protocol == t.protocol

-- One round of the loop of `five_tuple_hash`.
unfoldable pub hash_combine : ℕ → ℕ → ℕ
hash_combine h value =
    let term = (value + golden_ratio_constant + h * 64 + h / 4) % uint64_mod in
    bit_xor h term % uint64_mod

unfoldable pub hash_values : ℕ → List ℕ → ℕ
hash_values h [] = h
hash_values h (value ∷ values) = hash_values (hash_combine h value) values

unfoldable pub five_tuple_hash : FiveTuple → ℕ
unfolding hash_values hash_combine
five_tuple_hash t = hash_values 0 (t.src_ip ∷ t.dst_ip ∷ t.src_port ∷ t.dst_port ∷ t.protocol ∷ [])

unfoldable pub flow_hash : FiveTuple → ℕ
flow_hash t = five_tuple_hash (canonical t)
