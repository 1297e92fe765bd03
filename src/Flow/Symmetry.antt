-- ===== src/Flow/Symmetry.antt =====
-- The two directions of a conversation, for `reverse`, `canonical`, `flow_hash` and `__eq__` of
-- dpi/types.py.
use python_deep_packet_inspe.Prelude.{◌<◌, ◌≡◌, ◌↔◌, ◌⊎◌, refl, ap, true, arith}
use python_deep_packet_inspe.Flow.{
  FiveTuple, reverse, canonical, tuple_eq, five_tuple_hash, flow_hash, uint64_mod,
}

pub reverse-reverse : (t : FiveTuple) → reverse (reverse t) ≡ t
unfolding reverse
reverse-reverse t = refl

pub canonical-cases : (t : FiveTuple) → (canonical t ≡ t) ⊎ (canonical t ≡ reverse t)
unfolding canonical
canonical-cases t = ground arith

pub canonical-reverse : (t : FiveTuple) → canonical (reverse t) ≡ canonical t
unfolding canonical
canonical-reverse t = ground arith

-- Two tuples have one canonical form exactly when they are the same or each other's reverse.
pub canonical-eq_iff : (s t : FiveTuple) → (canonical s ≡ canonical t) ↔ ((s ≡ t) ⊎ (s ≡ reverse t))
unfolding canonical
canonical-eq_iff s t = (λ h. ground arith, λ h. ground arith)

-- Both directions of a conversation have the same flow hash, and it is a 64-bit value.
pub flow_hash-reverse :
    (t : FiveTuple) → (flow_hash (reverse t) ≡ flow_hash t) × (flow_hash t < uint64_mod)
unfolding flow_hash five_tuple_hash
flow_hash-reverse t = (ap five_tuple_hash (canonical-reverse t), omega arith)

pub tuple_eq_iff : (s t : FiveTuple) → (tuple_eq s t ≡ true) ↔ (s ≡ t)
unfolding tuple_eq
tuple_eq_iff s t = (λ h. ground arith, λ h. ground arith)
