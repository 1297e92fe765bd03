-- ===== src/Platform.antt =====
-- The byte order helpers of dpi/platform.py; the order of the host is a parameter. Masks and shifts
-- of a byte are remainders and products: `(value & 0xFF00) >> 8` is `value / 2 ^ 8 % 2 ^ 8`.
pub mod Network
use python_deep_packet_inspe.Prelude.{
  ℕ, ◌*◌, ◌/◌, ◌%◌, ◌^◌, bit_or, Bool, List, [], ◌∷◌, ◌==◌, Py, ok, ◌>>=◌, index, if◌then◌else◌,
}
use python_deep_packet_inspe.Pack.{ByteOrder, little_endian, big_endian, pack16}

unfoldable pub swap_bytes16 : ℕ → ℕ
swap_bytes16 value = bit_or (value / 2 ^ 8 % 2 ^ 8) (value % 2 ^ 8 * 2 ^ 8)

unfoldable pub swap_bytes32 : ℕ → ℕ
swap_bytes32 value =
    bit_or
      (bit_or (bit_or (value / 2 ^ 24 % 2 ^ 8) (value / 2 ^ 16 % 2 ^ 8 * 2 ^ 8))
        (value / 2 ^ 8 % 2 ^ 8 * 2 ^ 16))
      (value % 2 ^ 8 * 2 ^ 24)
    % 2 ^ 32

unfoldable pub probe_little_endian : ByteOrder → Py Bool
unfolding pack16
probe_little_endian host = do bytes ← pack16 host 1; first ← index bytes 0; ok (first == 1)

unfoldable pub net_to_host16 : ByteOrder → ℕ → Py ℕ
unfolding probe_little_endian swap_bytes16
net_to_host16 host value = do
  little ← probe_little_endian host
  ok (if little then swap_bytes16 value else value % 2 ^ 16)

unfoldable pub net_to_host32 : ByteOrder → ℕ → Py ℕ
unfolding probe_little_endian swap_bytes32
net_to_host32 host value = do
  little ← probe_little_endian host
  ok (if little then swap_bytes32 value else value % 2 ^ 32)

unfoldable pub host_to_net16 : ByteOrder → ℕ → Py ℕ
unfolding net_to_host16
host_to_net16 host value = net_to_host16 host value

unfoldable pub host_to_net32 : ByteOrder → ℕ → Py ℕ
unfolding net_to_host32
host_to_net32 host value = net_to_host32 host value
