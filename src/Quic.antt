-- ===== src/Quic.antt =====
-- `QUICSNIExtractor` of dpi/sni_extractor.py: it looks for a Client Hello in the bytes of a packet.
pub mod Window
use python_deep_packet_inspe.Prelude.{
  ℕ, zero, suc, ◌+◌, ◌-◌, Bool, not, ◌==◌, Option, none, some, List, Py, ok, raise, out_of_fuel,
  ◌>>=◌, index, drop, ltb, leb, if◌then◌else◌, false,
}
use python_deep_packet_inspe.Sni as Tls
use python_deep_packet_inspe.Sni.{Name}

-- The form bit: `first_byte & 0x80` of a byte.
unfoldable pub is_quic_initial : List ℕ → ℕ → Py Bool
is_quic_initial payload length =
    if ltb length 5 then ok false else do first_byte ← index payload 0; ok (leb 128 first_byte)

-- `SNIExtractor.extract` on the window that begins five bytes before `i`.
unfoldable pub extract_at : List ℕ → ℕ → ℕ → Py (Option Name)
unfolding Tls.extract
extract_at payload length i = do
  kind ← index payload i
  if kind == 1 then Tls.extract (drop (i - 5) payload) (length - i + 5) else ok none

-- The loop, on fuel: a round moves `i` on by one.
unfoldable pub scan : ℕ → List ℕ → ℕ → ℕ → Py (Option Name)
unfolding extract_at
scan zero payload length i = raise out_of_fuel
scan (suc fuel) payload length i = if not (ltb (i + 50) length) then ok none else do
  found ← extract_at payload length i
  elim found [ some name ↦ ok (some name) | none ↦ scan fuel payload length (i + 1) ]

unfoldable pub extract : List ℕ → ℕ → Py (Option Name)
unfolding is_quic_initial scan
extract payload length = do
  initial ← is_quic_initial payload length
  if not initial then ok none else scan (suc length) payload length 5
