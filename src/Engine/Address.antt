-- ===== src/Engine/Address.antt =====
-- `_parse_ip` of dpi/dpi_engine.py undoes `ip_to_string` of dpi/packet_parser.py.
use python_deep_packet_inspe.Prelude.{
  Bool, true, false, ltb, if◌then◌else◌, ltb→lt, append_assoc, ◌∙◌, ℕ, zero, suc, ◌+◌, ◌*◌, ◌/◌,
  ◌%◌, ◌^◌, ◌<◌, bit_or, ◌≡◌, refl, sym, ap, ◌∙◌, Bool, true, false, List, [], ◌∷◌, ◌++◌,
  append-nil, append_assoc, ltb→lt, arith, ltb, if◌then◌else◌,
}
use python_deep_packet_inspe.Prelude.Bits.{bit_or_low, zero-bit_or}
use python_deep_packet_inspe.Rules.{digits, decimal}
use python_deep_packet_inspe.Parser.{format_ip}
use python_deep_packet_inspe.Engine.{parse_octets, parse_ip}

digit_step :
    (result octet shift d : ℕ) (text : List ℕ)
    → d < 10
    → parse_octets result octet shift ((48 + d) ∷ text)
      ≡ parse_octets result (octet * 10 + d) shift text
unfolding parse_octets
digit_step result octet shift d text h = ground (arith, h)

digits_lem :
    (fuel n result shift : ℕ) (text : List ℕ)
    → n < fuel
    → parse_octets result 0 shift (digits fuel n ++ text) ≡ parse_octets result n shift text
unfolding digits
digits_lem zero n result shift text h = elim h [ ]
digits_lem (suc fuel) n result shift text h =
    by_size (ltb n 10) refl (digits_lem fuel (n / 10) result shift ((48 + n % 10) ∷ text))
  where
    by_size :
        (b : Bool)
        → ltb n 10 ≡ b
        → (n / 10 < fuel
            → parse_octets result 0 shift (digits fuel (n / 10) ++ (48 + n % 10) ∷ text)
              ≡ parse_octets result (n / 10) shift ((48 + n % 10) ∷ text))
        → parse_octets result 0 shift
            ((if b then (48 + n) ∷ [] else digits fuel (n / 10) ++ (48 + n % 10) ∷ []) ++ text)
          ≡ parse_octets result n shift text
    by_size true e rest =
        digit_step result 0 shift n text (ltb→lt n 10 e)
        ∙ ap (λ o. parse_octets result o shift text) (omega arith)
    by_size false e rest =
        ap (parse_octets result 0 shift)
          (append_assoc (digits fuel (n / 10)) ((48 + n % 10) ∷ []) text)
        ∙ rest (grind (arith, e, h))
        ∙ digit_step result (n / 10) shift (n % 10) text (omega arith)
        ∙ ap (λ o. parse_octets result o shift text) (omega arith)

-- An octet below `2 ^ 32`, a dot after it, is put at `shift`.
octet_lem :
    (n result shift : ℕ) (text : List ℕ)
    → parse_octets result 0 shift (decimal n ++ b'.' ∷ text)
      ≡ parse_octets (bit_or result (n * 2 ^ shift % 2 ^ 32)) 0 (shift + 8) text
unfolding decimal parse_octets
octet_lem n result shift text = digits_lem (suc n) n result shift (b'.' ∷ text) (omega arith)

last_lem :
    (n result shift : ℕ)
    → parse_octets result 0 shift (decimal n) ≡ bit_or result (n * 2 ^ shift % 2 ^ 32) % 2 ^ 32
unfolding decimal parse_octets
last_lem n result shift =
    ap (parse_octets result 0 shift) (sym (append-nil (decimal n)))
    ∙ digits_lem (suc n) n result shift [] (omega arith)

place : (k r b : ℕ) → r < 2 ^ k → b * 2 ^ k < 2 ^ 32 → bit_or r (b * 2 ^ k % 2 ^ 32) ≡ r + b * 2 ^ k
place k r b h l = ap (bit_or r) (omega (arith, l)) ∙ bit_or_low k b r h

-- An address that the parser printed is read back as the number that it was.
pub parse_ip-format_ip : (ip : ℕ) → ip < 2 ^ 32 → parse_ip (format_ip ip) ≡ ip
unfolding parse_ip format_ip
parse_ip-format_ip ip h =
    let a = ip % 2 ^ 8 in
    let b = ip / 2 ^ 8 % 2 ^ 8 in
    let c = ip / 2 ^ 16 % 2 ^ 8 in
    let d = ip / 2 ^ 24 % 2 ^ 8 in
    octet_lem a 0 0 (decimal b ++ 46 ∷ (decimal c ++ 46 ∷ decimal d))
    ∙ ap (λ r. parse_octets r 0 8 (decimal b ++ 46 ∷ (decimal c ++ 46 ∷ decimal d)))
        (zero-bit_or (a * 2 ^ 0 % 2 ^ 32) ∙ omega arith)
    ∙ octet_lem b a 8 (decimal c ++ 46 ∷ decimal d)
    ∙ ap (λ r. parse_octets r 0 16 (decimal c ++ 46 ∷ decimal d))
        (place 8 a b (omega arith) (omega arith))
    ∙ octet_lem c (a + b * 2 ^ 8) 16 (decimal d)
    ∙ ap (λ r. parse_octets r 0 24 (decimal d))
        (place 16 (a + b * 2 ^ 8) c (omega arith) (omega arith))
    ∙ last_lem d (a + b * 2 ^ 8 + c * 2 ^ 16) 24
    ∙ ap (λ r. r % 2 ^ 32) (place 24 (a + b * 2 ^ 8 + c * 2 ^ 16) d (omega arith) (omega arith))
    ∙ omega (arith, h)
