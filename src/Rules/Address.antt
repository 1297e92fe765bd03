-- ===== src/Rules/Address.antt =====
-- `parse_ip` and `ip_to_string` of dpi/rule_manager.py.
use python_deep_packet_inspe.Prelude.{
  ℕ, zero, suc, ◌+◌, ◌*◌, ◌/◌, ◌%◌, ◌^◌, ◌<◌, bit_or, ◌≡◌, refl, sym, ap, ◌∙◌, Bool, true, false,
  List, [], ◌∷◌, ◌++◌, append-nil, append_assoc, ltb→lt, arith, ltb, if◌then◌else◌,
}
use python_deep_packet_inspe.Prelude.Bits.{bit_or_low, zero-bit_or}
use python_deep_packet_inspe.Rules.{
  place_octet, parse_octets, parse_ip, digits, decimal, ip_to_string,
}

digit_step :
    (result octet shift d : ℕ) (text : List ℕ)
    → d < 10
    → parse_octets result octet shift ((48 + d) ∷ text)
      ≡ parse_octets result ((octet * 10 + d) % 2 ^ 32) shift text
unfolding parse_octets
digit_step result octet shift d text h = ground (arith, h)

digits_lem :
    (fuel n result shift : ℕ) (text : List ℕ)
    → n < fuel
    → n < 2 ^ 32
    → parse_octets result 0 shift (digits fuel n ++ text) ≡ parse_octets result n shift text
unfolding digits
digits_lem zero n result shift text h l = elim h [ ]
digits_lem (suc fuel) n result shift text h l =
    by_size (ltb n 10) refl (digits_lem fuel (n / 10) result shift ((48 + n % 10) ∷ text))
  where
    by_size :
        (b : Bool)
        → ltb n 10 ≡ b
        → (n / 10 < fuel
            → n / 10 < 2 ^ 32
            → parse_octets result 0 shift (digits fuel (n / 10) ++ (48 + n % 10) ∷ text)
              ≡ parse_octets result (n / 10) shift ((48 + n % 10) ∷ text))
        → parse_octets result 0 shift
            ((if b then (48 + n) ∷ [] else digits fuel (n / 10) ++ (48 + n % 10) ∷ []) ++ text)
          ≡ parse_octets result n shift text
    by_size true e rest =
        digit_step result 0 shift n text (ltb→lt n 10 e)
        ∙ ap (λ o. parse_octets result o shift text) (omega (arith, l))
    by_size false e rest =
        ap (parse_octets result 0 shift)
          (append_assoc (digits fuel (n / 10)) ((48 + n % 10) ∷ []) text)
        ∙ rest (grind (arith, e, h)) (omega (arith, l))
        ∙ digit_step result (n / 10) shift (n % 10) text (omega arith)
        ∙ ap (λ o. parse_octets result o shift text) (omega (arith, l))

decimal_lem :
    (n result shift : ℕ) (text : List ℕ)
    → n < 2 ^ 32
    → parse_octets result 0 shift (decimal n ++ text) ≡ parse_octets result n shift text
unfolding decimal
decimal_lem n result shift text h = digits_lem (suc n) n result shift text (omega arith) h

dot_step :
    (n result shift : ℕ) (text : List ℕ)
    → n < 2 ^ 32
    → parse_octets result 0 shift (decimal n ++ 46 ∷ text)
      ≡ parse_octets (place_octet result n shift) 0 (shift + 8) text
unfolding parse_octets
dot_step n result shift text h = decimal_lem n result shift (46 ∷ text) h

last_step :
    (n result shift : ℕ)
    → n < 2 ^ 32
    → parse_octets result 0 shift (decimal n) ≡ place_octet result n shift % 2 ^ 32
unfolding parse_octets
last_step n result shift h =
    ap (parse_octets result 0 shift) (sym (append-nil (decimal n)))
    ∙ decimal_lem n result shift [] h

octet₁ : (b : ℕ) → b < 2 ^ 8 → place_octet 0 b 0 ≡ b
unfolding place_octet
octet₁ b h = zero-bit_or (b * 2 ^ 0 % 2 ^ 32) ∙ omega (arith, h)

octet₂ : (r b : ℕ) → r < 2 ^ 8 → b < 2 ^ 8 → place_octet r b 8 ≡ r + b * 2 ^ 8
unfolding place_octet
octet₂ r b h l = ap (bit_or r) (omega (arith, l)) ∙ bit_or_low 8 b r h

octet₃ : (r b : ℕ) → r < 2 ^ 16 → b < 2 ^ 8 → place_octet r b 16 ≡ r + b * 2 ^ 16
unfolding place_octet
octet₃ r b h l = ap (bit_or r) (omega (arith, l)) ∙ bit_or_low 16 b r h

octet₄ : (r b : ℕ) → r < 2 ^ 24 → b < 2 ^ 8 → place_octet r b 24 ≡ r + b * 2 ^ 24
unfolding place_octet
octet₄ r b h l = ap (bit_or r) (omega (arith, l)) ∙ bit_or_low 24 b r h

joined :
    (a b c d : ℕ)
    → a < 2 ^ 8
    → b < 2 ^ 8
    → c < 2 ^ 8
    → d < 2 ^ 8
    → place_octet (place_octet (place_octet (place_octet 0 a 0) b 8) c 16) d 24
      ≡ a + b * 2 ^ 8 + c * 2 ^ 16 + d * 2 ^ 24
joined a b c d h₁ h₂ h₃ h₄ =
    ap (λ r. place_octet (place_octet (place_octet r b 8) c 16) d 24) (octet₁ a h₁)
    ∙ ap (λ r. place_octet (place_octet r c 16) d 24) (octet₂ a b h₁ h₂)
    ∙ ap (λ r. place_octet r d 24) (octet₃ (a + b * 2 ^ 8) c (omega (arith, h₁, h₂)) h₃)
    ∙ octet₄ (a + b * 2 ^ 8 + c * 2 ^ 16) d (omega (arith, h₁, h₂, h₃)) h₄

-- A 32-bit address, written as a dotted quad and parsed again, is the address.
pub parse_ip-ip_to_string : (ip : ℕ) → ip < 2 ^ 32 → parse_ip (ip_to_string ip) ≡ ip
unfolding parse_ip ip_to_string
parse_ip-ip_to_string ip h =
    let a = ip % 2 ^ 8 in
    let b = ip / 2 ^ 8 % 2 ^ 8 in
    let c = ip / 2 ^ 16 % 2 ^ 8 in
    let d = ip / 2 ^ 24 % 2 ^ 8 in
    dot_step a 0 0 (decimal b ++ 46 ∷ (decimal c ++ 46 ∷ decimal d)) (omega arith)
    ∙ dot_step b (place_octet 0 a 0) 8 (decimal c ++ 46 ∷ decimal d) (omega arith)
    ∙ dot_step c (place_octet (place_octet 0 a 0) b 8) 16 (decimal d) (omega arith)
    ∙ last_step d (place_octet (place_octet (place_octet 0 a 0) b 8) c 16) 24 (omega arith)
    ∙ ap (λ r. r % 2 ^ 32) (joined a b c d (omega arith) (omega arith) (omega arith) (omega arith))
    ∙ omega (arith, h)
