-- ===== src/Tests/Names.antt =====
-- The theorems on names and rules, at names and rules.
use python_deep_packet_inspe.Prelude.{ℕ, ◌≡◌, refl, ◌↔◌, false, none, List, [], ◌∷◌, arith}
use python_deep_packet_inspe.Text.{same}
use python_deep_packet_inspe.Apps.{unknown, sni_to_app_type}
use python_deep_packet_inspe.Apps.Spec.{IsClass, sni_to_app_type-IsClass}
use python_deep_packet_inspe.Rules.{
  parse_ip, ip_to_string, is_ip_blocked, is_port_blocked, is_app_blocked, blocks_name, should_block,
}
use python_deep_packet_inspe.Rules.Sets.{member}
use python_deep_packet_inspe.Rules.Laws.{IsRuleSet}
use python_deep_packet_inspe.Rules.Address.{parse_ip-ip_to_string}
use python_deep_packet_inspe.Rules.Verdicts.{should_block-none}
use python_deep_packet_inspe.Tests.{rules}

-- "X.com", and "x.com".
abbrev x_com : List ℕ
x_com = 88 ∷ 46 ∷ 99 ∷ 111 ∷ 109 ∷ []

abbrev x_com_lower : List ℕ
x_com_lower = 120 ∷ 46 ∷ 99 ∷ 111 ∷ 109 ∷ []

sni_to_app_type-IsClass_example : IsClass x_com (sni_to_app_type x_com)
sni_to_app_type-IsClass_example = sni_to_app_type-IsClass x_com

rules-IsRuleSet : IsRuleSet rules
unfolding member
rules-IsRuleSet = record { ips = (refl, tt); apps = (refl, tt); domains = tt; ports = (refl, tt) }

should_block-none_example : (should_block same 3 80 unknown x_com rules ≡ none) ↔ (
    (is_ip_blocked 3 rules ≡ false)
    × (is_port_blocked 80 rules ≡ false)
    × (is_app_blocked unknown rules ≡ false)
    × (blocks_name same x_com rules ≡ false))
should_block-none_example = should_block-none same 3 80 unknown x_com rules

-- 192.168.1.50.
parse_ip-ip_to_string_example : parse_ip (ip_to_string 0x3201_A8C0) ≡ 0x3201_A8C0
parse_ip-ip_to_string_example = parse_ip-ip_to_string 0x3201_A8C0 (omega arith)
