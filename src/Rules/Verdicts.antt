-- ===== src/Rules/Verdicts.antt =====
-- `should_block` of dpi/rule_manager.py against the other methods.
use python_deep_packet_inspe.Prelude.{
  ℕ, ◌%◌, ◌^◌, ◌<◌, ◌≡◌, refl, ◌∙◌, ◌↔◌, Bool, true, false, none, some, List, arith, ◌==◌,
}
use python_deep_packet_inspe.Sni.{Name}
use python_deep_packet_inspe.Apps.{AppType}
use python_deep_packet_inspe.Rules.Sets.{member-add_key}
use python_deep_packet_inspe.Rules.{
  RuleManager, block_ip, is_ip_blocked, is_port_blocked, is_app_blocked, ip_reason, blocks_name,
  should_block, ip_to_string, parse_ip,
}
use python_deep_packet_inspe.Rules.Laws.{number_refl, number_same}
use python_deep_packet_inspe.Rules.Address.{parse_ip-ip_to_string}

module _ (fnmatchcase : Name → Name → Bool) (src_ip dst_port : ℕ) (app : AppType) (name : Name)
    (rules : RuleManager) where
  -- There is no reason to block a packet exactly when no rule blocks its address, its port, its
  -- application or its name.
  pub should_block-none : (should_block fnmatchcase src_ip dst_port app name rules ≡ none) ↔ (
      (is_ip_blocked src_ip rules ≡ false)
      × (is_port_blocked dst_port rules ≡ false)
      × (is_app_blocked app rules ≡ false)
      × (blocks_name fnmatchcase name rules ≡ false))
  unfolding should_block
  should_block-none = (
    λ h. (ground (arith, h), ground (arith, h), ground (arith, h), ground (arith, h)),
    λ h. ground (arith, h),
  )

  blocked_now : is_ip_blocked src_ip (block_ip src_ip rules) ≡ true
  unfolding is_ip_blocked block_ip
  blocked_now =
      member-add_key (λ x y. x == y) number_refl number_same (src_ip % 2 ^ 32) (src_ip % 2 ^ 32)
        rules.blocked_ips
      ∙ ground (arith, number_refl (src_ip % 2 ^ 32))

  -- After an address is blocked every packet from it is blocked for its address, whatever the other
  -- rules say, and the detail of the reason is text that parses to the address.
  pub should_block-block_ip :
      src_ip < 2 ^ 32
      → (detail : List ℕ) × (should_block fnmatchcase src_ip dst_port app name
            (block_ip src_ip rules)
          ≡ some (record { kind = ip_reason; detail = detail }))
        × (parse_ip detail ≡ src_ip)
  unfolding should_block
  should_block-block_ip h =
      (ip_to_string src_ip, rw blocked_now refl, parse_ip-ip_to_string src_ip h)
