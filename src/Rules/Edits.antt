-- ===== src/Rules/Edits.antt =====
-- Histories of the methods of dpi/rule_manager.py that change the rules.
use python_deep_packet_inspe.Prelude.{
  ℕ, ◌%◌, ◌^◌, Bool, true, false, List, [], ◌∷◌, ◌++◌, ◌==◌, if◌then◌else◌,
}
use python_deep_packet_inspe.Text.{same, lower}
use python_deep_packet_inspe.Text.Laws.{same_refl, same→eq}
use python_deep_packet_inspe.Sni.{Name}
use python_deep_packet_inspe.Apps.{AppType, same_app}
use python_deep_packet_inspe.Apps.Codes.{same_app_refl, same_app→eq}
use python_deep_packet_inspe.Rules.Sets.{add_key, pop_key, add_key-Distinct, pop_key-Distinct}
use python_deep_packet_inspe.Rules.{
  RuleManager, init, block_ip, unblock_ip, block_app, unblock_app, is_pattern, block_domain,
  unblock_domain, block_port, unblock_port, clear_all,
}
use python_deep_packet_inspe.Rules.Laws.{IsRuleSet, number_refl, number_same}

pub data Edit : Type 0 where
  blocking_ip unblocking_ip blocking_port unblocking_port : ℕ → Edit
  blocking_app unblocking_app : AppType → Edit
  blocking_domain unblocking_domain : Name → Edit
  clearing : Edit

unfoldable pub apply : Edit → RuleManager → RuleManager
apply (blocking_ip ip) rules = block_ip ip rules
apply (unblocking_ip ip) rules = unblock_ip ip rules
apply (blocking_port port) rules = block_port port rules
apply (unblocking_port port) rules = unblock_port port rules
apply (blocking_app app) rules = block_app app rules
apply (unblocking_app app) rules = unblock_app app rules
apply (blocking_domain domain) rules = block_domain domain rules
apply (unblocking_domain domain) rules = unblock_domain domain rules
apply clearing rules = clear_all rules

apply-IsRuleSet :
    (edit : Edit) (rules : RuleManager) → IsRuleSet rules → IsRuleSet (apply edit rules)
unfolding apply block_ip unblock_ip block_port unblock_port block_app unblock_app block_domain
    unblock_domain clear_all init
apply-IsRuleSet (blocking_ip ip) rules h = record {
  ips =
      add_key-Distinct (λ x y. x == y) number_refl number_same (ip % 2 ^ 32) rules.blocked_ips
        h.ips;
  apps = h.apps;
  domains = h.domains;
  ports = h.ports;
}
apply-IsRuleSet (unblocking_ip ip) rules h = record {
  ips =
      pop_key-Distinct (λ x y. x == y) number_refl number_same (ip % 2 ^ 32) rules.blocked_ips
        h.ips;
  apps = h.apps;
  domains = h.domains;
  ports = h.ports;
}
apply-IsRuleSet (blocking_port port) rules h = record {
  ips = h.ips;
  apps = h.apps;
  domains = h.domains;
  ports =
      add_key-Distinct (λ x y. x == y) number_refl number_same (port % 2 ^ 16) rules.blocked_ports
        h.ports;
}
apply-IsRuleSet (unblocking_port port) rules h = record {
  ips = h.ips;
  apps = h.apps;
  domains = h.domains;
  ports =
      pop_key-Distinct (λ x y. x == y) number_refl number_same (port % 2 ^ 16) rules.blocked_ports
        h.ports;
}
apply-IsRuleSet (blocking_app app) rules h = record {
  ips = h.ips;
  apps = add_key-Distinct same_app same_app_refl same_app→eq app rules.blocked_apps h.apps;
  domains = h.domains;
  ports = h.ports;
}
apply-IsRuleSet (unblocking_app app) rules h = record {
  ips = h.ips;
  apps = pop_key-Distinct same_app same_app_refl same_app→eq app rules.blocked_apps h.apps;
  domains = h.domains;
  ports = h.ports;
}
apply-IsRuleSet (blocking_domain domain) rules h = by_shape (is_pattern domain)
  where
    by_shape :
        (b : Bool)
        → IsRuleSet (
            if b
            then record rules { domain_patterns = rules.domain_patterns ++ domain ∷ [] }
            else record rules {
              blocked_domains = add_key same (lower domain) rules.blocked_domains;
            })
    by_shape true = record { ips = h.ips; apps = h.apps; domains = h.domains; ports = h.ports }
    by_shape false = record {
      ips = h.ips;
      apps = h.apps;
      domains =
          add_key-Distinct same same_refl same→eq (lower domain) rules.blocked_domains h.domains;
      ports = h.ports;
    }
apply-IsRuleSet (unblocking_domain domain) rules h = by_shape (is_pattern domain)
  where
    by_shape :
        (b : Bool)
        → IsRuleSet (
            if b
            then record rules { domain_patterns = pop_key same domain rules.domain_patterns }
            else record rules {
              blocked_domains = pop_key same (lower domain) rules.blocked_domains;
            })
    by_shape true = record { ips = h.ips; apps = h.apps; domains = h.domains; ports = h.ports }
    by_shape false = record {
      ips = h.ips;
      apps = h.apps;
      domains =
          pop_key-Distinct same same_refl same→eq (lower domain) rules.blocked_domains h.domains;
      ports = h.ports;
    }
apply-IsRuleSet clearing rules h = record { ips = tt; apps = tt; domains = tt; ports = tt }

unfoldable pub apply_all : List Edit → RuleManager → RuleManager
unfolding apply
apply_all [] rules = rules
apply_all (edit ∷ edits) rules = apply_all edits (apply edit rules)

keeps :
    (edits : List Edit) (rules : RuleManager) → IsRuleSet rules → IsRuleSet (apply_all edits rules)
unfolding apply_all
keeps [] rules h = h
keeps (edit ∷ edits) rules h = keeps edits (apply edit rules) (apply-IsRuleSet edit rules h)

-- After any history of edits from the empty manager, no key stands twice in a table of rules, so
-- that one unblocking undoes every blocking of an address, port, application or exact name.
pub apply_all-IsRuleSet : (edits : List Edit) → IsRuleSet (apply_all edits init)
unfolding init
apply_all-IsRuleSet edits =
    keeps edits init (record { ips = tt; apps = tt; domains = tt; ports = tt })
