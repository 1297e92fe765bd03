-- ===== src/Rules/Laws.antt =====
-- What the methods of `RuleManager` of dpi/rule_manager.py do to each other's answers.
use python_deep_packet_inspe.Prelude.{
  ℕ, ◌%◌, ◌^◌, ◌≡◌, refl, ap, ◌↔◌, ◌⊎◌, inl, inr, Bool, true, false, not, ◌&&◌, ◌||◌, ◌∷◌, ◌++◌,
  arith, ◌==◌,
}
use python_deep_packet_inspe.Text.{dot, same, is_prefix, is_suffix, lower}
use python_deep_packet_inspe.Text.Laws.{
  same_refl, same→eq, lower-lower, is_suffix→append, is_suffix-append,
}
use python_deep_packet_inspe.Sni.{Name}
use python_deep_packet_inspe.Apps.{same_app}
use python_deep_packet_inspe.Rules.Sets.{member, Distinct, member-add_key, member-pop_key}
use python_deep_packet_inspe.Rules.{
  RuleManager, block_ip, unblock_ip, is_ip_blocked, is_pattern, block_domain, block_port,
  unblock_port, is_port_blocked, domain_matches_pattern, matches_pattern, is_domain_blocked,
}

-- No key stands twice in a table that is a dictionary.
pub record IsRuleSet (rules : RuleManager) : Type 0 where
  pub ips : Distinct (λ x y. x == y) rules.blocked_ips
  pub apps : Distinct same_app rules.blocked_apps
  pub domains : Distinct same rules.blocked_domains
  pub ports : Distinct (λ x y. x == y) rules.blocked_ports

pub number_refl : (n : ℕ) → n == n ≡ true
number_refl n = ground arith

pub number_same : (m n : ℕ) → m == n ≡ true → m ≡ n
number_same m n h = ground arith

-- Blocking a source address blocks it and no other; unblocking it frees it and no other.
pub is_ip_blocked-block_ip :
    (i j : ℕ) (rules : RuleManager)
    → IsRuleSet rules
    → (is_ip_blocked j (block_ip i rules) ≡ (j % 2 ^ 32 == i % 2 ^ 32 || is_ip_blocked j rules))
      × (is_ip_blocked j (unblock_ip i rules)
          ≡ (not (j % 2 ^ 32 == i % 2 ^ 32) && is_ip_blocked j rules))
unfolding is_ip_blocked block_ip unblock_ip
is_ip_blocked-block_ip i j rules h = (
  member-add_key (λ x y. x == y) number_refl number_same (j % 2 ^ 32) (i % 2 ^ 32)
      rules.blocked_ips,
  member-pop_key (λ x y. x == y) number_refl number_same (j % 2 ^ 32) (i % 2 ^ 32) rules.blocked_ips
      h.ips,
)

-- Blocking a destination port blocks it and no other; unblocking it frees it and no other.
pub is_port_blocked-block_port :
    (i j : ℕ) (rules : RuleManager)
    → IsRuleSet rules
    → (is_port_blocked j (block_port i rules)
        ≡ (j % 2 ^ 16 == i % 2 ^ 16 || is_port_blocked j rules))
      × (is_port_blocked j (unblock_port i rules)
          ≡ (not (j % 2 ^ 16 == i % 2 ^ 16) && is_port_blocked j rules))
unfolding is_port_blocked block_port unblock_port
is_port_blocked-block_port i j rules h = (
  member-add_key (λ x y. x == y) number_refl number_same (j % 2 ^ 16) (i % 2 ^ 16)
      rules.blocked_ports,
  member-pop_key (λ x y. x == y) number_refl number_same (j % 2 ^ 16) (i % 2 ^ 16)
      rules.blocked_ports h.ports,
)

module _ (fnmatchcase : Name → Name → Bool) where
  -- A name is blocked whatever its case, and a rule for a name blocks it whatever the rule's case.
  pub is_domain_blocked-lower :
      (name rule : Name) (rules : RuleManager)
      → is_pattern rule ≡ false
      → (is_domain_blocked fnmatchcase (lower name) rules
          ≡ is_domain_blocked fnmatchcase name rules)
        × (is_domain_blocked fnmatchcase name (block_domain rule rules)
            ≡ (same (lower name) (lower rule) || is_domain_blocked fnmatchcase name rules))
  unfolding is_domain_blocked block_domain
  is_domain_blocked-lower name rule rules h = (
    ap
        (λ n.
          member same n rules.blocked_domains
          || matches_pattern fnmatchcase n rules.domain_patterns)
        (lower-lower name),
    rw h (
        ground (
          arith,
          member-add_key same same_refl same→eq (lower name) (lower rule) rules.blocked_domains,
        )),
  )

  -- A pattern "*." in front of a name matches the name and its subdomains, and nothing else.
  pub domain_matches_pattern-wildcard :
      (name rest : Name)
      → (domain_matches_pattern fnmatchcase name (42 ∷ dot ∷ rest) ≡ true)
        ↔ ((name ≡ rest) ⊎ ((pre : Name) × (name ≡ pre ++ dot ∷ rest)))
  unfolding domain_matches_pattern is_prefix
  domain_matches_pattern-wildcard name rest = (matched (is_suffix (dot ∷ rest) name) refl, anchored)
    where
      matched :
          (b : Bool)
          → is_suffix (dot ∷ rest) name ≡ b
          → (b || same name rest) ≡ true
          → (name ≡ rest) ⊎ ((pre : Name) × (name ≡ pre ++ dot ∷ rest))
      matched true e h = inr (is_suffix→append (dot ∷ rest) name e)
      matched false e h = inl (same→eq name rest h)

      anchored :
          (name ≡ rest) ⊎ ((pre : Name) × (name ≡ pre ++ dot ∷ rest))
          → (is_suffix (dot ∷ rest) name || same name rest) ≡ true
      anchored (inl e) = ground (arith, e, same_refl rest)
      anchored (inr (pre, e)) = ground (arith, e, is_suffix-append pre (dot ∷ rest))
