-- ===== src/Rules/File/Tables.antt =====
-- The tables of dpi/rule_manager.py as a rules file fills them.
use python_deep_packet_inspe.Prelude.{
  subst, ℕ, ◌≡◌, ◌<◌, Bool, true, false, List, [], ◌∷◌, ◌++◌, refl, sym, ap, arith, All, ◌^◌, ◌∙◌,
  ◌==◌, map, append-nil, append_assoc,
}
use python_deep_packet_inspe.Sni.{Name}
use python_deep_packet_inspe.Text.{same, lower}
use python_deep_packet_inspe.Text.Laws.{same_refl, same→eq}
use python_deep_packet_inspe.Apps.{AppType, app_count, same_app}
use python_deep_packet_inspe.Apps.Codes.{same_app_refl, same_app→eq}
use python_deep_packet_inspe.Rules.Sets.{add_key, Distinct, add_key-new, Distinct-before}
use python_deep_packet_inspe.Rules.{
  RuleManager, block_ip, block_app, block_domain, block_port, is_pattern,
}
use python_deep_packet_inspe.Rules.Laws.{IsRuleSet, number_refl, number_same}
use python_deep_packet_inspe.Rules.File.{Loading, load_line, load_lines}
use python_deep_packet_inspe.Rules.File.Lines.{Plain}
use python_deep_packet_inspe.Rules.File.Entries.{is_entry}

module _ {A : Type 0} (block : A → RuleManager → RuleManager) where
  unfoldable pub block_all : List A → RuleManager → RuleManager
  block_all [] rules = rules
  block_all (a ∷ keys) rules = block_all keys (block a rules)

-- A table of rules, written as lines and loaded in its section.
module _ {A : Type 0} (text : A → Name) (block : A → RuleManager → RuleManager) (Fits : A → Type 0)
    (section : Name)
    (one : (a : A) (loading : Loading)
      → Fits a
      → loading.section ≡ section
      → load_line (text a) loading ≡ record loading { rules = block a loading.rules }) where
  pub load_lines-block_all :
      (keys : List A) (loading : Loading)
      → All Fits keys
      → loading.section ≡ section
      → load_lines (map text keys) loading
        ≡ record loading { rules = block_all block keys loading.rules }
  unfolding load_lines block_all
  load_lines-block_all [] loading h e = refl
  load_lines-block_all (a ∷ keys) loading (f, h) e =
      ap (load_lines (map text keys)) (one a loading f e)
      ∙ load_lines-block_all keys (record loading { rules = block a loading.rules }) h e

-- A table of the rules, of keys that `block` adds.
module _ {A : Type 0} (eq : A → A → Bool) (eq_refl : (x : A) → eq x x ≡ true)
    (eq→same : (x y : A) → eq x y ≡ true → x ≡ y) (block : A → RuleManager → RuleManager)
    (table : RuleManager → List A) (put : List A → RuleManager → RuleManager) (Fits : A → Type 0)
    (one : (a : A) (rules : RuleManager)
      → Fits a
      → block a rules ≡ put (add_key eq a (table rules)) rules)
    (table-put : (keys : List A) (rules : RuleManager) → table (put keys rules) ≡ keys)
    (put-put : (keys others : List A) (rules : RuleManager)
      → put keys (put others rules) ≡ put keys rules)
    (put-table : (rules : RuleManager) → put (table rules) rules ≡ rules) where
  block_all-put :
      (keys : List A) (rules : RuleManager)
      → All Fits keys
      → Distinct eq (table rules ++ keys)
      → block_all block keys rules ≡ put (table rules ++ keys) rules
  unfolding block_all
  block_all-put [] rules h d =
      sym (ap (λ t. put t rules) (append-nil (table rules)) ∙ put-table rules)
  block_all-put (a ∷ keys) rules (f, h) d =
      let old = table rules in
      let longer = old ++ a ∷ [] in
      let e =
        one a rules f
        ∙ ap (λ t. put t rules)
            (add_key-new eq eq_refl eq→same a old
              (Distinct-before eq eq_refl eq→same a old keys d)) in
      let same_keys = append_assoc old (a ∷ []) keys in
      let t = table-put longer rules in
      ap (block_all block keys) e
      ∙ block_all-put keys (put longer rules) h
          (subst (Distinct eq) (sym (ap (λ l. l ++ keys) t ∙ same_keys)) d)
      ∙ ap (λ l. put (l ++ keys) (put longer rules)) t
      ∙ put-put (longer ++ keys) longer rules
      ∙ ap (λ l. put l rules) same_keys

-- A name that is no pattern, in the case in which it is kept, and a pattern, each a line of its own.
pub record FitsName (domain : Name) : Type 0 where
  pub plain : Plain domain
  pub entry : is_entry domain ≡ true
  pub exact : is_pattern domain ≡ false
  pub lowered : lower domain ≡ domain

pub record FitsPattern (pattern : Name) : Type 0 where
  pub plain : Plain pattern
  pub entry : is_entry pattern ≡ true
  pub wild : is_pattern pattern ≡ true

-- Rules that a file can hold.
pub record FitsFile (rules : RuleManager) : Type 0 where
  pub sets : IsRuleSet rules
  pub ips : All (λ ip. ip < 2 ^ 32) rules.blocked_ips
  pub apps : All (λ app. same_app app app_count ≡ false) rules.blocked_apps
  pub domains : All FitsName rules.blocked_domains
  pub patterns : All FitsPattern rules.domain_patterns
  pub ports : All (λ port. port < 2 ^ 16) rules.blocked_ports

pub block_domain-pattern :
    (patterns : List Name) (rules : RuleManager)
    → All FitsPattern patterns
    → block_all block_domain patterns rules
      ≡ record rules { domain_patterns = rules.domain_patterns ++ patterns }
unfolding block_all block_domain
block_domain-pattern [] rules h =
    ap (λ t. record rules { domain_patterns = t }) (sym (append-nil rules.domain_patterns))
block_domain-pattern (p ∷ patterns) rules (f, h) =
    rw f.wild (
      block_domain-pattern patterns
        (record rules { domain_patterns = rules.domain_patterns ++ p ∷ [] }) h)
    ∙ ap (λ t. record rules { domain_patterns = t })
        (append_assoc rules.domain_patterns (p ∷ []) patterns)

pub block_ips :
    (keys : List ℕ) (rules : RuleManager)
    → All (λ ip. ip < 2 ^ 32) keys
    → Distinct (λ x y. x == y) (rules.blocked_ips ++ keys)
    → block_all block_ip keys rules ≡ record rules { blocked_ips = rules.blocked_ips ++ keys }
unfolding block_ip
block_ips =
    block_all-put (λ x y. x == y) number_refl number_same block_ip (λ r. r.blocked_ips)
      (λ t r. record r { blocked_ips = t }) (λ ip. ip < 2 ^ 32)
      (λ ip r l.
        ap (λ i. record r { blocked_ips = add_key (λ x y. x == y) i r.blocked_ips })
          (omega (arith, l)))
      (λ t r. refl) (λ t u r. refl) (λ r. refl)

pub block_ports :
    (keys : List ℕ) (rules : RuleManager)
    → All (λ port. port < 2 ^ 16) keys
    → Distinct (λ x y. x == y) (rules.blocked_ports ++ keys)
    → block_all block_port keys rules ≡ record rules { blocked_ports = rules.blocked_ports ++ keys }
unfolding block_port
block_ports =
    block_all-put (λ x y. x == y) number_refl number_same block_port (λ r. r.blocked_ports)
      (λ t r. record r { blocked_ports = t }) (λ port. port < 2 ^ 16)
      (λ port r l.
        ap (λ i. record r { blocked_ports = add_key (λ x y. x == y) i r.blocked_ports })
          (omega (arith, l)))
      (λ t r. refl) (λ t u r. refl) (λ r. refl)

pub block_apps :
    (keys : List AppType) (rules : RuleManager)
    → All (λ app. same_app app app_count ≡ false) keys
    → Distinct same_app (rules.blocked_apps ++ keys)
    → block_all block_app keys rules ≡ record rules { blocked_apps = rules.blocked_apps ++ keys }
unfolding block_app
block_apps =
    block_all-put same_app same_app_refl same_app→eq block_app (λ r. r.blocked_apps)
      (λ t r. record r { blocked_apps = t }) (λ app. same_app app app_count ≡ false)
      (λ app r l. refl) (λ t r. refl) (λ t u r. refl) (λ r. refl)

pub block_names :
    (keys : List Name) (rules : RuleManager)
    → All FitsName keys
    → Distinct same (rules.blocked_domains ++ keys)
    → block_all block_domain keys rules
      ≡ record rules { blocked_domains = rules.blocked_domains ++ keys }
unfolding block_domain
block_names =
    block_all-put same same_refl same→eq block_domain (λ r. r.blocked_domains)
      (λ t r. record r { blocked_domains = t }) FitsName
      (λ name r f.
        rw f.exact
          (ap (λ n. record r { blocked_domains = add_key same n r.blocked_domains }) f.lowered))
      (λ t r. refl) (λ t u r. refl) (λ r. refl)
