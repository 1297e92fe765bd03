-- ===== src/Rules/File/RoundTrip.antt =====
-- Loading the file that `save_rules` of dpi/rule_manager.py wrote gives the rules that were saved.
use python_deep_packet_inspe.Prelude.{
  ◌≡◌, ◌<◌, true, false, List, [], ◌∷◌, ◌++◌, refl, sym, ap, All, All-append, All-map, ◌^◌, ◌∙◌,
  some, map, append-nil, append_assoc,
}
use python_deep_packet_inspe.Sni.{Name}
use python_deep_packet_inspe.Apps.{app_count, same_app, app_type_to_string}
use python_deep_packet_inspe.Rules.{
  RuleManager, init, decimal, ip_to_string, block_ip, block_app, block_domain, block_port,
}
use python_deep_packet_inspe.Rules.File.{
  Loading, ips_header, apps_header, domains_header, ports_header, load_line, load_lines, load_rules,
  save_rules, saved_lines, read_lines, get_blocked_ips, get_blocked_domains,
}
use python_deep_packet_inspe.Rules.File.Lines.{
  Plain, read_lines-write_lines, translate-write_lines, plain-Plain,
}
use python_deep_packet_inspe.Rules.File.Errors.{load_lines-append}
use python_deep_packet_inspe.Rules.File.Entries.{
  is_entry, load_line-ip, load_line-app, load_line-domain, load_line-port, decimal-Plain,
  ip_to_string-Plain, app-Plain,
}
use python_deep_packet_inspe.Rules.File.Tables.{
  block_all, load_lines-block_all, block_ips, block_apps, block_names, block_ports,
  block_domain-pattern, FitsFile, FitsName, FitsPattern,
}

abbrev at : Name → RuleManager → Loading
at section rules = record { section = section; rules = rules; reported = [] }

-- The lines of a table, and those after it.
section_lem :
    {A : Type 0} (text : A → Name) (block : A → RuleManager → RuleManager) (Fits : A → Type 0)
    (section : Name)
    (one : (a : A) (loading : Loading)
      → Fits a
      → loading.section ≡ section
      → load_line (text a) loading ≡ record loading { rules = block a loading.rules })
    (keys : List A) (rest : List Name) (rules filled : RuleManager)
    → All Fits keys
    → block_all block keys rules ≡ filled
    → load_lines (map text keys ++ rest) (at section rules) ≡ load_lines rest (at section filled)
section_lem text block Fits section one keys rest rules filled h e =
    load_lines-append (map text keys) rest (at section rules)
    ∙ ap (load_lines rest)
        (load_lines-block_all text block Fits section one keys (at section rules) h refl)
    ∙ ap (λ r. load_lines rest (at section r)) e

map_id : (names : List Name) → map (λ name. name) names ≡ names
map_id [] = refl
map_id (name ∷ names) = ap (◌∷◌ name) (map_id names)

names_lem :
    (names : List Name) (rest : List Name) (rules filled : RuleManager)
    → All (λ name. is_entry name ≡ true) names
    → block_all block_domain names rules ≡ filled
    → load_lines (names ++ rest) (at domains_header rules)
      ≡ load_lines rest (at domains_header filled)
names_lem names rest rules filled h e =
    ap (λ l. load_lines (l ++ rest) (at domains_header rules)) (sym (map_id names))
    ∙ section_lem (λ name. name) block_domain (λ name. is_entry name ≡ true) domains_header
        load_line-domain names rest rules filled h e

module _ (rules : RuleManager) (fits : FitsFile rules) where
  with_ips : RuleManager
  with_ips = record init { blocked_ips = rules.blocked_ips }

  with_apps : RuleManager
  with_apps = record with_ips { blocked_apps = rules.blocked_apps }

  with_names : RuleManager
  with_names = record with_apps { blocked_domains = rules.blocked_domains }

  with_patterns : RuleManager
  with_patterns = record with_names { domain_patterns = rules.domain_patterns }

  load_saved : load_lines (saved_lines rules) (at [] init) ≡ at ports_header rules
  unfolding load_lines load_line saved_lines get_blocked_ips get_blocked_domains with_ips with_apps
      with_names with_patterns init
  load_saved =
      let names = rules.blocked_domains in
      let patterns = rules.domain_patterns in
      let ports = map decimal rules.blocked_ports in
      let after_names = [] ∷ ports_header ∷ ports in
      let after_apps = [] ∷ domains_header ∷ ((names ++ patterns) ++ after_names) in
      let after_ips =
        [] ∷ apps_header ∷ (map app_type_to_string rules.blocked_apps ++ after_apps) in
      section_lem ip_to_string block_ip (λ ip. ip < 2 ^ 32) ips_header load_line-ip
        rules.blocked_ips after_ips init with_ips fits.ips
        (block_ips rules.blocked_ips init fits.ips fits.sets.ips)
      ∙ section_lem app_type_to_string block_app (λ app. same_app app app_count ≡ false) apps_header
          load_line-app rules.blocked_apps after_apps with_ips with_apps fits.apps
          (block_apps rules.blocked_apps with_ips fits.apps fits.sets.apps)
      ∙ ap (λ l. load_lines l (at domains_header with_apps))
          (append_assoc names patterns after_names)
      ∙ names_lem names (patterns ++ after_names) with_apps with_names
          (All-map (λ d (f : FitsName d). f.entry) names fits.domains)
          (block_names names with_apps fits.domains fits.sets.domains)
      ∙ names_lem patterns after_names with_names with_patterns
          (All-map (λ d (f : FitsPattern d). f.entry) patterns fits.patterns)
          (block_domain-pattern patterns with_names fits.patterns)
      ∙ ap (λ l. load_lines l (at ports_header with_patterns)) (sym (append-nil ports))
      ∙ section_lem decimal block_port (λ port. port < 2 ^ 16) ports_header load_line-port
          rules.blocked_ports [] with_patterns rules fits.ports
          (block_ports rules.blocked_ports with_patterns fits.ports fits.sets.ports)

texts-Plain :
    {A : Type 0} (P : A → Type 0) (text : A → Name)
    → ((a : A) → P a → Plain (text a))
    → (keys : List A) → All P keys
    → All Plain (map text keys)
texts-Plain P text f [] h = tt
texts-Plain P text f (a ∷ keys) (p, h) = (f a p, texts-Plain P text f keys h)

section-Plain :
    (header : Name) (keys rest : List Name)
    → Plain header
    → All Plain keys
    → All Plain rest
    → All Plain (header ∷ (keys ++ rest))
section-Plain header keys rest p h k = (p, All-append Plain keys rest h k)

saved_lines-Plain : (rules : RuleManager) → FitsFile rules → All Plain (saved_lines rules)
unfolding saved_lines get_blocked_ips get_blocked_domains
saved_lines-Plain rules fits =
    let names = rules.blocked_domains ++ rules.domain_patterns in
    let apps = map app_type_to_string rules.blocked_apps in
    let ports = map decimal rules.blocked_ports in
    let d : All Plain (ports_header ∷ ports) = (
      plain-Plain ports_header refl,
      texts-Plain (λ port. port < 2 ^ 16) decimal (λ n l. decimal-Plain n) rules.blocked_ports
          fits.ports,
    ) in
    let c =
      section-Plain domains_header names ([] ∷ ports_header ∷ ports)
        (plain-Plain domains_header refl)
        (All-append Plain rules.blocked_domains rules.domain_patterns
          (All-map (λ n f. f.plain) rules.blocked_domains fits.domains)
          (All-map (λ n f. f.plain) rules.domain_patterns fits.patterns))
        (tt, d) in
    let b =
      section-Plain apps_header apps ([] ∷ domains_header ∷ (names ++ [] ∷ ports_header ∷ ports))
        (plain-Plain apps_header refl)
        (texts-Plain (λ app. same_app app app_count ≡ false) app_type_to_string app-Plain
          rules.blocked_apps fits.apps)
        (tt, c) in
    section-Plain ips_header (map ip_to_string rules.blocked_ips)
      ([] ∷ apps_header ∷ (apps ++ [] ∷ domains_header ∷ (names ++ [] ∷ ports_header ∷ ports)))
      (plain-Plain ips_header refl)
      (texts-Plain (λ ip. ip < 2 ^ 32) ip_to_string (λ n l. ip_to_string-Plain n) rules.blocked_ips
        fits.ips)
      (tt, b)

-- The file that `save_rules` writes of rules without repetition, whose numbers have the width of
-- their tables, whose applications have names, and whose domains are lines of a file, loads into an
-- empty manager as the same rules in the same order, and no line is reported.
pub load_rules-save_rules :
    (rules : RuleManager)
    → FitsFile rules
    → load_rules (some (save_rules rules)) init ≡ (true, rules, [])
unfolding load_rules save_rules
load_rules-save_rules rules fits =
    let plain = saved_lines-Plain rules fits in
    let lines = saved_lines rules in
    let text =
      ap read_lines (translate-write_lines lines plain) ∙ read_lines-write_lines lines plain in
    ap (λ l. let loaded = load_lines l (at [] init) in (true, loaded.rules, loaded.reported)) text
    ∙ ap (λ s. (true, s.rules, s.reported)) (load_saved rules fits)
