-- ===== src/Working/Blocking.antt =====
-- The rules of main_working.py and the options that fill them.
use python_deep_packet_inspe.Prelude.{
  ℕ, Bool, true, false, ◌||◌, Option, none, some, List, [], ◌∷◌, ◌++◌, ◌==◌, if◌then◌else◌,
}
use python_deep_packet_inspe.Text.{same, is_infix}
use python_deep_packet_inspe.Sni.{Name}
use python_deep_packet_inspe.Apps.{AppType, same_app, app_type_to_string}
use python_deep_packet_inspe.Rules.Sets.{member, add_key}
use python_deep_packet_inspe.Rules.File.{find_app, all_apps}
use python_deep_packet_inspe.Engine.{parse_ip}

pub record BlockingRules : Type 0 where
  pub blocked_ips : List ℕ
  pub blocked_apps : List AppType
  pub blocked_domains : List Name

abbrev pub no_rules : BlockingRules
no_rules = record { blocked_ips = []; blocked_apps = []; blocked_domains = [] }

unfoldable pub block_ip : List ℕ → BlockingRules → BlockingRules
unfolding add_key parse_ip
block_ip ip rules = record rules {
  blocked_ips = add_key (λ x y. x == y) (parse_ip ip) rules.blocked_ips;
}

-- The first application with the name, or none.
unfoldable pub block_app : Name → BlockingRules → BlockingRules
unfolding add_key same_app find_app app_type_to_string
block_app app rules = elim (find_app app all_apps) [
  | none ↦ rules
  | some found ↦ record rules { blocked_apps = add_key same_app found rules.blocked_apps }
]

unfoldable pub block_domain : Name → BlockingRules → BlockingRules
block_domain domain rules = record rules { blocked_domains = rules.blocked_domains ++ domain ∷ [] }

-- `any(dom in sni for dom in domains)`.
unfoldable pub any_infix : List Name → Name → Bool
unfolding is_infix
any_infix [] sni = false
any_infix (dom ∷ domains) sni = is_infix dom sni || any_infix domains sni

unfoldable pub is_blocked : BlockingRules → ℕ → AppType → Name → Bool
unfolding member same_app any_infix
is_blocked rules src_ip app sni =
    if member (λ x y. x == y) src_ip rules.blocked_ips
    then true
    else if member same_app app rules.blocked_apps
    then true
    else any_infix rules.blocked_domains sni

-- What an option of the command line does with the argument after it.
unfoldable pub option_of : List ℕ → Option (List ℕ → BlockingRules → BlockingRules)
unfolding same block_ip block_app block_domain
option_of arg =
    if same arg (b'-' ∷ b'-' ∷ b'b' ∷ b'l' ∷ b'o' ∷ b'c' ∷ b'k' ∷ b'-' ∷ b'i' ∷ b'p' ∷ [])
    then some block_ip
    else if same arg
        (b'-' ∷ b'-' ∷ b'b' ∷ b'l' ∷ b'o' ∷ b'c' ∷ b'k' ∷ b'-' ∷ b'a' ∷ b'p' ∷ b'p' ∷ [])
    then some block_app
    else if same arg (
        b'-' ∷ b'-' ∷ b'b' ∷ b'l' ∷ b'o' ∷ b'c' ∷ b'k' ∷ b'-' ∷ b'd' ∷ b'o' ∷ b'm' ∷ b'a' ∷ b'i'
        ∷ b'n' ∷ [])
    then some block_domain
    else none

-- The loop over the arguments after the file names. An option without an argument is ignored.
unfoldable pub parse_options : List (List ℕ) → BlockingRules → BlockingRules
unfolding option_of
parse_options [] rules = rules
parse_options (arg ∷ []) rules = rules
parse_options (arg ∷ value ∷ args) rules = elim (option_of arg) [
  | none ↦ parse_options (value ∷ args) rules
  | some block ↦ parse_options args (block value rules)
]
