-- ===== src/Rules.antt =====
-- `RuleManager` of dpi/rule_manager.py. Each table is under a lock of its own and each method that
-- changes one takes that lock once, so it is one step. What the methods print is left out. A signed
-- 32-bit octet of `parse_ip` is its residue by 2 ^ 32, which is all that `_to_int32` looks at.
pub mod Sets
pub mod Laws
pub mod Edits
pub mod Address
pub mod Verdicts
pub mod File
use python_deep_packet_inspe.Prelude.{
  ℕ, zero, suc, ◌+◌, ◌-◌, ◌*◌, ◌/◌, ◌%◌, ◌^◌, bit_or, Bool, false, ◌&&◌, ◌||◌, Option, none, some,
  List, [], ◌∷◌, ◌++◌, length, ltb, leb, ◌==◌, if◌then◌else◌, drop,
}
use python_deep_packet_inspe.Text.{same, is_prefix, is_suffix, lower}
use python_deep_packet_inspe.Sni.{Name}
use python_deep_packet_inspe.Apps.{AppType, same_app, app_type_to_string}
use python_deep_packet_inspe.Rules.Sets.{member, add_key, pop_key}

-- `result | (octet << (shift & 31))`, on 32 bits.
unfoldable pub place_octet : ℕ → ℕ → ℕ → ℕ
place_octet result octet shift = bit_or result (octet * 2 ^ (shift % 32) % 2 ^ 32)

unfoldable pub parse_octets : ℕ → ℕ → ℕ → List ℕ → ℕ
unfolding place_octet
parse_octets result octet shift [] = place_octet result octet shift % 2 ^ 32
parse_octets result octet shift (c ∷ text) =
    if c == 46
    then parse_octets (place_octet result octet shift) 0 (shift + 8) text
    else if leb 48 c && leb c 57
    then parse_octets result ((octet * 10 + (c - 48)) % 2 ^ 32) shift text
    else parse_octets result octet shift text

unfoldable pub parse_ip : List ℕ → ℕ
unfolding parse_octets
parse_ip text = parse_octets 0 0 0 text

-- The decimal digits of a number. A number has at most as many digits as its value, and one more.
unfoldable pub digits : ℕ → ℕ → List ℕ
digits zero n = []
digits (suc fuel) n = if ltb n 10 then (48 + n) ∷ [] else digits fuel (n / 10) ++ (48 + n % 10) ∷ []

unfoldable pub decimal : ℕ → List ℕ
unfolding digits
decimal n = digits (suc n) n

unfoldable pub ip_to_string : ℕ → List ℕ
unfolding decimal
ip_to_string ip =
    decimal (ip % 2 ^ 8)
    ++ 46
      ∷ (decimal (ip / 2 ^ 8 % 2 ^ 8)
          ++ 46 ∷ (decimal (ip / 2 ^ 16 % 2 ^ 8) ++ 46 ∷ decimal (ip / 2 ^ 24 % 2 ^ 8)))

pub record RuleManager : Type 0 where
  pub blocked_ips : List ℕ
  pub blocked_apps : List AppType
  pub blocked_domains : List Name
  pub domain_patterns : List Name
  pub blocked_ports : List ℕ

unfoldable pub init : RuleManager
init = record {
  blocked_ips = [];
  blocked_apps = [];
  blocked_domains = [];
  domain_patterns = [];
  blocked_ports = [];
}

unfoldable pub block_ip : ℕ → RuleManager → RuleManager
unfolding add_key
block_ip ip rules = record rules {
  blocked_ips = add_key (λ x y. x == y) (ip % 2 ^ 32) rules.blocked_ips;
}

unfoldable pub unblock_ip : ℕ → RuleManager → RuleManager
unfolding pop_key
unblock_ip ip rules = record rules {
  blocked_ips = pop_key (λ x y. x == y) (ip % 2 ^ 32) rules.blocked_ips;
}

unfoldable pub is_ip_blocked : ℕ → RuleManager → Bool
unfolding member
is_ip_blocked ip rules = member (λ x y. x == y) (ip % 2 ^ 32) rules.blocked_ips

unfoldable pub block_app : AppType → RuleManager → RuleManager
block_app app rules = record rules { blocked_apps = add_key same_app app rules.blocked_apps }

unfoldable pub unblock_app : AppType → RuleManager → RuleManager
unblock_app app rules = record rules { blocked_apps = pop_key same_app app rules.blocked_apps }

unfoldable pub is_app_blocked : AppType → RuleManager → Bool
unfolding member same_app
is_app_blocked app rules = member same_app app rules.blocked_apps

-- `"*" in domain or "?" in domain`.
unfoldable pub is_pattern : Name → Bool
unfolding member
is_pattern domain = member (λ x y. x == y) 42 domain || member (λ x y. x == y) 63 domain

unfoldable pub block_domain : Name → RuleManager → RuleManager
unfolding add_key same lower is_pattern
block_domain domain rules =
    if is_pattern domain
    then record rules { domain_patterns = rules.domain_patterns ++ domain ∷ [] }
    else record rules { blocked_domains = add_key same (lower domain) rules.blocked_domains }

unfoldable pub unblock_domain : Name → RuleManager → RuleManager
unfolding pop_key same lower is_pattern
unblock_domain domain rules =
    if is_pattern domain
    then record rules { domain_patterns = pop_key same domain rules.domain_patterns }
    else record rules { blocked_domains = pop_key same (lower domain) rules.blocked_domains }

unfoldable pub block_port : ℕ → RuleManager → RuleManager
block_port port rules = record rules {
  blocked_ports = add_key (λ x y. x == y) (port % 2 ^ 16) rules.blocked_ports;
}

unfoldable pub unblock_port : ℕ → RuleManager → RuleManager
unblock_port port rules = record rules {
  blocked_ports = pop_key (λ x y. x == y) (port % 2 ^ 16) rules.blocked_ports;
}

unfoldable pub is_port_blocked : ℕ → RuleManager → Bool
unfolding member
is_port_blocked port rules = member (λ x y. x == y) (port % 2 ^ 16) rules.blocked_ports

unfoldable pub clear_all : RuleManager → RuleManager
unfolding init
clear_all rules = init

-- IPs, applications, domains with their patterns, and ports.
unfoldable pub get_stats : RuleManager → ℕ × ℕ × ℕ × ℕ
get_stats rules = (
  length rules.blocked_ips,
  length rules.blocked_apps,
  length rules.blocked_domains + length rules.domain_patterns,
  length rules.blocked_ports,
)

pub data BlockType : Type 0 where
  ip_reason app_reason domain_reason port_reason : BlockType

pub record BlockReason : Type 0 where
  pub kind : BlockType
  pub detail : List ℕ

-- `fnmatch.fnmatchcase`, for a domain and a pattern.
module _ (fnmatchcase : Name → Name → Bool) where
  unfoldable pub domain_matches_pattern : Name → Name → Bool
  unfolding is_prefix is_suffix same
  domain_matches_pattern domain pattern =
      if is_prefix (42 ∷ 46 ∷ []) pattern
      then is_suffix (drop 1 pattern) domain || same domain (drop 2 pattern)
      else fnmatchcase domain pattern

  -- The loop over the patterns.
  unfoldable pub matches_pattern : Name → List Name → Bool
  unfolding domain_matches_pattern lower
  matches_pattern domain [] = false
  matches_pattern domain (pattern ∷ patterns) =
      domain_matches_pattern domain (lower pattern) || matches_pattern domain patterns

  unfoldable pub is_domain_blocked : Name → RuleManager → Bool
  unfolding matches_pattern member same lower
  is_domain_blocked domain rules =
      let lower_domain = lower domain in
      member same lower_domain rules.blocked_domains
      || matches_pattern lower_domain rules.domain_patterns

  -- `domain and is_domain_blocked(domain)`.
  unfoldable pub blocks_name : Name → RuleManager → Bool
  unfolding is_domain_blocked
  blocks_name [] rules = false
  blocks_name (c ∷ name) rules = is_domain_blocked (c ∷ name) rules

  unfoldable pub should_block : ℕ → ℕ → AppType → Name → RuleManager → Option BlockReason
  unfolding is_ip_blocked is_port_blocked is_app_blocked blocks_name ip_to_string decimal
      app_type_to_string
  should_block src_ip dst_port app_type name rules =
      if is_ip_blocked src_ip rules
      then some (record { kind = ip_reason; detail = ip_to_string src_ip })
      else if is_port_blocked dst_port rules
      then some (record { kind = port_reason; detail = decimal dst_port })
      else if is_app_blocked app_type rules
      then some (record { kind = app_reason; detail = app_type_to_string app_type })
      else if blocks_name name rules
      then some (record { kind = domain_reason; detail = name })
      else none
