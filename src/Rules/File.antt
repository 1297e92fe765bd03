-- ===== src/Rules/File.antt =====
-- The rules file of dpi/rule_manager.py: `_stoi`, `save_rules` and `load_rules`. A file is its text,
-- or `none` where the operating system does not open it; `open(..., "r")` turns `\r\n` and `\r` into
-- a newline. The lines that are reported on stderr are a part of the result, the last first.
pub mod Refused
pub mod Lines
pub mod Numbers
pub mod Errors
pub mod Entries
pub mod Sections
pub mod Tables
pub mod RoundTrip
use python_deep_packet_inspe.Prelude.{
  ℕ, ◌-◌, ◌*◌, ◌+◌, ◌%◌, ◌^◌, Bool, true, false, not, ◌&&◌, ◌||◌, Option, none, some, List, [], ◌∷◌,
  map, ◌++◌, length, ltb, leb, ◌==◌, if◌then◌else◌, Py, ok, raise, value_error, ◌>>=◌,
}
use python_deep_packet_inspe.Text.{same, grow}
use python_deep_packet_inspe.Sni.{Name}
use python_deep_packet_inspe.Apps.{
  unknown, http, https, dns, tls, quic, google, facebook, youtube, twitter, instagram, netflix,
  amazon, microsoft, apple, whatsapp, telegram, tiktok, spotify, zoom, discord, github, cloudflare,
  AppType, app_type_to_string,
}
use python_deep_packet_inspe.Rules.{
  RuleManager, parse_ip, ip_to_string, decimal, block_ip, block_app, block_domain, block_port,
}

-- `str.isspace` and `str.isdigit` on Latin-1; the superscripts are digits, but `int` refuses them.
abbrev pub is_space : ℕ → Bool
is_space c = leb 9 c && leb c 13 || leb 28 c && leb c 32 || (c == 133 || c == 160)

abbrev pub is_decimal : ℕ → Bool
is_decimal c = leb b'0' c && leb c b'9'

abbrev pub is_digit : ℕ → Bool
is_digit c = is_decimal c || (c == 178 || c == 179 || c == 185)

unfoldable pub skip_spaces : List ℕ → List ℕ
skip_spaces [] = []
skip_spaces (c ∷ text) = if is_space c then skip_spaces text else c ∷ text

unfoldable pub leading_digits : List ℕ → List ℕ
leading_digits [] = []
leading_digits (c ∷ text) = let rest = leading_digits text in if is_digit c then c ∷ rest else []

-- `int(text)` of digits without a sign. Python takes 4300 digits at most.
unfoldable pub read_digits : ℕ → List ℕ → Py ℕ
read_digits value [] = ok value
read_digits value (c ∷ text) =
    if is_decimal c then read_digits (value * 10 + (c - 48)) text else raise value_error

-- Whether the number is negative, and its magnitude.
abbrev pub Signed : Type 0
Signed = Bool × ℕ

-- The tests of `_stoi` after the sign.
unfoldable pub check_number : Bool → List ℕ → Py Signed
unfolding read_digits
check_number negative digits =
    if length digits == 0 || ltb 4300 (length digits) then raise value_error else do
      value ← read_digits 0 digits
      if ltb (if negative then 2 ^ 31 else 2 ^ 31 - 1) value
          then raise value_error
          else ok (negative, value)

unfoldable pub read_sign : List ℕ → Bool × List ℕ
read_sign [] = (false, [])
read_sign (c ∷ text) =
    if c == b'-' then (true, text) else if c == b'+' then (false, text) else (false, c ∷ text)

unfoldable pub stoi : List ℕ → Py Signed
unfolding skip_spaces read_sign leading_digits check_number
stoi text =
    let (negative, rest) = read_sign (skip_spaces text) in
    check_number negative (leading_digits rest)

-- `value & _UINT16_MASK`.
unfoldable pub low16 : Signed → ℕ
low16 (negative, value) = if negative then (2 ^ 16 - value % 2 ^ 16) % 2 ^ 16 else value % 2 ^ 16

abbrev pub ips_header : List ℕ
ips_header =
    b'[' ∷ b'B' ∷ b'L' ∷ b'O' ∷ b'C' ∷ b'K' ∷ b'E' ∷ b'D' ∷ b'_' ∷ b'I' ∷ b'P' ∷ b'S' ∷ b']' ∷ []

abbrev pub apps_header : List ℕ
apps_header =
    b'[' ∷ b'B' ∷ b'L' ∷ b'O' ∷ b'C' ∷ b'K' ∷ b'E' ∷ b'D' ∷ b'_' ∷ b'A' ∷ b'P' ∷ b'P' ∷ b'S' ∷ b']'
    ∷ []

abbrev pub domains_header : List ℕ
domains_header =
    b'[' ∷ b'B' ∷ b'L' ∷ b'O' ∷ b'C' ∷ b'K' ∷ b'E' ∷ b'D' ∷ b'_' ∷ b'D' ∷ b'O' ∷ b'M' ∷ b'A' ∷ b'I'
    ∷ b'N' ∷ b'S' ∷ b']' ∷ []

abbrev pub ports_header : List ℕ
ports_header =
    b'[' ∷ b'B' ∷ b'L' ∷ b'O' ∷ b'C' ∷ b'K' ∷ b'E' ∷ b'D' ∷ b'_' ∷ b'P' ∷ b'O' ∷ b'R' ∷ b'T' ∷ b'S'
    ∷ b']' ∷ []

unfoldable pub write_lines : List Name → List ℕ
write_lines [] = []
write_lines (line ∷ lines) = line ++ b'\n' ∷ write_lines lines

-- `get_blocked_ips`, `get_blocked_domains`.
unfoldable pub get_blocked_ips : RuleManager → List Name
unfolding ip_to_string
get_blocked_ips rules = map ip_to_string rules.blocked_ips

unfoldable pub get_blocked_domains : RuleManager → List Name
get_blocked_domains rules = rules.blocked_domains ++ rules.domain_patterns

unfoldable pub saved_lines : RuleManager → List Name
unfolding get_blocked_ips get_blocked_domains decimal app_type_to_string
saved_lines rules =
    ips_header
    ∷ (get_blocked_ips rules
        ++ []
          ∷ apps_header
          ∷ (map app_type_to_string rules.blocked_apps
              ++ []
                ∷ domains_header
                ∷ (get_blocked_domains rules
                    ++ [] ∷ ports_header ∷ map decimal rules.blocked_ports)))

unfoldable pub save_rules : RuleManager → List ℕ
unfolding saved_lines write_lines
save_rules rules = write_lines (saved_lines rules)

-- Universal newlines: a `\n` after a `\r` is part of the newline before it.
unfoldable pub translate : Bool → List ℕ → List ℕ
translate after_return [] = []
translate after_return (c ∷ text) =
    let rest = translate (c == b'\r') text in
    if c == b'\r' then b'\n' ∷ rest else if c == b'\n' && after_return then rest else c ∷ rest

-- The lines of a text, without their newlines.
unfoldable pub read_lines : List ℕ → List Name
read_lines [] = []
read_lines (c ∷ text) =
    let lines = read_lines text in if c == b'\n' then [] ∷ lines else grow c lines

-- The loop over the applications: the first whose name is the line.
unfoldable pub find_app : Name → List AppType → Option AppType
unfolding same app_type_to_string
find_app line [] = none
find_app line (app ∷ apps) =
    if same (app_type_to_string app) line then some app else find_app line apps

-- The values below `APP_COUNT`, in order.
abbrev pub all_apps : List AppType
all_apps =
    unknown ∷ http ∷ https ∷ dns ∷ tls ∷ quic ∷ google ∷ facebook ∷ youtube ∷ twitter ∷ instagram
    ∷ netflix ∷ amazon ∷ microsoft ∷ apple ∷ whatsapp ∷ telegram ∷ tiktok ∷ spotify ∷ zoom ∷ discord
    ∷ github ∷ cloudflare ∷ []

pub record Loading : Type 0 where
  pub section : Name
  pub rules : RuleManager
  pub reported : List Name

unfoldable pub report : Name → Loading → Loading
report line loading = record loading { reported = line ∷ loading.reported }

unfoldable pub load_app : Name → Loading → Loading
unfolding find_app report
load_app line loading = elim (find_app line all_apps) [
  | some app ↦ record loading { rules = block_app app loading.rules }
  | none ↦ report line loading
]

unfoldable pub load_port : Name → Loading → Loading
unfolding stoi low16 report
load_port line loading = elim (stoi line) [
  | ok port ↦ record loading { rules = block_port (low16 port) loading.rules }
  | raise e ↦ report line loading
]

-- A line that is neither empty nor a header, by the section that it stands in.
unfoldable pub load_entry : Name → Loading → Loading
unfolding load_app load_port parse_ip
load_entry line loading =
    if same loading.section ips_header
    then record loading { rules = block_ip (parse_ip line) loading.rules }
    else if same loading.section apps_header
    then load_app line loading
    else if same loading.section domains_header
    then record loading { rules = block_domain line loading.rules }
    else if same loading.section ports_header
    then load_port line loading
    else loading

unfoldable pub load_line : Name → Loading → Loading
unfolding load_entry
load_line [] loading = loading
load_line (c ∷ line) loading =
    if c == b'[' then record loading { section = c ∷ line } else load_entry (c ∷ line) loading

unfoldable pub load_lines : List Name → Loading → Loading
unfolding load_line
load_lines [] loading = loading
load_lines (line ∷ lines) loading = load_lines lines (load_line line loading)

-- Whether the file was opened, the rules after it and the lines that were reported.
unfoldable pub load_rules : Option (List ℕ) → RuleManager → Bool × RuleManager × List Name
unfolding translate read_lines load_lines
load_rules none rules = (false, rules, [])
load_rules (some text) rules =
    let loaded =
      load_lines (read_lines (translate false text))
        (record { section = []; rules = rules; reported = [] }) in
    (true, loaded.rules, loaded.reported)
