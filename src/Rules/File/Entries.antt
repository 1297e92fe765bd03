-- ===== src/Rules/File/Entries.antt =====
-- The entries of a rules file that `save_rules` of dpi/rule_manager.py writes, loaded one by one.
use python_deep_packet_inspe.Prelude.{
  sym, append-nil, ◌/◌, All-map, All-append, length, suc, ◌||◌, ℕ, ◌≡◌, ◌<◌, Bool, true, false, not,
  [], ◌∷◌, ◌++◌, refl, ap, arith, ok, ◌^◌, ◌%◌, ◌∙◌, some, ◌==◌,
}
use python_deep_packet_inspe.Sni.{Name}
use python_deep_packet_inspe.Text.{same}
use python_deep_packet_inspe.Apps.{
  app_code, unknown, http, https, dns, tls, quic, google, facebook, youtube, twitter, instagram,
  netflix, amazon, microsoft, apple, whatsapp, telegram, tiktok, spotify, zoom, discord, github,
  cloudflare, AppType, app_count, same_app, app_type_to_string,
}
use python_deep_packet_inspe.Rules.{
  digits, decimal, ip_to_string, block_ip, block_app, block_domain, block_port,
}
use python_deep_packet_inspe.Rules.Address.{parse_ip-ip_to_string}
use python_deep_packet_inspe.Rules.File.{
  stoi, Signed, Loading, ips_header, apps_header, domains_header, ports_header, load_app, load_port,
  load_entry, load_line, find_app, all_apps, low16,
}
use python_deep_packet_inspe.Rules.File.Sections.{
  load_entry-ip, load_entry-app, load_entry-domain, load_entry-port,
}
use python_deep_packet_inspe.Rules.File.Lines.{plain, plain, Plain, plain-Plain}
use python_deep_packet_inspe.Rules.File.Numbers.{
  AreDecimal, digits-AreDecimal, digits-some, stoi-decimal,
}

-- Neither empty nor a header.
abbrev pub is_entry : Name → Bool
is_entry [] = false
is_entry (c ∷ line) = not (c == b'[')

load_line-entry :
    (line : Name) (loading : Loading)
    → is_entry line ≡ true
    → load_line line loading ≡ load_entry line loading
unfolding load_line
load_line-entry [] loading h = cc
load_line-entry (c ∷ line) loading h = ground (arith, h)

first_digit :
    (text rest : Name) → 0 < length text → AreDecimal text → is_entry (text ++ rest) ≡ true
first_digit [] rest l h = absurd (omega (arith, l))
first_digit (c ∷ text) rest l h = ground (arith, h.0)

decimal-is_entry : (n : ℕ) (rest : Name) → is_entry (decimal n ++ rest) ≡ true
unfolding decimal
decimal-is_entry n rest =
    first_digit (digits (suc n) n) rest (digits-some n n) (digits-AreDecimal (suc n) n)

digits-Plain : (text : Name) → AreDecimal text → Plain text
digits-Plain text h = All-map (λ c d. ground (arith, d)) text h

pub decimal-Plain : (n : ℕ) → Plain (decimal n)
unfolding decimal
decimal-Plain n = digits-Plain (digits (suc n) n) (digits-AreDecimal (suc n) n)

dotted : (text rest : Name) → Plain text → Plain rest → Plain (text ++ 46 ∷ rest)
dotted text rest h k =
    All-append (λ (c : ℕ). (c == b'\n' || c == b'\r') ≡ false) text (46 ∷ rest) h (refl, k)

pub ip_to_string-Plain : (ip : ℕ) → Plain (ip_to_string ip)
unfolding ip_to_string
ip_to_string-Plain ip =
    let a = ip % 2 ^ 8 in
    let b = ip / 2 ^ 8 % 2 ^ 8 in
    let c = ip / 2 ^ 16 % 2 ^ 8 in
    let d = ip / 2 ^ 24 % 2 ^ 8 in
    dotted (decimal a) (decimal b ++ 46 ∷ (decimal c ++ 46 ∷ decimal d)) (decimal-Plain a) (
      dotted (decimal b) (decimal c ++ 46 ∷ decimal d) (decimal-Plain b)
        (dotted (decimal c) (decimal d) (decimal-Plain c) (decimal-Plain d)))

ip-is_entry : (ip : ℕ) → is_entry (ip_to_string ip) ≡ true
unfolding ip_to_string
ip-is_entry ip = decimal-is_entry (ip % 2 ^ 8) (
    46
    ∷ (decimal (ip / 2 ^ 8 % 2 ^ 8)
        ++ 46 ∷ (decimal (ip / 2 ^ 16 % 2 ^ 8) ++ 46 ∷ decimal (ip / 2 ^ 24 % 2 ^ 8))))

pub load_line-ip :
    (ip : ℕ) (loading : Loading)
    → ip < 2 ^ 32
    → loading.section ≡ ips_header
    → load_line (ip_to_string ip) loading ≡ record loading { rules = block_ip ip loading.rules }
load_line-ip ip loading l e =
    load_line-entry (ip_to_string ip) loading (ip-is_entry ip)
    ∙ load_entry-ip (ip_to_string ip) loading e
    ∙ ap (λ i. record loading { rules = block_ip i loading.rules }) (parse_ip-ip_to_string ip l)

pub load_line-domain :
    (domain : Name) (loading : Loading)
    → is_entry domain ≡ true
    → loading.section ≡ domains_header
    → load_line domain loading ≡ record loading { rules = block_domain domain loading.rules }
load_line-domain domain loading h e =
    load_line-entry domain loading h ∙ load_entry-domain domain loading e

load_port_lem :
    (line : Name) (number : Signed) (loading : Loading)
    → stoi line ≡ ok number
    → load_port line loading ≡ record loading { rules = block_port (low16 number) loading.rules }
unfolding load_port
load_port_lem line number loading e = rw (e, load_port) refl

pub load_line-port :
    (port : ℕ) (loading : Loading)
    → port < 2 ^ 16
    → loading.section ≡ ports_header
    → load_line (decimal port) loading ≡ record loading { rules = block_port port loading.rules }
unfolding low16
load_line-port port loading l e =
    load_line-entry (decimal port) loading
      (ap is_entry (sym (append-nil (decimal port))) ∙ decimal-is_entry port [])
    ∙ load_entry-port (decimal port) loading e
    ∙ load_port_lem (decimal port) (false, port) loading (stoi-decimal port l)
    ∙ ap (λ p. record loading { rules = block_port p loading.rules }) low
  where
    low : low16 (false, port) ≡ port
    low = omega (arith, l)

load_app_lem :
    (line : Name) (app : AppType) (loading : Loading)
    → find_app line all_apps ≡ some app
    → load_app line loading ≡ record loading { rules = block_app app loading.rules }
unfolding load_app
load_app_lem line app loading e = rw e refl

-- Every application but `APP_COUNT` is the one of its name.
pub named :
    (app : AppType)
    → same_app app app_count ≡ false
    → (is_entry (app_type_to_string app) ≡ true)
      × (find_app (app_type_to_string app) all_apps ≡ some app)
      × (plain (app_type_to_string app) ≡ true)
unfolding find_app app_type_to_string same_app app_code same
named unknown h = (refl, refl, refl)
named http h = (refl, refl, refl)
named https h = (refl, refl, refl)
named dns h = (refl, refl, refl)
named tls h = (refl, refl, refl)
named quic h = (refl, refl, refl)
named google h = (refl, refl, refl)
named facebook h = (refl, refl, refl)
named youtube h = (refl, refl, refl)
named twitter h = (refl, refl, refl)
named instagram h = (refl, refl, refl)
named netflix h = (refl, refl, refl)
named amazon h = (refl, refl, refl)
named microsoft h = (refl, refl, refl)
named apple h = (refl, refl, refl)
named whatsapp h = (refl, refl, refl)
named telegram h = (refl, refl, refl)
named tiktok h = (refl, refl, refl)
named spotify h = (refl, refl, refl)
named zoom h = (refl, refl, refl)
named discord h = (refl, refl, refl)
named github h = (refl, refl, refl)
named cloudflare h = (refl, refl, refl)
named app_count h = cc

pub app-Plain : (app : AppType) → same_app app app_count ≡ false → Plain (app_type_to_string app)
app-Plain app h = let (e, f, p) = named app h in plain-Plain (app_type_to_string app) p

pub load_line-app :
    (app : AppType) (loading : Loading)
    → same_app app app_count ≡ false
    → loading.section ≡ apps_header
    → load_line (app_type_to_string app) loading
      ≡ record loading { rules = block_app app loading.rules }
load_line-app app loading h e =
    let (i, f, p) = named app h in
    load_line-entry (app_type_to_string app) loading i
    ∙ load_entry-app (app_type_to_string app) loading e
    ∙ load_app_lem (app_type_to_string app) app loading f
