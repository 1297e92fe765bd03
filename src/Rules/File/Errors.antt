-- ===== src/Rules/File/Errors.antt =====
-- The lines of a rules file that `load_rules` of dpi/rule_manager.py refuses.
use python_deep_packet_inspe.Prelude.{
  ◌≢◌, All, sym, ◌∙◌, ok, ℕ, Bool, true, false, Option, none, some, List, [], ◌∷◌, ◌++◌, ◌≡◌, refl,
  ◌==◌, ap, ◌∙◌, if◌then◌else◌, Py, raise,
}
use python_deep_packet_inspe.Text.{same}
use python_deep_packet_inspe.Sni.{Name}
use python_deep_packet_inspe.Apps.{AppType, app_type_to_string}
use python_deep_packet_inspe.Rules.File.Refused.{IsNoNumber, stoi-IsNoNumber, find_app-none}
use python_deep_packet_inspe.Rules.{block_ip, block_app, block_domain, block_port, parse_ip}
use python_deep_packet_inspe.Rules.File.Sections.{load_entry-app, load_entry-port}
use python_deep_packet_inspe.Rules.File.{
  ips_header, domains_header, low16, Loading, Signed, stoi, find_app, all_apps, apps_header,
  ports_header, report, load_app, load_port, load_entry, load_line, load_lines,
}

pub load_lines-append :
    (before after : List Name) (loading : Loading)
    → load_lines (before ++ after) loading ≡ load_lines after (load_lines before loading)
unfolding load_lines
load_lines-append [] after loading = refl
load_lines-append (line ∷ before) after loading =
    load_lines-append before after (load_line line loading)

-- With lines that were reported before.
unfoldable pub add_reports : List Name → Loading → Loading
add_reports lines loading = record loading { reported = loading.reported ++ lines }

module _ (line : Name) (lines : List Name) (loading : Loading) where
  load_app-reports :
      load_app line (add_reports lines loading) ≡ add_reports lines (load_app line loading)
  unfolding load_app report add_reports
  load_app-reports = by_app (find_app line all_apps)
    where
      by_app :
          (found : Option AppType)
          → elim found [
            | some app ↦ record (add_reports lines loading) { rules = block_app app loading.rules }
            | none ↦ report line (add_reports lines loading)
          ]
            ≡ add_reports lines (elim found [
              | some app ↦ record loading { rules = block_app app loading.rules }
              | none ↦ report line loading
            ])
      by_app none = refl
      by_app (some app) = refl

  load_port-reports :
      load_port line (add_reports lines loading) ≡ add_reports lines (load_port line loading)
  unfolding load_port report add_reports
  load_port-reports = by_port (stoi line)
    where
      by_port :
          (found : Py Signed)
          → elim found [
            | ok port ↦ record (add_reports lines loading) {
              rules = block_port (low16 port) loading.rules;
            }
            | raise e ↦ report line (add_reports lines loading)
          ]
            ≡ add_reports lines (elim found [
              | ok port ↦ record loading { rules = block_port (low16 port) loading.rules }
              | raise e ↦ report line loading
            ])
      by_port (raise e) = refl
      by_port (ok port) = refl

  load_entry-reports :
      load_entry line (add_reports lines loading) ≡ add_reports lines (load_entry line loading)
  unfolding load_entry add_reports
  load_entry-reports =
      by_section (same loading.section ips_header) (same loading.section apps_header)
        (same loading.section domains_header) (same loading.section ports_header)
    where
      by_section :
          (a b c d : Bool)
          → (if a
              then record (add_reports lines loading) {
                rules = block_ip (parse_ip line) loading.rules;
              }
              else if b
              then load_app line (add_reports lines loading)
              else if c
              then record (add_reports lines loading) { rules = block_domain line loading.rules }
              else if d
              then load_port line (add_reports lines loading)
              else add_reports lines loading)
            ≡ add_reports lines (
                if a
                then record loading { rules = block_ip (parse_ip line) loading.rules }
                else if b
                then load_app line loading
                else if c
                then record loading { rules = block_domain line loading.rules }
                else if d
                then load_port line loading
                else loading)
      by_section true b c d = refl
      by_section false true c d = load_app-reports
      by_section false false true d = refl
      by_section false false false true = load_port-reports
      by_section false false false false = refl

load_line-reports :
    (line : Name) (lines : List Name) (loading : Loading)
    → load_line line (add_reports lines loading) ≡ add_reports lines (load_line line loading)
unfolding load_line add_reports
load_line-reports [] lines loading = refl
load_line-reports (c ∷ line) lines loading = by_header (c == b'[')
  where
    by_header :
        (b : Bool)
        → (if b
            then record (add_reports lines loading) { section = c ∷ line }
            else load_entry (c ∷ line) (add_reports lines loading))
          ≡ add_reports lines
              (if b then record loading { section = c ∷ line } else load_entry (c ∷ line) loading)
    by_header true = refl
    by_header false = load_entry-reports (c ∷ line) lines loading

load_lines-reports :
    (entries lines : List Name) (loading : Loading)
    → load_lines entries (add_reports lines loading)
      ≡ add_reports lines (load_lines entries loading)
unfolding load_lines
load_lines-reports [] lines loading = refl
load_lines-reports (line ∷ entries) lines loading =
    ap (load_lines entries) (load_line-reports line lines loading)
    ∙ load_lines-reports entries lines (load_line line loading)

-- A line that its section refuses: a port without a number of 32 bits, or a name that is not the
-- display name of an application.
pub data IsRefused (line : Name) : Name → Type 0 where
  no_number : IsNoNumber line → IsRefused line ports_header
  no_app : All (λ app. app_type_to_string app ≢ line) all_apps → IsRefused line apps_header

load_entry-refused :
    {section : Name} (line : Name) (loading : Loading)
    → IsRefused line section
    → loading.section ≡ section
    → load_entry line loading ≡ report line loading
unfolding load_app load_port
load_entry-refused line loading (no_number n) e =
    let h = stoi-IsNoNumber line n in load_entry-port line loading e ∙ rw (h, load_port) refl
load_entry-refused line loading (no_app n) e =
    let h = find_app-none line all_apps n in load_entry-app line loading e ∙ rw (h, load_app) refl

load_line-refused :
    {section : Name} (c : ℕ) (text : Name) (loading : Loading)
    → (c == b'[') ≡ false
    → IsRefused (c ∷ text) section
    → loading.section ≡ section
    → load_line (c ∷ text) loading ≡ report (c ∷ text) loading
unfolding load_line
load_line-refused c text loading h r e = rw h (load_entry-refused (c ∷ text) loading r e)

-- The lines reported by the load of `entries`, on top of those before.
module _ (before after : List Name) (loading : Loading) where
  middle : Loading
  middle = load_lines before loading

  fresh : Loading
  fresh = record middle { reported = [] }

  after_lem :
      (lines : List Name)
      → load_lines after (record middle { reported = lines })
        ≡ add_reports lines (load_lines after fresh)
  unfolding add_reports fresh
  after_lem lines = load_lines-reports after lines fresh

  -- A line of the section of ports that after white space and a sign has no digit, or digits of a
  -- number that an integer of 32 bits does not have, with no character beyond Latin-1 in place of the
  -- digit or next to the digits, and a line of the section of applications that is the display name
  -- of none, after any lines and before any others, changes none of the rules
  -- that are loaded, and is reported: the others are loaded as they are without it.
  pub load_lines-refused :
      (c : ℕ) (text : Name)
      → (c == b'[') ≡ false
      → IsRefused (c ∷ text) (load_lines before loading).section
      → ((load_lines (before ++ (c ∷ text) ∷ after) loading).rules
          ≡ (load_lines (before ++ after) loading).rules)
        × (later : List Name) × ((load_lines (before ++ (c ∷ text) ∷ after) loading).reported
            ≡ later ++ (c ∷ text) ∷ (load_lines before loading).reported)
        × ((load_lines (before ++ after) loading).reported
            ≡ later ++ (load_lines before loading).reported)
  unfolding add_reports middle fresh load_lines report
  load_lines-refused c text h r =
      let bad =
        load_lines-append before ((c ∷ text) ∷ after) loading
        ∙ ap (load_lines after) (load_line-refused c text middle h r refl)
        ∙ after_lem ((c ∷ text) ∷ middle.reported) in
      let good = load_lines-append before after loading ∙ after_lem middle.reported in
      (
        ap (λ s. s.rules) bad ∙ sym (ap (λ s. s.rules) good),
        (load_lines after fresh).reported,
        ap (λ s. s.reported) bad,
        ap (λ s. s.reported) good,
      )
