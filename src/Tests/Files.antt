-- ===== src/Tests/Files.antt =====
-- Rules in a file, a QUIC packet, and the statistics of trackers.
use python_deep_packet_inspe.Prelude.{
  ℕ, List, [], ◌∷◌, ◌++◌, ◌≡◌, refl, ok, some, none, true, false, Bool, Option, arith, ◌⊎◌,
  replicate, take, raise, value_error,
}
use python_deep_packet_inspe.Sni.{Name}
use python_deep_packet_inspe.Apps.{youtube, same_app}
use python_deep_packet_inspe.Tests.{tracker}
use python_deep_packet_inspe.Text.{lower}
use python_deep_packet_inspe.Rules.{RuleManager, init, is_pattern}
use python_deep_packet_inspe.Rules.Sets.{member}
use python_deep_packet_inspe.Rules.File.{
  Loading, load_rules, save_rules, load_lines, ips_header, ports_header, stoi,
}
use python_deep_packet_inspe.Rules.File.Lines.{plain-Plain}
use python_deep_packet_inspe.Rules.File.Tables.{FitsFile}
use python_deep_packet_inspe.Rules.File.RoundTrip.{load_rules-save_rules}
use python_deep_packet_inspe.Prelude.Strings.{codes}
use python_deep_packet_inspe.Rules.File.Refused.{too_large, unsigned}
use python_deep_packet_inspe.Rules.File.Errors.{IsRefused, no_number, load_lines-refused}
use python_deep_packet_inspe.Quic
use python_deep_packet_inspe.Quic.{is_quic_initial}
use python_deep_packet_inspe.Quic.Window.{IsScanned, extract-IsScanned}
use python_deep_packet_inspe.Summary.{GlobalTable, empty_table, register_tracker, get_global_stats}
use python_deep_packet_inspe.Summary.Top.{IsSummary, get_global_stats-IsSummary}

-- An address, an application, a name, a pattern and a port.
abbrev stored_rules : RuleManager
stored_rules = record {
  blocked_ips = 0x0A00_0001 ∷ [];
  blocked_apps = youtube ∷ [];
  blocked_domains = (b'a' ∷ b'.' ∷ b'b' ∷ []) ∷ [];
  domain_patterns = (b'*' ∷ b'.' ∷ b'c' ∷ []) ∷ [];
  blocked_ports = 8080 ∷ [];
}

stored_rules-FitsFile : FitsFile stored_rules
unfolding is_pattern member same_app lower
stored_rules-FitsFile = record {
  sets = record { ips = (refl, tt); apps = (refl, tt); domains = (refl, tt); ports = (refl, tt) };
  ips = (omega arith, tt);
  apps = (refl, tt);
  domains = (
    record {
      plain = plain-Plain (b'a' ∷ b'.' ∷ b'b' ∷ []) refl;
      entry = refl;
      exact = refl;
      lowered = refl;
    },
    tt,
  );
  patterns = (
    record { plain = plain-Plain (b'*' ∷ b'.' ∷ b'c' ∷ []) refl; entry = refl; wild = refl },
    tt,
  );
  ports = (omega arith, tt);
}

load_rules-save_rules_example :
    load_rules (some (save_rules stored_rules)) init ≡ (true, stored_rules, [])
load_rules-save_rules_example = load_rules-save_rules stored_rules stored_rules-FitsFile

-- The file's first lines.
save_rules_test : take 16 (save_rules stored_rules) ≡ ips_header ++ b'\n' ∷ b'1' ∷ b'.' ∷ []
unfolding save_rules
save_rules_test = refl

abbrev empty_loading : Loading
empty_loading = record { section = []; rules = init; reported = [] }

-- `80abc` is a number, and `2147483648` is one that is too large.
stoi_test :
    (stoi (codes "80abc") ≡ ok (false, 80)) × (stoi (codes "2147483648") ≡ raise value_error)
unfolding stoi
stoi_test = (refl, refl)

-- ` 2147483648 `.
abbrev large_port : Name
large_port = codes "2147483648 "

large_port-IsRefused : IsRefused (b' ' ∷ large_port) ports_header
large_port-IsRefused = no_number (
    too_large (b' ' ∷ []) large_port (codes "2147483648") (b' ' ∷ []) false (refl, tt)
      (unsigned refl)
      (refl, (refl, (refl, (refl, (refl, (refl, (refl, (refl, (refl, (refl, tt)))))))))) refl
      (omega arith))

load_lines-refused_example :
    ((load_lines ((ports_header ∷ []) ++ (b' ' ∷ large_port) ∷ codes "80" ∷ []) empty_loading).rules
      ≡ (load_lines ((ports_header ∷ []) ++ codes "80" ∷ []) empty_loading).rules)
    × (later : List Name) × ((load_lines
          ((ports_header ∷ []) ++ (b' ' ∷ large_port) ∷ codes "80" ∷ [])
          empty_loading).reported
        ≡ later ++ (b' ' ∷ large_port) ∷ (load_lines (ports_header ∷ []) empty_loading).reported)
    × ((load_lines ((ports_header ∷ []) ++ codes "80" ∷ []) empty_loading).reported
        ≡ later ++ (load_lines (ports_header ∷ []) empty_loading).reported)
unfolding load_lines
load_lines-refused_example =
    load_lines-refused (ports_header ∷ []) (codes "80" ∷ []) empty_loading b' ' large_port refl
      large_port-IsRefused

abbrev quic_packet : List ℕ
quic_packet = 0xC0 ∷ replicate 59 1

extract-IsScanned_example :
    (initial : Bool) × (is_quic_initial quic_packet 60 ≡ ok initial)
    × (name : Option Name) × (Quic.extract quic_packet 60 ≡ ok name)
    × (((initial ≡ false) × (name ≡ none)) ⊎ ((initial ≡ true) × IsScanned quic_packet 60 5 name))
extract-IsScanned_example = extract-IsScanned quic_packet 60 (omega arith)

abbrev two_trackers : GlobalTable
two_trackers = register_tracker 1 tracker (empty_table 2)

get_global_stats-IsSummary_example :
    IsSummary two_trackers (get_global_stats two_trackers).0 (get_global_stats two_trackers).1
get_global_stats-IsSummary_example = get_global_stats-IsSummary two_trackers

-- A superscript after a digit is a part of the run of digits, which `int` then refuses.
stoi_superscript_test : stoi (b'8' ∷ 178 ∷ []) ≡ raise value_error
unfolding stoi
stoi_superscript_test = refl
