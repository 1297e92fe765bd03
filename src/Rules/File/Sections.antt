-- ===== src/Rules/File/Sections.antt =====
-- What `load_rules` of dpi/rule_manager.py does with a line of each section.
use python_deep_packet_inspe.Prelude.{◌≡◌, ap, if◌then◌else◌}
use python_deep_packet_inspe.Text.{same}
use python_deep_packet_inspe.Sni.{Name}
use python_deep_packet_inspe.Rules.{parse_ip, block_ip, block_domain}
use python_deep_packet_inspe.Rules.File.{
  Loading, ips_header, apps_header, domains_header, ports_header, load_app, load_port, load_entry,
}

module _ (line : Name) (loading : Loading) where
  abbrev in_section : Name → Loading
  in_section section =
      if same section ips_header
      then record loading { rules = block_ip (parse_ip line) loading.rules }
      else if same section apps_header
      then load_app line loading
      else if same section domains_header
      then record loading { rules = block_domain line loading.rules }
      else if same section ports_header
      then load_port line loading
      else loading

  pub load_entry-ip :
      loading.section ≡ ips_header
      → load_entry line loading ≡ record loading { rules = block_ip (parse_ip line) loading.rules }
  unfolding load_entry same
  load_entry-ip e = ap in_section e

  pub load_entry-app :
      loading.section ≡ apps_header → load_entry line loading ≡ load_app line loading
  unfolding load_entry same
  load_entry-app e = ap in_section e

  pub load_entry-domain :
      loading.section ≡ domains_header
      → load_entry line loading ≡ record loading { rules = block_domain line loading.rules }
  unfolding load_entry same
  load_entry-domain e = ap in_section e

  pub load_entry-port :
      loading.section ≡ ports_header → load_entry line loading ≡ load_port line loading
  unfolding load_entry same
  load_entry-port e = ap in_section e
