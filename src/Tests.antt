-- ===== src/Tests.antt =====
-- Test data: bytes, packets, connections and rules at which the theorems are applied.
pub mod Wire
pub mod Capture
pub mod Files
pub mod Setup
pub mod Working
pub mod Prompts
pub mod Queues
pub mod Names
pub mod Flows
use python_deep_packet_inspe.Prelude.{ℕ, false, none, some, List, [], ◌∷◌}
use python_deep_packet_inspe.Flow.{FiveTuple}
use python_deep_packet_inspe.Job.{PacketJob}
use python_deep_packet_inspe.Apps.{unknown, youtube}
use python_deep_packet_inspe.Tracker.{Connection, Tracker, new, forward}
use python_deep_packet_inspe.Rules.{RuleManager}
use python_deep_packet_inspe.FastPath.{FastPath}

abbrev pub client_to_server : FiveTuple
client_to_server = record { src_ip = 1; dst_ip = 2; src_port = 4000; dst_port = 80; protocol = 6 }

-- "GET /", CR, LF, "Host:a.b", CR, LF.
abbrev pub http_request : List ℕ
http_request =
    71 ∷ 69 ∷ 84 ∷ 32 ∷ 47 ∷ 13 ∷ 10 ∷ 72 ∷ 111 ∷ 115 ∷ 116 ∷ 58 ∷ 97 ∷ 46 ∷ 98 ∷ 13 ∷ 10 ∷ []

-- A query for "a.b".
abbrev pub dns_query : List ℕ
dns_query = 0 ∷ 1 ∷ 1 ∷ 0 ∷ 0 ∷ 1 ∷ 0 ∷ 0 ∷ 0 ∷ 0 ∷ 0 ∷ 0 ∷ 1 ∷ 97 ∷ 1 ∷ 98 ∷ 0 ∷ 0 ∷ 1 ∷ 0 ∷ 1 ∷ []

abbrev pub http_job : PacketJob
http_job = record {
  packet_id = 0;
  tuple = client_to_server;
  content = 0 ∷ 0 ∷ http_request;
  eth_offset = 0;
  ip_offset = 0;
  transport_offset = 0;
  payload_offset = 2;
  payload_length = 17;
  tcp_flags = 16;
  payload_data = none;
  ts_sec = 0;
  ts_usec = 0;
}

abbrev pub opened : Connection
opened = record {
  tuple = client_to_server;
  state = new;
  app_type = unknown;
  sni = [];
  packets_in = 0;
  packets_out = 0;
  bytes_in = 0;
  bytes_out = 0;
  first_seen = 5;
  last_seen = 5;
  action = forward;
  syn_seen = false;
  syn_ack_seen = false;
  fin_seen = false;
}

abbrev pub tracker : Tracker
tracker = record {
  fp_id = 0;
  max_connections = 2;
  connections = (client_to_server, opened) ∷ [];
  total_seen = 1;
  classified_count = 0;
  blocked_count = 0;
}

-- The address 1, the application YouTube and the port 22 are blocked.
abbrev pub rules : RuleManager
rules = record {
  blocked_ips = 1 ∷ [];
  blocked_apps = youtube ∷ [];
  blocked_domains = [];
  domain_patterns = [];
  blocked_ports = 22 ∷ [];
}

abbrev pub fast_path : FastPath
fast_path = record {
  conn_tracker = tracker;
  rule_manager = some rules;
  last_cleanup = 0;
  packets_processed = 0;
  packets_forwarded = 0;
  packets_dropped = 0;
  sni_extractions = 0;
  classification_hits = 0;
}
