-- ===== src/Startup.antt =====
-- `DPIEngine.initialize` of dpi/dpi_engine.py, with what it builds: the pool of fast paths of
-- dpi/fast_path.py, and the sums of counters over the pools. The fast paths share one rule manager;
-- a fast path holds it as it is after the rules file was loaded. `open_rules` gives the text of a
-- file, or `none` where the operating system does not open it.
pub mod Ready
pub mod AppNames
use python_deep_packet_inspe.Prelude.{
  Bool, true, false, ℕ, zero, suc, ◌+◌, ◌*◌, Option, none, some, List, [], ◌∷◌, length, Py, ok,
  ◌>>=◌,
}
use python_deep_packet_inspe.Sni.{Name}
use python_deep_packet_inspe.Rules as Rulebook
use python_deep_packet_inspe.Rules.{RuleManager}
use python_deep_packet_inspe.Rules.File.{find_app, all_apps, load_rules}
use python_deep_packet_inspe.Tracker as Flows
use python_deep_packet_inspe.Balance.{LoadBalancer, lb_manager}
use python_deep_packet_inspe.FastPath.{FastPath}
use python_deep_packet_inspe.Summary.{GlobalTable, empty_table, register_tracker}

pub record Config : Type 0 where
  pub num_load_balancers : ℕ
  pub fps_per_lb : ℕ
  pub rules_file : Name

abbrev pub default_max_connections : ℕ
default_max_connections = 100000

-- `FastPathProcessor(fp_id, rule_manager, callback)` at the time `now`.
unfoldable pub init_fp : ℕ → RuleManager → ℕ → FastPath
unfolding Flows.init
init_fp now rules fp_id = record {
  conn_tracker = Flows.init fp_id default_max_connections;
  rule_manager = some rules;
  last_cleanup = now;
  packets_processed = 0;
  packets_forwarded = 0;
  packets_dropped = 0;
  sni_extractions = 0;
  classification_hits = 0;
}

-- The fast paths of `FPManager` from `fp_id` on.
unfoldable pub make_fps : ℕ → RuleManager → ℕ → ℕ → List FastPath
unfolding init_fp
make_fps now rules fp_id zero = []
make_fps now rules fp_id (suc n) = init_fp now rules fp_id ∷ make_fps now rules (fp_id + 1) n

-- The loop that registers the trackers.
unfoldable pub register_all : ℕ → List FastPath → GlobalTable → GlobalTable
unfolding register_tracker
register_all i [] table = table
register_all i (fp ∷ fps) table =
    register_all (i + 1) fps (register_tracker i fp.conn_tracker table)

pub record Parts : Type 0 where
  pub rule_manager : RuleManager
  pub fps : List FastPath
  pub lbs : List LoadBalancer
  pub global_conn_table : GlobalTable

-- `if self._config.rules_file: load_rules(...)`.
unfoldable pub load_configured : (Name → Option (List ℕ)) → Name → RuleManager
unfolding load_rules Rulebook.init
load_configured open_rules [] = Rulebook.init
load_configured open_rules (c ∷ name) = (load_rules (open_rules (c ∷ name)) Rulebook.init).1

unfoldable pub initialize : (Name → Option (List ℕ)) → ℕ → Config → Py Parts
unfolding load_configured make_fps lb_manager register_all empty_table
initialize open_rules now config =
    let rules = load_configured open_rules config.rules_file in
    let total_fps = config.num_load_balancers * config.fps_per_lb in
    let fps = make_fps now rules 0 total_fps in
    do
      lbs ← lb_manager config.num_load_balancers config.fps_per_lb (length fps)
      ok (record {
        rule_manager = rules;
        fps = fps;
        lbs = lbs;
        global_conn_table = register_all 0 fps (empty_table total_fps);
      })

pub record AggregatedFpStats : Type 0 where
  pub total_processed : ℕ
  pub total_forwarded : ℕ
  pub total_dropped : ℕ
  pub total_connections : ℕ

-- `FPManager.get_aggregated_stats`.
unfoldable pub aggregate_fps : List FastPath → AggregatedFpStats
aggregate_fps [] = record {
  total_processed = 0;
  total_forwarded = 0;
  total_dropped = 0;
  total_connections = 0;
}
aggregate_fps (fp ∷ fps) =
    let rest = aggregate_fps fps in
    record {
      total_processed = fp.packets_processed + rest.total_processed;
      total_forwarded = fp.packets_forwarded + rest.total_forwarded;
      total_dropped = fp.packets_dropped + rest.total_dropped;
      total_connections = length fp.conn_tracker.connections + rest.total_connections;
    }

-- `LBManager.get_aggregated_stats`: the packets received and dispatched.
unfoldable pub aggregate_lbs : List LoadBalancer → ℕ × ℕ
aggregate_lbs [] = (0, 0)
aggregate_lbs (lb ∷ lbs) =
    let (received, dispatched) = aggregate_lbs lbs in
    (lb.packets_received + received, lb.packets_dispatched + dispatched)

-- An edit of the rules through the engine, as `DPIEngine.block_ip`: nothing before `initialize`.
unfoldable pub edit_rules : (RuleManager → RuleManager) → Option RuleManager → Option RuleManager
edit_rules edit none = none
edit_rules edit (some rules) = some (edit rules)

-- `DPIEngine.block_app` and `unblock_app` with the name of an application, and whether the name is
-- reported as unknown.
unfoldable pub block_app_named : Name → Option RuleManager → Option RuleManager × Bool
unfolding edit_rules find_app
block_app_named name manager = elim (find_app name all_apps) [
  | some app ↦ (edit_rules (Rulebook.block_app app) manager, false)
  | none ↦ (manager, true)
]

unfoldable pub unblock_app_named : Name → Option RuleManager → Option RuleManager
unfolding edit_rules find_app
unblock_app_named name manager = elim (find_app name all_apps) [
  | some app ↦ edit_rules (Rulebook.unblock_app app) manager
  | none ↦ manager
]
