-- ===== src/Summary.antt =====
-- `GlobalConnectionTable` of dpi/connection_tracker.py: the statistics over the trackers of all fast
-- paths. A dictionary of counts is its entries in order; `sorted` by falling counts is stable.
pub mod Counts
pub mod Totals
pub mod Top
use python_deep_packet_inspe.Prelude.{
  ℕ, ◌+◌, Bool, Option, none, some, List, [], ◌∷◌, ◌++◌, length, ltb, leb, if◌then◌else◌, take, set,
  replicate,
}
use python_deep_packet_inspe.Flow.{FiveTuple}
use python_deep_packet_inspe.Text.{same}
use python_deep_packet_inspe.Sni.{Name}
use python_deep_packet_inspe.Apps.{AppType, same_app}
use python_deep_packet_inspe.Tracker.{Tracker, Connection, Table}

abbrev pub GlobalTable : Type 0
GlobalTable = List (Option Tracker)

unfoldable pub empty_table : ℕ → GlobalTable
empty_table num_fps = replicate num_fps none

unfoldable pub register_tracker : ℕ → Tracker → GlobalTable → GlobalTable
register_tracker fp_id tracker table =
    if ltb fp_id (length table) then set table fp_id (some tracker) else table

-- The trackers that are not `None`.
unfoldable pub registered : GlobalTable → List Tracker
registered [] = []
registered (none ∷ table) = registered table
registered (some tracker ∷ table) = tracker ∷ registered table

module _ {A : Type 0} (eq : A → A → Bool) where
  -- `counts[key] = counts.get(key, 0) + 1`.
  unfoldable pub bump : A → List (A × ℕ) → List (A × ℕ)
  bump key [] = (key, 1) ∷ []
  bump key ((other, n) ∷ counts) =
      if eq key other then (other, n + 1) ∷ counts else (other, n) ∷ bump key counts

pub record GlobalStats : Type 0 where
  pub total_active_connections : ℕ
  pub total_connections_seen : ℕ
  pub app_distribution : List (AppType × ℕ)
  pub domain_counts : List (Name × ℕ)

-- `collect`, for a connection.
unfoldable pub count_name : Name → List (Name × ℕ) → List (Name × ℕ)
unfolding bump same
count_name [] counts = counts
count_name (c ∷ name) counts = bump same (c ∷ name) counts

unfoldable pub collect : Connection → GlobalStats → GlobalStats
unfolding bump same_app count_name
collect conn stats = record stats {
  app_distribution = bump same_app conn.app_type stats.app_distribution;
  domain_counts = count_name conn.sni stats.domain_counts;
}

unfoldable pub for_each : Table → GlobalStats → GlobalStats
unfolding collect
for_each [] stats = stats
for_each ((key, conn) ∷ connections) stats = for_each connections (collect conn stats)

unfoldable pub add_tracker : Tracker → GlobalStats → GlobalStats
unfolding for_each
add_tracker tracker stats = for_each tracker.connections (record stats {
  total_active_connections = stats.total_active_connections + length tracker.connections;
  total_connections_seen = stats.total_connections_seen + tracker.total_seen;
})

unfoldable pub add_trackers : List Tracker → GlobalStats → GlobalStats
unfolding add_tracker
add_trackers [] stats = stats
add_trackers (tracker ∷ trackers) stats = add_trackers trackers (add_tracker tracker stats)

-- Before the first entry that does not have a higher count.
unfoldable pub insert_count : Name × ℕ → List (Name × ℕ) → List (Name × ℕ)
insert_count (name, n) [] = (name, n) ∷ []
insert_count (name, n) ((other, m) ∷ counts) =
    let rest = insert_count (name, n) counts in
    if leb m n then (name, n) ∷ (other, m) ∷ counts else (other, m) ∷ rest

unfoldable pub sort_counts : List (Name × ℕ) → List (Name × ℕ)
unfolding insert_count
sort_counts [] = []
sort_counts (entry ∷ counts) = insert_count entry (sort_counts counts)

abbrev pub top_domain_limit : ℕ
top_domain_limit = 20

abbrev pub no_stats : GlobalStats
no_stats = record {
  total_active_connections = 0;
  total_connections_seen = 0;
  app_distribution = [];
  domain_counts = [];
}

-- The statistics, and `top_domains`.
unfoldable pub get_global_stats : GlobalTable → GlobalStats × List (Name × ℕ)
unfolding registered add_trackers sort_counts
get_global_stats table =
    let stats = add_trackers (registered table) no_stats in
    (stats, take top_domain_limit (sort_counts stats.domain_counts))
