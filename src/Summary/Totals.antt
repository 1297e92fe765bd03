-- ===== src/Summary/Totals.antt =====
-- What `get_global_stats` of dpi/connection_tracker.py counts, over the connections of all trackers.
use python_deep_packet_inspe.Prelude.{
  ℕ, ◌+◌, ◌≡◌, Bool, List, [], ◌∷◌, ◌++◌, length, arith, refl, ap, suc, length-append,
}
use python_deep_packet_inspe.Text.{same}
use python_deep_packet_inspe.Text.Laws.{same_refl, same→eq}
use python_deep_packet_inspe.Sni.{Name}
use python_deep_packet_inspe.Apps.{AppType, same_app}
use python_deep_packet_inspe.Apps.Codes.{same_app_refl, same_app→eq}
use python_deep_packet_inspe.Tracker.{Tracker, Table}
use python_deep_packet_inspe.Rules.Sets.{Distinct}
use python_deep_packet_inspe.Summary.{
  GlobalStats, count_name, collect, for_each, add_tracker, add_trackers,
}
use python_deep_packet_inspe.Summary.Counts.{
  keys, count_of, occurrences, count_of-bump, bump-Distinct,
}

module _ {A : Type 0} (eq : A → A → Bool) where
  occurrences-append :
      (key : A) (xs ys : List A)
      → occurrences eq key (xs ++ ys) ≡ occurrences eq key xs + occurrences eq key ys
  unfolding occurrences
  occurrences-append key [] ys = omega arith
  occurrences-append key (x ∷ xs) ys = let r = occurrences-append key xs ys in omega (arith, r)

unfoldable pub apps_of : Table → List AppType
apps_of [] = []
apps_of ((key, conn) ∷ table) = conn.app_type ∷ apps_of table

-- The names that are not empty.
unfoldable pub name_of : Name → List Name
name_of [] = []
name_of (c ∷ name) = (c ∷ name) ∷ []

unfoldable pub names_of : Table → List Name
unfolding name_of
names_of [] = []
names_of ((key, conn) ∷ table) = name_of conn.sni ++ names_of table

unfoldable pub all_apps_of : List Tracker → List AppType
unfolding apps_of
all_apps_of [] = []
all_apps_of (tracker ∷ trackers) = apps_of tracker.connections ++ all_apps_of trackers

unfoldable pub all_names_of : List Tracker → List Name
unfolding names_of
all_names_of [] = []
all_names_of (tracker ∷ trackers) = names_of tracker.connections ++ all_names_of trackers

length-apps_of : (table : Table) → length (apps_of table) ≡ length table
unfolding apps_of
length-apps_of [] = refl
length-apps_of ((key, conn) ∷ table) = ap suc (length-apps_of table)

for_each-apps :
    (app : AppType) (table : Table) (stats : GlobalStats)
    → count_of same_app app (for_each table stats).app_distribution
      ≡ occurrences same_app app (apps_of table) + count_of same_app app stats.app_distribution
unfolding for_each collect apps_of occurrences
for_each-apps app [] stats = omega arith
for_each-apps app ((key, conn) ∷ table) stats =
    let r = for_each-apps app table (collect conn stats) in
    let b =
      count_of-bump same_app same_app_refl same_app→eq app conn.app_type stats.app_distribution in
    omega (arith, r, b)

count_name_lem :
    (name key : Name) (counts : List (Name × ℕ))
    → count_of same name (count_name key counts)
      ≡ occurrences same name (name_of key) + count_of same name counts
unfolding count_name name_of occurrences
count_name_lem name [] counts = omega arith
count_name_lem name (c ∷ key) counts =
    let b = count_of-bump same same_refl same→eq name (c ∷ key) counts in omega (arith, b)

for_each-names :
    (name : Name) (table : Table) (stats : GlobalStats)
    → count_of same name (for_each table stats).domain_counts
      ≡ occurrences same name (names_of table) + count_of same name stats.domain_counts
unfolding for_each collect names_of occurrences
for_each-names name [] stats = omega arith
for_each-names name ((key, conn) ∷ table) stats =
    let r = for_each-names name table (collect conn stats) in
    let b = count_name_lem name conn.sni stats.domain_counts in
    let a = occurrences-append same name (name_of conn.sni) (names_of table) in
    omega (arith, r, b, a)

count_name-Distinct :
    (key : Name) (counts : List (Name × ℕ))
    → Distinct same (keys counts)
    → Distinct same (keys (count_name key counts))
unfolding count_name
count_name-Distinct [] counts h = h
count_name-Distinct (c ∷ key) counts h = bump-Distinct same same_refl same→eq (c ∷ key) counts h

for_each-Distinct :
    (table : Table) (stats : GlobalStats)
    → Distinct same (keys stats.domain_counts)
    → Distinct same (keys (for_each table stats).domain_counts)
unfolding for_each collect
for_each-Distinct [] stats h = h
for_each-Distinct ((key, conn) ∷ table) stats h =
    for_each-Distinct table (collect conn stats)
      (count_name-Distinct conn.sni stats.domain_counts h)

for_each-active :
    (table : Table) (stats : GlobalStats)
    → (for_each table stats).total_active_connections ≡ stats.total_active_connections
unfolding for_each collect
for_each-active [] stats = refl
for_each-active ((key, conn) ∷ table) stats = for_each-active table (collect conn stats)

-- The counts of the connections of `trackers`, on top of those of `before`.
pub record IsCounted (before : GlobalStats) (trackers : List Tracker) (stats : GlobalStats)
    : Type 0 where
  pub active :
      stats.total_active_connections
      ≡ length (all_apps_of trackers) + before.total_active_connections
  pub apps :
      (app : AppType)
      → count_of same_app app stats.app_distribution
        ≡ occurrences same_app app (all_apps_of trackers)
          + count_of same_app app before.app_distribution
  pub names :
      (name : Name)
      → count_of same name stats.domain_counts
        ≡ occurrences same name (all_names_of trackers) + count_of same name before.domain_counts

pub add_trackers-IsCounted :
    (trackers : List Tracker) (stats : GlobalStats)
    → IsCounted stats trackers (add_trackers trackers stats)
unfolding add_trackers add_tracker all_apps_of all_names_of occurrences
add_trackers-IsCounted [] stats = record {
  active = omega arith;
  apps = λ app. omega arith;
  names = λ name. omega arith;
}
add_trackers-IsCounted (tracker ∷ trackers) stats =
    let table = tracker.connections in
    let i = add_trackers-IsCounted trackers (add_tracker tracker stats) in
    let n = length-append (apps_of table) (all_apps_of trackers) in
    let m = length-apps_of table in
    let a = i.active in
    let begun : GlobalStats = record stats {
      total_active_connections = stats.total_active_connections + length table;
      total_connections_seen = stats.total_connections_seen + tracker.total_seen;
    } in
    let b = for_each-active table begun in
    record {
      active = omega (arith, a, b, n, m);
      apps = λ app.
          let c = i.apps app in
          let d = for_each-apps app table begun in
          let e = occurrences-append same_app app (apps_of table) (all_apps_of trackers) in
          omega (arith, c, d, e);
      names = λ name.
          let c = i.names name in
          let d = for_each-names name table begun in
          let e = occurrences-append same name (names_of table) (all_names_of trackers) in
          omega (arith, c, d, e);
    }

pub add_trackers-Distinct :
    (trackers : List Tracker) (stats : GlobalStats)
    → Distinct same (keys stats.domain_counts)
    → Distinct same (keys (add_trackers trackers stats).domain_counts)
unfolding add_trackers add_tracker
add_trackers-Distinct [] stats h = h
add_trackers-Distinct (tracker ∷ trackers) stats h =
    add_trackers-Distinct trackers (add_tracker tracker stats) (
      for_each-Distinct tracker.connections
        (record stats {
          total_active_connections = stats.total_active_connections + length tracker.connections;
          total_connections_seen = stats.total_connections_seen + tracker.total_seen;
        })
        h)
