-- ===== src/Summary/Top.antt =====
-- The top domains of `get_global_stats` of dpi/connection_tracker.py.
use python_deep_packet_inspe.Prelude.{
  leb→le, subst, on_branches, ℕ, ◌≤◌, ◌≡◌, Bool, true, false, List, [], ◌∷◌, ◌++◌, length, leb,
  if◌then◌else◌, take, drop, All, All-map, arith, refl, ap, ◌∙◌, sym, zero, suc, min, length-take,
}
use mathlib.Core.List.{Perm}
use mathlib.Core.List.Perm
use python_deep_packet_inspe.Text.{same}
use python_deep_packet_inspe.Text.Laws.{same_refl, same→eq}
use python_deep_packet_inspe.Sni.{Name}
use python_deep_packet_inspe.Apps.{AppType, same_app}
use python_deep_packet_inspe.Summary.{
  GlobalTable, registered, GlobalStats, insert_count, sort_counts, top_domain_limit, no_stats,
  get_global_stats, add_trackers,
}
use python_deep_packet_inspe.Summary.Counts.{keys, count_of, occurrences, counts-AreCounts}
use python_deep_packet_inspe.Summary.Totals.{
  all_apps_of, all_names_of, add_trackers-IsCounted, add_trackers-Distinct,
}

abbrev pub Entry : Type 0
Entry = Name × ℕ

-- No entry has a higher count than one before it.
abbrev pub Falling : List Entry → Type 0
Falling [] = Unit
Falling (entry ∷ entries) = All (λ other. other.1 ≤ entry.1) entries × Falling entries

insert_count-All :
    (P : Entry → Type 0) (entry : Entry) (entries : List Entry)
    → P entry
    → All P entries
    → All P (insert_count entry entries)
unfolding insert_count
insert_count-All P (name, n) [] p h = (p, tt)
insert_count-All P (name, n) ((other, m) ∷ entries) p (q, h) =
    on_branches (All P) (leb m n) (p, (q, h)) (q, insert_count-All P (name, n) entries p h)

insert_count-Falling :
    (entry : Entry) (entries : List Entry) → Falling entries → Falling (insert_count entry entries)
unfolding insert_count
insert_count-Falling (name, n) [] h = (tt, tt)
insert_count-Falling (name, n) ((other, m) ∷ entries) (q, h) =
    by_size (leb m n) refl (insert_count-Falling (name, n) entries h)
  where
    by_size :
        (b : Bool)
        → leb m n ≡ b
        → Falling (insert_count (name, n) entries)
        → Falling (
            if b
            then (name, n) ∷ (other, m) ∷ entries
            else (other, m) ∷ insert_count (name, n) entries)
    by_size true e rest =
        let l = leb→le m n e in
        let after : All (λ (other' : Entry). other'.1 ≤ n) entries =
          All-map (λ o k. omega (arith, l, k)) entries q in
        ((l, after), (q, h))
    by_size false e rest = (
      insert_count-All (λ (other' : Entry). other'.1 ≤ m) (name, n) entries (grind (arith, e)) q,
      rest,
    )

sort_counts-Falling : (entries : List Entry) → Falling (sort_counts entries)
unfolding sort_counts
sort_counts-Falling [] = tt
sort_counts-Falling (entry ∷ entries) =
    insert_count-Falling entry (sort_counts entries) (sort_counts-Falling entries)

insert_count-Perm :
    (entry : Entry) (entries : List Entry) → Perm (insert_count entry entries) (entry ∷ entries)
unfolding insert_count
insert_count-Perm (name, n) [] = Perm.refl _
insert_count-Perm (name, n) ((other, m) ∷ entries) =
    on_branches (λ l. Perm l ((name, n) ∷ (other, m) ∷ entries)) (leb m n) (Perm.refl _)
      (Perm.trans (Perm.cons (other, m) (insert_count-Perm (name, n) entries))
        (Perm.swap (name, n) (other, m) entries))

sort_counts-Perm : (entries : List Entry) → Perm (sort_counts entries) entries
unfolding sort_counts
sort_counts-Perm [] = Perm.refl _
sort_counts-Perm (entry ∷ entries) =
    Perm.trans (insert_count-Perm entry (sort_counts entries))
      (Perm.cons entry (sort_counts-Perm entries))

take-drop : (n : ℕ) (entries : List Entry) → take n entries ++ drop n entries ≡ entries
take-drop zero entries = refl
take-drop (suc n) [] = refl
take-drop (suc n) (entry ∷ entries) = ap (◌∷◌ entry) (take-drop n entries)

sort_counts-All :
    (P : Entry → Type 0) (entries : List Entry) → All P entries → All P (sort_counts entries)
unfolding sort_counts
sort_counts-All P [] h = tt
sort_counts-All P (entry ∷ entries) (p, h) =
    insert_count-All P entry (sort_counts entries) p (sort_counts-All P entries h)

-- What the statistics of a table of trackers say.
pub record IsSummary (table : GlobalTable) (stats : GlobalStats) (top : List Entry) : Type 0 where
  pub active : stats.total_active_connections ≡ length (all_apps_of (registered table))
  pub apps :
      (app : AppType)
      → count_of same_app app stats.app_distribution
        ≡ occurrences same_app app (all_apps_of (registered table))
  pub names :
      (name : Name)
      → count_of same name stats.domain_counts
        ≡ occurrences same name (all_names_of (registered table))
  pub others : List Entry
  pub whole : Perm (top ++ others) stats.domain_counts
  pub falling : Falling (top ++ others)
  pub exact :
      All
        (λ entry. entry.1 ≡ occurrences same entry.0 (all_names_of (registered table)))
        (top ++ others)
  pub limit : length top ≡ min top_domain_limit (length (top ++ others))

-- For every table of trackers the number of active connections, the count of each application and
-- the count of each name that is not empty are those of the connections of the registered trackers;
-- the top domains are twenty names or all, with their counts falling, and no name left out has a
-- higher count.
pub get_global_stats-IsSummary :
    (table : GlobalTable) → IsSummary table (get_global_stats table).0 (get_global_stats table).1
unfolding get_global_stats count_of keys
get_global_stats-IsSummary table =
    let trackers = registered table in
    let stats = add_trackers trackers no_stats in
    let i = add_trackers-IsCounted trackers no_stats in
    let sorted = sort_counts stats.domain_counts in
    let e = sym (take-drop top_domain_limit sorted) in
    let counted =
      counts-AreCounts same same_refl same→eq stats.domain_counts
        (add_trackers-Distinct trackers no_stats tt) in
    let a = i.active in
    record {
      active = omega (arith, a);
      apps = λ app. let c = i.apps app in omega (arith, c);
      names = λ name. let c = i.names name in omega (arith, c);
      others = drop top_domain_limit sorted;
      whole = subst (λ l. Perm l stats.domain_counts) e (sort_counts-Perm stats.domain_counts);
      falling = subst Falling e (sort_counts-Falling stats.domain_counts);
      exact =
          subst
            (All (λ (entry : Entry). entry.1 ≡ occurrences same entry.0 (all_names_of trackers))) e
            (sort_counts-All
              (λ (entry : Entry). entry.1 ≡ occurrences same entry.0 (all_names_of trackers))
              stats.domain_counts
              (All-map (λ (entry : Entry) q. let c = i.names entry.0 in omega (arith, q, c))
                stats.domain_counts counted));
      limit = length-take top_domain_limit sorted ∙ ap (λ l. min top_domain_limit (length l)) e;
    }
