-- ===== src/Startup/Ready.antt =====
-- The engine after `initialize` of dpi/dpi_engine.py.
use python_deep_packet_inspe.Prelude.{
  All, ap₂, ok_inj, ◌%◌, ℕ, zero, suc, ◌+◌, ◌*◌, ◌<◌, ◌≤◌, ◌≡◌, Option, none, some, List, [], ◌∷◌,
  ◌++◌, length, map, ok, replicate, set, get_elem?, arith, refl, ap, sym, ◌∙◌, append_assoc,
  length-append, lt→ltb, subst,
}
use python_deep_packet_inspe.Flow.{FiveTuple}
use python_deep_packet_inspe.Sni.{Name}
use python_deep_packet_inspe.Rules.{RuleManager}
use python_deep_packet_inspe.Tracker as Flows
use python_deep_packet_inspe.Tracker.{Tracker}
use python_deep_packet_inspe.Flow.{flow_hash}
use python_deep_packet_inspe.Balance.{mix64, route}
use python_deep_packet_inspe.Balance.Affinity.{route-lb_manager}
use python_deep_packet_inspe.FastPath.{FastPath}
use python_deep_packet_inspe.Summary.{GlobalTable, empty_table, register_tracker, registered}
use python_deep_packet_inspe.Startup.{
  Config, Parts, init_fp, make_fps, register_all, initialize, load_configured,
}

module _ (now : ℕ) (rules : RuleManager) where
  length-make_fps : (fp_id n : ℕ) → length (make_fps now rules fp_id n) ≡ n
  unfolding make_fps
  length-make_fps fp_id zero = refl
  length-make_fps fp_id (suc n) = ap suc (length-make_fps (fp_id + 1) n)

  get_elem?-make_fps :
      (fp_id n k : ℕ)
      → k < n
      → get_elem? (make_fps now rules fp_id n) k ≡ some (init_fp now rules (fp_id + k))
  unfolding make_fps
  get_elem?-make_fps fp_id zero k h = elim h [ ]
  get_elem?-make_fps fp_id (suc n) zero h = ap (λ i. some (init_fp now rules i)) (omega arith)
  get_elem?-make_fps fp_id (suc n) (suc k) h =
      get_elem?-make_fps (fp_id + 1) n k (omega arith)
      ∙ ap (λ i. some (init_fp now rules i)) (omega arith)

module _ (now : ℕ) (rules : RuleManager) where
  make_fps-All :
      (fp_id n : ℕ)
      → All (λ (fp : FastPath). fp.rule_manager ≡ some rules) (make_fps now rules fp_id n)
  unfolding make_fps init_fp
  make_fps-All fp_id zero = tt
  make_fps-All fp_id (suc n) = (refl, make_fps-All (fp_id + 1) n)

trackers_of : List FastPath → GlobalTable
trackers_of fps = map (λ (fp : FastPath). some fp.conn_tracker) fps

set-append :
    (before : GlobalTable) (slot : Option Tracker) (after : GlobalTable) (tracker : Tracker)
    → set (before ++ slot ∷ after) (length before) (some tracker) ≡ before ++ some tracker ∷ after
set-append [] slot after tracker = refl
set-append (x ∷ before) slot after tracker = ap (◌∷◌ x) (set-append before slot after tracker)

-- The trackers take the empty slots one by one.
register_all_lem :
    (fps : List FastPath) (before : GlobalTable)
    → register_all (length before) fps (before ++ replicate (length fps) none)
      ≡ before ++ trackers_of fps
unfolding register_all register_tracker trackers_of
register_all_lem [] before = refl
register_all_lem (fp ∷ fps) before =
    let slots : GlobalTable = replicate (length fps) none in
    let tracker = fp.conn_tracker in
    let longer = before ++ some tracker ∷ [] in
    let l = length-append before (none ∷ slots) in
    let n = length-append before (some tracker ∷ []) in
    let next : length before + 1 ≡ length longer = omega (arith, n) in
    let put : register_tracker (length before) tracker (before ++ none ∷ slots) ≡ longer ++ slots =
      rw (lt→ltb (length before) (length (before ++ none ∷ slots)) (omega (arith, l))) (
        set-append before none slots tracker
        ∙ sym (append_assoc before (some tracker ∷ []) slots)) in
    ap₂ (λ i table. register_all i fps table) next put
    ∙ register_all_lem fps longer
    ∙ append_assoc before (some tracker ∷ []) (trackers_of fps)

registered_lem :
    (fps : List FastPath)
    → registered (trackers_of fps) ≡ map (λ (fp : FastPath). fp.conn_tracker) fps
unfolding registered trackers_of
registered_lem [] = refl
registered_lem (fp ∷ fps) = ap (◌∷◌ fp.conn_tracker) (registered_lem fps)

-- The engine is ready: every fast path has its number, and its tracker is in the global table; every
-- packet has a fast path.
pub record IsReady (config : Config) (parts : Parts) : Type 0 where
  pub size : length parts.fps ≡ config.num_load_balancers * config.fps_per_lb
  pub trackers :
      registered parts.global_conn_table ≡ map (λ (fp : FastPath). fp.conn_tracker) parts.fps
  pub ruled : All (λ (fp : FastPath). fp.rule_manager ≡ some parts.rule_manager) parts.fps
  pub routed :
      (t : FiveTuple)
      → (k : ℕ) × (fp : FastPath) × (route parts.lbs t ≡ ok k)
        × (get_elem? parts.fps k ≡ some fp)
        × (fp.conn_tracker.fp_id ≡ k)

-- With a balancer and a fast path for each at least, `initialize` returns, for every rules file, and
-- the engine is ready.
pub initialize-IsReady :
    (open_rules : Name → Option (List ℕ)) (now : ℕ) (config : Config)
    → 0 < config.num_load_balancers
    → 0 < config.fps_per_lb
    → (parts : Parts) × (initialize open_rules now config ≡ ok parts) × IsReady config parts
unfolding initialize empty_table init_fp Flows.init
initialize-IsReady open_rules now config hl hf =
    let rules = load_configured open_rules config.rules_file in
    let lbs_num = config.num_load_balancers in
    let per = config.fps_per_lb in
    let fps = make_fps now rules 0 (lbs_num * per) in
    let n = length-make_fps now rules 0 (lbs_num * per) in
    let enough : lbs_num * per ≤ length fps = omega (arith, n) in
    let origin : FiveTuple = record {
      src_ip = 0;
      dst_ip = 0;
      src_port = 0;
      dst_port = 0;
      protocol = 0;
    } in
    let (lbs, e, size, r, bound) = route-lb_manager lbs_num per (length fps) origin hl hf enough in
    (
      record {
        rule_manager = rules;
        fps = fps;
        lbs = lbs;
        global_conn_table = register_all 0 fps (replicate (lbs_num * per) none);
      },
      rw e refl,
      record {
        size = n;
        trackers =
            ap (λ m. registered (register_all 0 fps (replicate m none))) (sym n)
            ∙ ap registered (register_all_lem fps [])
            ∙ registered_lem fps;
        ruled = make_fps-All now rules 0 (lbs_num * per);
        routed = λ t.
            let (lbs', e', size', r', b) =
              route-lb_manager lbs_num per (length fps) t hl hf enough in
            let k = flow_hash t % lbs_num * per + mix64 (flow_hash t) % per in
            let same = ok_inj lbs' lbs (sym e' ∙ e) in
            (
              k,
              init_fp now rules (0 + k),
              subst (λ l. route l t ≡ ok k) same r',
              get_elem?-make_fps now rules 0 (lbs_num * per) k (subst (λ m. k < m) n b),
              omega arith,
            );
      },
    )
