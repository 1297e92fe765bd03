-- ===== src/FastPath/Verdict.antt =====
-- The verdicts of `_process_packet` of dpi/fast_path.py, and the flow table after it.
use python_deep_packet_inspe.Prelude.{
  ℕ, ◌≤◌, max, ◌≡◌, refl, sym, ap, ap₂, ◌∙◌, subst, ◌⊎◌, inl, inr, Bool, true, false, not, ◌&&◌,
  Option, none, some, length, ltb, if◌then◌else◌, ok, ◌>>=◌, ok_inj, ok-bind,
}
use python_deep_packet_inspe.Job.{PacketJob}
use python_deep_packet_inspe.Sni.{Name}
use python_deep_packet_inspe.Rules.{BlockReason}
use python_deep_packet_inspe.Tracker.{
  PacketAction, forward, drop_packet, Connection, find, get_or_create_connection, block_connection,
  store,
}
use python_deep_packet_inspe.Tracker.Keys.{IsKeyed, find-put}
use python_deep_packet_inspe.Tracker.Owner.{IsOwner, get_or_create_connection-IsOwner}
use python_deep_packet_inspe.Tracker.Invariant.{
  IsTracked, Method-IsTracked, looked_up, changed, get_or_create_connection-IsThere,
}
use python_deep_packet_inspe.FastPath.{
  FastPath, is_state_blocked, is_classified, inspect_payload, track_packet, block_reason,
  check_rules, judge, process_packet,
}
use python_deep_packet_inspe.FastPath.Follows.{counts, inspect_payload-Follows}
use python_deep_packet_inspe.FastPath.Tuples.{track_packet-tuple}

module _ (fnmatchcase : Name → Name → Bool) (job : PacketJob) where
  -- DROP, and the connection is BLOCKED, or FORWARD, and it is not and no rule blocks it.
  abbrev pub IsVerdict : FastPath → Connection → PacketAction → Type 0
  IsVerdict fp conn action =
      ((action ≡ drop_packet) × (is_state_blocked conn.state ≡ true))
      ⊎ ((action ≡ forward)
          × (is_state_blocked conn.state ≡ false)
          × (block_reason fnmatchcase job fp conn ≡ none))

  -- What the turn of a packet leaves: a verdict, and the table as it was.
  record Ends (fp : FastPath) (conn : Connection) (r : FastPath × Connection × PacketAction)
      : Type 0 where
    verdict : IsVerdict r.0 r.1 r.2
    table : ((r.0).conn_tracker).connections ≡ (fp.conn_tracker).connections
    bound : ((r.0).conn_tracker).max_connections ≡ (fp.conn_tracker).max_connections
    counted : counts r.0 ≡ counts fp
    rules : (r.0).rule_manager ≡ fp.rule_manager
    tuple : (r.1).tuple ≡ conn.tuple

  check_rules-Ends :
      (fp : FastPath) (conn : Connection)
      → is_state_blocked conn.state ≡ false
      → Ends fp conn (check_rules fnmatchcase job fp conn)
  unfolding check_rules block_connection is_state_blocked
  check_rules-Ends fp conn h = by_reason (block_reason fnmatchcase job fp conn) refl
    where
      by_reason :
          (o : Option BlockReason)
          → block_reason fnmatchcase job fp conn ≡ o
          → Ends fp conn (elim o [
            | none ↦ (fp, conn, forward)
            | some reason ↦ (
              record fp { conn_tracker = (block_connection conn fp.conn_tracker).0 },
              (block_connection conn fp.conn_tracker).1,
              drop_packet,
            )
          ])
      by_reason none e = record {
        verdict = inr (refl, h, e);
        table = refl;
        bound = refl;
        counted = refl;
        rules = refl;
        tuple = refl;
      }
      by_reason (some reason) e = record {
        verdict = inl (refl, refl);
        table = refl;
        bound = refl;
        counted = refl;
        rules = refl;
        tuple = refl;
      }

  judge-Ends :
      (fp : FastPath) (conn : Connection) (r : FastPath × Connection × PacketAction)
      → judge fnmatchcase job fp conn ≡ ok r
      → Ends fp conn r
  unfolding judge
  judge-Ends fp conn r h =
      by_state (is_state_blocked conn.state)
        (not (is_classified conn.state) && ltb 0 job.payload_length) refl h
    where
      checked : FastPath × Connection → FastPath × Connection × PacketAction
      checked a = check_rules fnmatchcase job a.0 a.1

      by_state :
          (b b' : Bool)
          → is_state_blocked conn.state ≡ b
          → (if b
              then ok (fp, conn, drop_packet)
              else if b'
              then (inspect_payload job fp conn >>= λ a. ok (checked a))
              else ok (checked (fp, conn)))
            ≡ ok r
          → Ends fp conn r
      by_state true b' e h = subst (Ends fp conn) (ok_inj (fp, conn, drop_packet) r h) (record {
        verdict = inl (refl, e);
        table = refl;
        bound = refl;
        counted = refl;
        rules = refl;
        tuple = refl;
      })
      by_state false true e h =
          let (a, f, g) = ok-bind (inspect_payload job fp conn) (λ a. ok (checked a)) r h in
          let k = inspect_payload-Follows job fp conn a f in
          let d = check_rules-Ends a.0 a.1 (k.unblocked e) in
          subst (Ends fp conn) (ok_inj (checked a) r g) (record {
            verdict = d.verdict;
            table = d.table ∙ k.table;
            bound = d.bound ∙ k.bound;
            counted = d.counted ∙ k.counted;
            rules = d.rules ∙ k.rules;
            tuple = d.tuple ∙ k.tuple;
          })
      by_state false false e h =
          subst (Ends fp conn) (ok_inj (checked (fp, conn)) r h) (check_rules-Ends fp conn e)

-- The state of a processor and the verdict after a turn that began in the state `fp`.
abbrev pub IsTurn : (Name → Name → Bool) → PacketJob → FastPath → FastPath × PacketAction → Type 0
IsTurn fnmatchcase job fp r =
    IsTracked (r.0).conn_tracker
    × ((r.0).rule_manager ≡ fp.rule_manager)
    × (conn : Connection) × IsOwner job.tuple fp.conn_tracker conn.tuple
    × (find conn.tuple ((r.0).conn_tracker).connections ≡ some conn)
    × IsVerdict fnmatchcase job r.0 conn r.1

put_back :
    (fnmatchcase : Name → Name → Bool) (job : PacketJob) (begun fp : FastPath) (conn c : Connection)
    (a : FastPath × Connection × PacketAction)
    → fp.rule_manager ≡ begun.rule_manager
    → IsOwner job.tuple begun.conn_tracker conn.tuple
    → IsTracked fp.conn_tracker
    → find conn.tuple (fp.conn_tracker).connections ≡ some conn
    → c.tuple ≡ conn.tuple
    → Ends fnmatchcase job fp c a
    → IsTurn fnmatchcase job begun
        (record (a.0) { conn_tracker = store a.1 (a.0).conn_tracker }, a.2)
unfolding store block_reason
put_back fnmatchcase job begun fp conn c a rules owner tracked there own d =
    let kept : IsTracked (a.0).conn_tracker = record {
      keyed = subst IsKeyed (sym d.table) tracked.keyed;
      bounded =
          subst (λ n. length ((a.0).conn_tracker).connections ≤ max 1 n) (sym d.bound)
            (subst (λ t. length t ≤ max 1 (fp.conn_tracker).max_connections) (sym d.table)
              tracked.bounded);
    } in
    let present : find (a.1).tuple ((a.0).conn_tracker).connections ≡ some conn =
      ap₂ find (d.tuple ∙ own) d.table ∙ there in
    let stored = Method-IsTracked (changed conn a.1 (a.0).conn_tracker present) kept in
    (
      stored,
      d.rules ∙ rules,
      a.1,
      subst (IsOwner job.tuple begun.conn_tracker) (sym (d.tuple ∙ own)) owner,
      find-put (a.1).tuple a.1 ((a.0).conn_tracker).connections,
      d.verdict,
    )

-- When a turn ends, the table holds the connection of the packet, which stands under the packet's
-- tuple, or under its reverse where the table had only this. Either the packet is dropped and this
-- connection is BLOCKED, or it is forwarded, the connection is not BLOCKED and no rule blocks the
-- packet's address and port or the connection's application and name. The rules are those before
-- the turn, and the table keeps its invariant.
pub process_packet-IsTurn :
    (fnmatchcase : Name → Name → Bool) (now later : ℕ) (job : PacketJob) (fp : FastPath)
    (r : FastPath × PacketAction)
    → IsTracked fp.conn_tracker
    → process_packet fnmatchcase now later job fp ≡ ok r
    → IsTurn fnmatchcase job fp r
unfolding process_packet
process_packet-IsTurn fnmatchcase now later job fp r tracked h =
    let found = get_or_create_connection now job.tuple fp.conn_tracker in
    let fp₀ : FastPath = record fp { conn_tracker = found.0 } in
    let conn = track_packet later job found.1 in
    let (a, e, g) =
      ok-bind (judge fnmatchcase job fp₀ conn)
        (λ a. ok (record (a.0) { conn_tracker = store a.1 (a.0).conn_tracker }, a.2)) r h in
    let there = get_or_create_connection-IsThere now job.tuple fp.conn_tracker tracked.keyed in
    subst (IsTurn fnmatchcase job fp)
      (ok_inj (record (a.0) { conn_tracker = store a.1 (a.0).conn_tracker }, a.2) r g)
      (put_back fnmatchcase job fp fp₀ found.1 conn a refl
        (get_or_create_connection-IsOwner now job.tuple fp.conn_tracker tracked.keyed)
        (Method-IsTracked (looked_up now job.tuple fp.conn_tracker) tracked) there.0
        (track_packet-tuple later job found.1) (judge-Ends fnmatchcase job fp₀ conn a e))

-- A turn leaves the counters of `_run` alone.
pub process_packet-counts :
    (fnmatchcase : Name → Name → Bool) (now later : ℕ) (job : PacketJob) (fp : FastPath)
    (r : FastPath × PacketAction)
    → process_packet fnmatchcase now later job fp ≡ ok r
    → counts r.0 ≡ counts fp
unfolding process_packet
process_packet-counts fnmatchcase now later job fp r h =
    let found = get_or_create_connection now job.tuple fp.conn_tracker in
    let fp₀ : FastPath = record fp { conn_tracker = found.0 } in
    let conn = track_packet later job found.1 in
    let (a, e, g) =
      ok-bind (judge fnmatchcase job fp₀ conn)
        (λ a. ok (record (a.0) { conn_tracker = store a.1 (a.0).conn_tracker }, a.2)) r h in
    ap (λ x. counts x.0)
      (sym (ok_inj (record (a.0) { conn_tracker = store a.1 (a.0).conn_tracker }, a.2) r g))
    ∙ (judge-Ends fnmatchcase job fp₀ conn a e).counted
