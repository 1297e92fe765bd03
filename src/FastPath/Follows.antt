-- ===== src/FastPath/Follows.antt =====
-- What inspection leaves alone in dpi/fast_path.py: the flow table, the rules, the connection's
-- tuple, and a state that is not BLOCKED.
use python_deep_packet_inspe.Prelude.{
  ◌≡◌, refl, sym, ◌∙◌, subst, Bool, true, false, not, ◌&&◌, ◌||◌, Option, none, some, [], arith,
  length, ltb, leb, ◌==◌, if◌then◌else◌, Py, ok, ◌>>=◌, ok_inj, ok-bind, drop,
}
use python_deep_packet_inspe.Job.{PacketJob}
use python_deep_packet_inspe.Sni
use python_deep_packet_inspe.Http
use python_deep_packet_inspe.Sni.{Name}
use python_deep_packet_inspe.Apps.{AppType, sni_to_app_type, http, https, dns}
use python_deep_packet_inspe.Tracker.{Connection, classify_connection}
use python_deep_packet_inspe.FastPath.{
  FastPath, increment, is_state_blocked, classify, count_hit, on_sni, on_host, on_query, dns_name,
  try_extract_sni, try_extract_http_host, classify_by_port, inspect_payload, is_http_port, ℕ,
}

-- Packets processed, forwarded and dropped.
abbrev pub counts : FastPath → ℕ × ℕ × ℕ
counts fp = (fp.packets_processed, fp.packets_forwarded, fp.packets_dropped)

pub record Follows (fp : FastPath) (conn : Connection) (fp' : FastPath) (conn' : Connection)
    : Type 0 where
  pub table : (fp'.conn_tracker).connections ≡ (fp.conn_tracker).connections
  pub bound : (fp'.conn_tracker).max_connections ≡ (fp.conn_tracker).max_connections
  pub counted : counts fp' ≡ counts fp
  pub rules : fp'.rule_manager ≡ fp.rule_manager
  pub tuple : conn'.tuple ≡ conn.tuple
  pub unblocked : is_state_blocked conn.state ≡ false → is_state_blocked conn'.state ≡ false

pub Follows-refl : (fp : FastPath) (conn : Connection) → Follows fp conn fp conn
Follows-refl fp conn = record {
  table = refl;
  bound = refl;
  counted = refl;
  rules = refl;
  tuple = refl;
  unblocked = λ h. h;
}

pub Follows-trans :
    {fp fp' fp'' : FastPath} {conn conn' conn'' : Connection}
    → Follows fp conn fp' conn'
    → Follows fp' conn' fp'' conn''
    → Follows fp conn fp'' conn''
Follows-trans f g = record {
  table = g.table ∙ f.table;
  bound = g.bound ∙ f.bound;
  counted = g.counted ∙ f.counted;
  rules = g.rules ∙ f.rules;
  tuple = g.tuple ∙ f.tuple;
  unblocked = λ h. g.unblocked (f.unblocked h);
}

classify-Follows :
    (app : AppType) (sni : Name) (fp : FastPath) (conn : Connection)
    → Follows fp conn (classify app sni fp conn).0 (classify app sni fp conn).1
unfolding classify classify_connection is_state_blocked
classify-Follows app sni fp conn = record {
  table = ground arith;
  bound = ground arith;
  counted = refl;
  rules = refl;
  tuple = ground arith;
  unblocked = λ h. ground (arith, h);
}

count_hit-Follows :
    (generic app : AppType) (fp : FastPath) (conn : Connection)
    → Follows fp conn (count_hit generic app fp) conn
unfolding count_hit
count_hit-Follows generic app fp conn = record {
  table = ground arith;
  bound = ground arith;
  counted = ground arith;
  rules = ground arith;
  tuple = refl;
  unblocked = λ h. h;
}

abbrev pub Result : Type 0
Result = FastPath × Connection × Bool

on_sni-Follows :
    (fp : FastPath) (conn : Connection) (name : Option Name)
    → Follows fp conn (on_sni fp conn name).0 (on_sni fp conn name).1
unfolding on_sni
on_sni-Follows fp conn none = Follows-refl fp conn
on_sni-Follows fp conn (some sni) =
    let app = sni_to_app_type sni in
    let fp₁ : FastPath = record fp { sni_extractions = increment fp.sni_extractions } in
    let r = classify app sni fp₁ conn in
    let f = classify-Follows app sni fp₁ conn in
    let g = count_hit-Follows https app r.0 r.1 in
    record {
      table = g.table ∙ f.table;
      bound = g.bound ∙ f.bound;
      counted = g.counted ∙ f.counted;
      rules = g.rules ∙ f.rules;
      tuple = f.tuple;
      unblocked = f.unblocked;
    }

on_host-Follows :
    (fp : FastPath) (conn : Connection) (name : Option Name)
    → Follows fp conn (on_host fp conn name).0 (on_host fp conn name).1
unfolding on_host
on_host-Follows fp conn none = Follows-refl fp conn
on_host-Follows fp conn (some host) =
    let app = sni_to_app_type host in
    let r = classify app host fp conn in
    Follows-trans (classify-Follows app host fp conn) (count_hit-Follows http app r.0 r.1)

on_query-Follows :
    (job : PacketJob) (fp : FastPath) (conn : Connection) (name : Option Name)
    → Follows fp conn (on_query job fp conn name).0 (on_query job fp conn name).1
unfolding on_query classify_by_port
on_query-Follows job fp conn (some domain) = classify-Follows dns domain fp conn
on_query-Follows job fp conn none =
    by_port (is_http_port (job.tuple).dst_port) ((job.tuple).dst_port == 443)
  where
    chosen : Bool → Bool → FastPath × Connection
    chosen b b' =
        if b then classify http [] fp conn else if b' then classify https [] fp conn else (fp, conn)

    by_port : (b b' : Bool) → Follows fp conn (chosen b b').0 (chosen b b').1
    by_port true b' = classify-Follows http [] fp conn
    by_port false true = classify-Follows https [] fp conn
    by_port false false = Follows-refl fp conn

guarded :
    {A : Type 0} (b b' : Bool) (m : Py (Option Name)) (f : Option Name → A) (r : A)
    → (if b then ok (f none) else if b' then ok (f none) else (m >>= λ name. ok (f name))) ≡ ok r
    → (name : Option Name) × (r ≡ f name)
guarded true b' m f r h = (none, sym (ok_inj (f none) r h))
guarded false true m f r h = (none, sym (ok_inj (f none) r h))
guarded false false m f r h =
    let (name, e, e') = ok-bind m (λ name. ok (f name)) r h in (name, sym (ok_inj (f name) r e'))

module _ (job : PacketJob) (fp : FastPath) (conn : Connection) where
  -- What each step of the inspection returns, when it returns.
  try_extract_sni-cases :
      (r : Result)
      → try_extract_sni job fp conn ≡ ok r
      → (name : Option Name) × (r ≡ on_sni fp conn name)
  unfolding try_extract_sni on_sni
  try_extract_sni-cases r h =
      guarded (not ((job.tuple).dst_port == 443) && ltb job.payload_length 50)
        (leb (length job.content) job.payload_offset || job.payload_length == 0)
        (Sni.extract (drop job.payload_offset job.content) job.payload_length) (on_sni fp conn) r h

  try_extract_http_host-cases :
      (r : Result)
      → try_extract_http_host job fp conn ≡ ok r
      → (name : Option Name) × (r ≡ on_host fp conn name)
  unfolding try_extract_http_host on_host
  try_extract_http_host-cases r h =
      guarded (not (is_http_port (job.tuple).dst_port))
        (leb (length job.content) job.payload_offset || job.payload_length == 0)
        (Http.extract (drop job.payload_offset job.content) job.payload_length) (on_host fp conn) r
        h

  try_extract_sni-Follows :
      (r : Result) → try_extract_sni job fp conn ≡ ok r → Follows fp conn r.0 r.1
  try_extract_sni-Follows r h =
      let (name, e) = try_extract_sni-cases r h in
      subst (λ x. Follows fp conn x.0 x.1) (sym e) (on_sni-Follows fp conn name)

  try_extract_http_host-Follows :
      (r : Result) → try_extract_http_host job fp conn ≡ ok r → Follows fp conn r.0 r.1
  try_extract_http_host-Follows r h =
      let (name, e) = try_extract_http_host-cases r h in
      subst (λ x. Follows fp conn x.0 x.1) (sym e) (on_host-Follows fp conn name)

abbrev Pair : Type 0
Pair = FastPath × Connection

abbrev FollowsPair : FastPath → Connection → Pair → Type 0
FollowsPair fp conn r = Follows fp conn r.0 r.1

-- The steps after the Host, after the SNI, and all of them.
after_host : PacketJob → Result → Py Pair
unfolding on_query dns_name
after_host job r =
    if r.2 then ok (r.0, r.1) else do name ← dns_name job; ok (on_query job r.0 r.1 name)

after_host-Follows :
    (job : PacketJob) (fp : FastPath) (conn : Connection) (b : Bool) (r : Pair)
    → after_host job (fp, conn, b) ≡ ok r
    → FollowsPair fp conn r
unfolding after_host
after_host-Follows job fp conn true r h =
    subst (FollowsPair fp conn) (ok_inj (fp, conn) r h) (Follows-refl fp conn)
after_host-Follows job fp conn false r h =
    let (name, e, e') = ok-bind (dns_name job) (λ name. ok (on_query job fp conn name)) r h in
    subst (FollowsPair fp conn) (ok_inj (on_query job fp conn name) r e')
      (on_query-Follows job fp conn name)

after_sni : PacketJob → Result → Py Pair
unfolding after_host
after_sni job r =
    if r.2 then ok (r.0, r.1) else (try_extract_http_host job r.0 r.1 >>= after_host job)

after_sni-Follows :
    (job : PacketJob) (fp : FastPath) (conn : Connection) (b : Bool) (r : Pair)
    → after_sni job (fp, conn, b) ≡ ok r
    → FollowsPair fp conn r
unfolding after_sni
after_sni-Follows job fp conn true r h =
    subst (FollowsPair fp conn) (ok_inj (fp, conn) r h) (Follows-refl fp conn)
after_sni-Follows job fp conn false r h =
    let (a, e, e') = ok-bind (try_extract_http_host job fp conn) (after_host job) r h in
    Follows-trans (try_extract_http_host-Follows job fp conn a e)
      (after_host-Follows job a.0 a.1 a.2 r e')

pub inspect_payload-Follows :
    (job : PacketJob) (fp : FastPath) (conn : Connection) (r : FastPath × Connection)
    → inspect_payload job fp conn ≡ ok r
    → Follows fp conn r.0 r.1
unfolding inspect_payload after_sni after_host
inspect_payload-Follows job fp conn r h =
    by_guard (job.payload_length == 0 || leb (length job.content) job.payload_offset) h
  where
    by_guard :
        (b : Bool)
        → (if b then ok (fp, conn) else (try_extract_sni job fp conn >>= after_sni job)) ≡ ok r
        → FollowsPair fp conn r
    by_guard true h = subst (FollowsPair fp conn) (ok_inj (fp, conn) r h) (Follows-refl fp conn)
    by_guard false h =
        let (a, e, e') = ok-bind (try_extract_sni job fp conn) (after_sni job) r h in
        Follows-trans (try_extract_sni-Follows job fp conn a e)
          (after_sni-Follows job a.0 a.1 a.2 r e')
