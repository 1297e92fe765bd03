-- ===== src/Working/Verdict.antt =====
-- What a packet changes in its flow in main_working.py: its counts, its names and its verdict.
use python_deep_packet_inspe.Prelude.{
  ℕ, ◌+◌, ◌≡◌, refl, sym, ap, ◌∙◌, subst, Bool, true, false, not, ◌||◌, Option, none, some, List,
  arith, length, if◌then◌else◌, Py, ok, ◌>>=◌, ok_inj, ok-bind,
}
use python_deep_packet_inspe.Flow.{FiveTuple}
use python_deep_packet_inspe.Sni.{Name}
use python_deep_packet_inspe.Apps.{http, https}
use python_deep_packet_inspe.Parser.{RawPacket, ParsedPacket}
use python_deep_packet_inspe.Working.{
  BlockingRules, is_blocked, Flow, count_in, take_name, try_sni, try_host, classify, classify_dns,
  classify_port, judge, wants_name, tcp_payload, sni_at, host_at,
}

-- What a turn keeps of a flow's blocked mark and counters.
abbrev Keeps : Flow → Flow → Type 0
Keeps f g = (g.blocked ≡ f.blocked) × (g.packets ≡ f.packets) × (g.bytes ≡ f.bytes)

take_name-Keeps : (name : Option Name) (flow : Flow) → Keeps flow (take_name name flow)
unfolding take_name
take_name-Keeps none flow = (refl, refl, refl)
take_name-Keeps (some name) flow = (refl, refl, refl)

named-Keeps :
    (b : Bool) (m : Py (Option ℕ)) (f : Option ℕ → Py (Option Name)) (flow flow' : Flow)
    → (if b then ok flow else (m >>= λ offset. f offset >>= λ name. ok (take_name name flow)))
      ≡ ok flow'
    → Keeps flow flow'
named-Keeps true m f flow flow' e =
    let s = ok_inj flow flow' e in
    (ap (λ x. x.blocked) (sym s), ap (λ x. x.packets) (sym s), ap (λ x. x.bytes) (sym s))
named-Keeps false m f flow flow' e =
    let (o, _, d) = ok-bind m _ flow' e in
    let (name, _, c) = ok-bind (f o) _ flow' d in
    subst (Keeps flow) (ok_inj _ _ c) (take_name-Keeps name flow)

ports-Keeps :
    (parsed : ParsedPacket) (flow : Flow)
    → Keeps flow (classify_port parsed (classify_dns parsed flow))
unfolding classify_port classify_dns
ports-Keeps parsed flow = ground arith

module _ (parsed : ParsedPacket) (bytes : List ℕ) (flow flow' : Flow) where
  try_sni-Keeps : try_sni parsed bytes flow ≡ ok flow' → Keeps flow flow'
  unfolding try_sni
  try_sni-Keeps e =
      named-Keeps (not (wants_name https 443 parsed flow)) (tcp_payload bytes) (λ o. sni_at bytes o)
        flow flow' e

  try_host-Keeps : try_host parsed bytes flow ≡ ok flow' → Keeps flow flow'
  unfolding try_host
  try_host-Keeps e =
      named-Keeps (not (wants_name http 80 parsed flow)) (tcp_payload bytes) (λ o. host_at bytes o)
        flow flow' e

pub classify-Keeps :
    (parsed : ParsedPacket) (bytes : List ℕ) (flow flow' : Flow)
    → classify parsed bytes flow ≡ ok flow'
    → Keeps flow flow'
unfolding classify
classify-Keeps parsed bytes flow flow' e =
    let (a, ea, e1) = ok-bind (try_sni parsed bytes flow) _ flow' e in
    let (b, eb, e2) = ok-bind (try_host parsed bytes a) _ flow' e1 in
    let ka = try_sni-Keeps parsed bytes flow a ea in
    let kb = try_host-Keeps parsed bytes a b eb in
    let kc = ports-Keeps parsed b in
    let s = ok_inj _ flow' e2 in
    (
      ap (λ x. x.blocked) (sym s) ∙ kc.0 ∙ kb.0 ∙ ka.0,
      ap (λ x. x.packets) (sym s) ∙ kc.1 ∙ kb.1 ∙ ka.1,
      ap (λ x. x.bytes) (sym s) ∙ kc.2 ∙ kb.2 ∙ ka.2,
    )

-- A flow after its packet was counted, classified and judged, where it was `prior` before.
pub record IsVerdict (rules : BlockingRules) (t : FiveTuple) (raw : RawPacket) (prior flow : Flow)
    : Type 0 where
  pub packets : flow.packets ≡ prior.packets + 1
  pub bytes : flow.bytes ≡ prior.bytes + length raw.content
  pub blocked : flow.blocked ≡ (prior.blocked || is_blocked rules t.src_ip flow.app_type flow.sni)

pub judge-IsVerdict :
    (rules : BlockingRules) (t : FiveTuple) (raw : RawPacket) (prior flow : Flow)
    → Keeps (count_in t raw prior) flow
    → IsVerdict rules t raw prior (judge rules t.src_ip flow)
unfolding judge count_in
judge-IsVerdict rules t raw prior flow (b, p, n) = record {
  packets = ground (arith, p);
  bytes = ground (arith, n);
  blocked = ground (arith, b);
}
