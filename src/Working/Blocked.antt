-- ===== src/Working/Blocked.antt =====
-- What the rules of main_working.py do to the packets of a flow.
use python_deep_packet_inspe.Prelude.{
  ◌<◌, some, length, ok, ℕ, ◌≡◌, refl, sym, ap, ◌∙◌, subst, inl, inr, true, false, ◌||◌, List, [],
  ◌∷◌, arith, All, Bool-cases, ok_inj,
}
use python_deep_packet_inspe.Flow.{FiveTuple, tuple_eq}
use python_deep_packet_inspe.Tracker.Keys.{tuple_eq_refl, tuple_eq→eq, some_inj}
use python_deep_packet_inspe.Apps.{AppType}
use python_deep_packet_inspe.Sni.{Name}
use python_deep_packet_inspe.Pack.{ByteOrder, AreBytes}
use python_deep_packet_inspe.Pcap.{PcapReader, iterate}
use python_deep_packet_inspe.Parser.{RawPacket}
use python_deep_packet_inspe.Rules.Sets.{member}
use python_deep_packet_inspe.Working.{
  BlockingRules, no_rules, is_blocked, any_infix, Flow, Flows, flow_of, put_flow, Run, tuple_of,
  main_loop,
}
use python_deep_packet_inspe.Working.Turns.{Turn, skip, drop_it, forward, IsOf, of_flow}
use python_deep_packet_inspe.Working.Verdict.{IsVerdict}
use python_deep_packet_inspe.Working.Steps.{Steps, main_loop-Completes}
use python_deep_packet_inspe.Working.Output.{start_run}
use python_deep_packet_inspe.Working.Sorted.{IsSorted, Steps-follow}

flow_of-put :
    (t : FiveTuple) (flow : Flow) (flows : Flows) → flow_of t (put_flow t flow flows) ≡ flow
unfolding flow_of put_flow
flow_of-put t flow [] = rw (tuple_eq_refl t) refl
flow_of-put t flow ((k, old) ∷ flows) = grind (arith, flow_of-put t flow flows)

flow_of-put_other :
    (s t : FiveTuple) (flow : Flow) (flows : Flows)
    → tuple_eq s t ≡ false
    → flow_of s (put_flow t flow flows) ≡ flow_of s flows
unfolding flow_of put_flow
flow_of-put_other s t flow [] h = rw h refl
flow_of-put_other s t flow ((k, old) ∷ flows) h = elim (Bool-cases (tuple_eq t k)) [
  | inl e ↦
      let f : tuple_eq s k ≡ false = subst (λ x. tuple_eq s x ≡ false) (tuple_eq→eq t k e) h in
      ground (arith, e, f)
  | inr e ↦ ground (arith, flow_of-put_other s t flow flows h, e)
]

-- A packet is of one flow.
same_flow :
    (order : ByteOrder) (s t : FiveTuple) (raw : RawPacket)
    → IsOf order s raw
    → IsOf order t raw
    → s ≡ t
same_flow order s t raw (of_flow p a f g) (of_flow q b x y) =
    let e = some_inj p q (ok_inj _ _ (sym a ∙ b)) in sym g ∙ ap tuple_of e ∙ y

abbrev pub IsBlocked : FiveTuple → Run → Type 0
IsBlocked t run = (flow_of t run.flows).blocked ≡ true

abbrev pub NotOf : ByteOrder → FiveTuple → RawPacket → Type 0
NotOf order t raw = ¬ IsOf order t raw

module _ (order : ByteOrder) (rules : BlockingRules) (t : FiveTuple) where
  put-IsBlocked :
      (s : FiveTuple) (raw : RawPacket) (flow : Flow) (run : Run)
      → IsBlocked t run
      → IsVerdict rules s raw (flow_of s run.flows) flow
      → (flow_of t (put_flow s flow run.flows)).blocked ≡ true
  put-IsBlocked s raw flow run b v = elim (Bool-cases (tuple_eq t s)) [
    | inl e ↦
        let x = v.blocked in
        let same = tuple_eq→eq t s e in
        let f = flow_of-put s flow run.flows in
        ap (λ k. (flow_of k (put_flow s flow run.flows)).blocked) same
        ∙ ap (λ g. g.blocked) f
        ∙ x
        ∙ ap (λ c. c || is_blocked rules s.src_ip flow.app_type flow.sni)
            (ap (λ k. (flow_of k run.flows).blocked) (sym same) ∙ b)
    | inr e ↦ ap (λ g. g.blocked) (flow_of-put_other t s flow run.flows e) ∙ b
  ]

  Turn-IsBlocked :
      (raw : RawPacket) (run run' : Run)
      → Turn order rules raw run run'
      → IsBlocked t run
      → IsBlocked t run'
  Turn-IsBlocked raw run run' (skip x) b = b
  Turn-IsBlocked raw run run' (drop_it s flow x v c) b = put-IsBlocked s raw flow run b v
  Turn-IsBlocked raw run run' (forward s flow x v c) b = put-IsBlocked s raw flow run b v

  -- A packet of a blocked flow is not forwarded.
  not_forwarded :
      (s : FiveTuple) (raw : RawPacket) (flow : Flow) (run : Run)
      → IsBlocked t run
      → IsOf order s raw
      → IsVerdict rules s raw (flow_of s run.flows) flow
      → flow.blocked ≡ false
      → NotOf order t raw
  not_forwarded s raw flow run b x v c y =
      let same = same_flow order s t raw x y in
      let p : (flow_of s run.flows).blocked ≡ true =
        ap (λ k. (flow_of k run.flows).blocked) same ∙ b in
      let q = v.blocked in
      let r : true ≡ false =
        ap (λ z. z || is_blocked rules s.src_ip flow.app_type flow.sni) (sym p) ∙ sym q ∙ c in
      cc

  Steps-IsBlocked :
      (run run' : Run) (raws : List RawPacket)
      → IsBlocked t run
      → Steps order rules run raws run'
      → IsBlocked t run' × (s : IsSorted order run raws run') × All (NotOf order t) s.written
  Steps-IsBlocked run run' raws b steps =
      Steps-follow order rules (IsBlocked t) (NotOf order t) Turn-IsBlocked
        (λ raw r s flow i x v c. not_forwarded s raw flow r i x v c) run run' raws b steps

  -- Once a flow is blocked the loop over any bytes of a file leaves it blocked, whatever packets they
  -- hold, of it and of others. The loop ends without an exception, the output grows by the records of
  -- the packets that are written, and none of these is a packet of the flow.
  pub main_loop-IsBlocked :
      (fuel : ℕ) (bytes : List ℕ) (reader : PcapReader) (run : Run)
      → length bytes < fuel
      → reader.file ≡ some bytes
      → AreBytes bytes
      → IsBlocked t run
      → (run' : Run) × (main_loop fuel order rules reader run ≡ ok run')
        × (packets : List RawPacket) × (iterate fuel order reader ≡ ok packets)
        × IsBlocked t run'
        × (s : IsSorted order run packets run') × All (NotOf order t) s.written
  main_loop-IsBlocked fuel bytes reader run l e h b =
      let c = main_loop-Completes order rules fuel bytes reader run l e h in
      let (b', s, w) = Steps-IsBlocked run c.end c.packets b c.steps in
      (c.end, c.result, c.packets, c.read, b', s, w)

is_blocked-no_rules :
    (src_ip : ℕ) (app : AppType) (sni : Name) → is_blocked no_rules src_ip app sni ≡ false
unfolding is_blocked any_infix member
is_blocked-no_rules src_ip app sni = refl

-- No flow is blocked, and nothing was dropped.
abbrev AreFree : Run → Type 0
AreFree run = ((t : FiveTuple) → (flow_of t run.flows).blocked ≡ false) × (run.dropped ≡ 0)

module _ (order : ByteOrder) where
  free_verdict :
      (s : FiveTuple) (raw : RawPacket) (flow : Flow) (run : Run)
      → AreFree run
      → IsVerdict no_rules s raw (flow_of s run.flows) flow
      → flow.blocked ≡ false
  free_verdict s raw flow run f v =
      let x = v.blocked in
      x
      ∙ ap (λ z. z || is_blocked no_rules s.src_ip flow.app_type flow.sni) (f.0 s)
      ∙ is_blocked-no_rules s.src_ip flow.app_type flow.sni

  put-free :
      (t s : FiveTuple) (flow : Flow) (run : Run)
      → AreFree run
      → flow.blocked ≡ false
      → (flow_of t (put_flow s flow run.flows)).blocked ≡ false
  put-free t s flow run f b = elim (Bool-cases (tuple_eq t s)) [
    | inl e ↦
        ap (λ k. (flow_of k (put_flow s flow run.flows)).blocked) (tuple_eq→eq t s e)
        ∙ ap (λ g. g.blocked) (flow_of-put s flow run.flows)
        ∙ b
    | inr e ↦ ap (λ g. g.blocked) (flow_of-put_other t s flow run.flows e) ∙ f.0 t
  ]

  Turn-AreFree :
      (raw : RawPacket) (run run' : Run)
      → Turn order no_rules raw run run'
      → AreFree run
      → AreFree run'
  Turn-AreFree raw run run' (skip x) f = f
  Turn-AreFree raw run run' (drop_it s flow x v c) f =
      let e : true ≡ false = sym c ∙ free_verdict s raw flow run f v in cc
  Turn-AreFree raw run run' (forward s flow x v c) f = (λ t. put-free t s flow run f c, f.1)

  -- Without rules no packet is dropped: every packet of a flow is written.
  pub Steps-no_rules :
      (head : List ℕ) (run' : Run) (raws : List RawPacket)
      → Steps order no_rules (start_run head) raws run'
      → (s : IsSorted order (start_run head) raws run') × (s.left ≡ 0)
  unfolding flow_of
  Steps-no_rules head run' raws steps =
      let (f, s, _) =
        Steps-follow order no_rules AreFree (λ r. Unit) Turn-AreFree (λ raw r t g i x v c. tt)
          (start_run head) run' raws (λ t. refl, refl) steps in
      let d = s.dropped in let z = f.1 in (s, omega (arith, d, z))
