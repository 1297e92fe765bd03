-- ===== src/Redaction/Labels.antt =====
-- The pseudonyms of ai/redaction.py: one for each address, and no two addresses share one.
use python_deep_packet_inspe.Prelude.{
  ℕ, ◌^◌, ◌<◌, ◌≡◌, ◌↔◌, refl, sym, ap, ◌∙◌, subst, true, some, List, [], ◌∷◌,
}
use python_deep_packet_inspe.Tracker.Keys.{some_inj}
use python_deep_packet_inspe.Rules.{ip_to_string, parse_ip}
use python_deep_packet_inspe.Rules.Address.{parse_ip-ip_to_string}
use python_deep_packet_inspe.Redaction.{
  HostPseudonymiser, new_pseudonymiser, get_label, label_for, redact_ip, redact_private,
  AddressKinds, is_internal,
}
use python_deep_packet_inspe.Redaction.Table.{
  IsNumbered, get_label-injective, get_label-append, label_for-IsLabelled,
}

-- The state after calls for a list of addresses.
unfoldable pub after : List (List ℕ) → HostPseudonymiser → HostPseudonymiser
unfolding label_for
after [] p = p
after (address ∷ addresses) p = after addresses (label_for address p).0

after-IsNumbered :
    (addresses : List (List ℕ)) (p : HostPseudonymiser)
    → IsNumbered p
    → IsNumbered (after addresses p)
unfolding after
after-IsNumbered [] p n = n
after-IsNumbered (a ∷ addresses) p n =
    after-IsNumbered addresses (label_for a p).0 (label_for-IsLabelled a p n).numbered

after-kept :
    (a label : List ℕ) (addresses : List (List ℕ)) (p : HostPseudonymiser)
    → IsNumbered p
    → get_label a p.labels ≡ some label
    → get_label a (after addresses p).labels ≡ some label
unfolding after
after-kept a label [] p n h = h
after-kept a label (b ∷ addresses) p n h =
    let r = label_for-IsLabelled b p n in
    let k = r.kept in
    after-kept a label addresses (label_for b p).0 r.numbered
      (ap (get_label a) k ∙ get_label-append a label p.labels r.more h)

-- After any calls, a later call, with any others between, gives the label of an earlier one exactly
-- when it is for the same address.
pub label_for-injective :
    (history between : List (List ℕ)) (a b : List ℕ)
    → ((label_for b (after between (label_for a (after history new_pseudonymiser)).0)).1
        ≡ (label_for a (after history new_pseudonymiser)).1)
      ↔ (b ≡ a)
label_for-injective history between a b =
    let p = after history new_pseudonymiser in
    let n = after-IsNumbered history new_pseudonymiser (tt, refl) in
    let r = label_for-IsLabelled a p n in
    let p' = after between (label_for a p).0 in
    let n' = after-IsNumbered between (label_for a p).0 r.numbered in
    let h = after-kept a (label_for a p).1 between (label_for a p).0 r.numbered r.found in
    let s = label_for-IsLabelled b p' n' in
    let k = s.kept in
    let h' = ap (get_label a) k ∙ get_label-append a (label_for a p).1 p'.labels s.more h in
    (
      λ e.
          get_label-injective b a (label_for a p).1 (label_for b p').0.labels s.numbered.0
            (s.found ∙ ap some e) h',
      λ e.
          let f : get_label a (label_for b p').0.labels ≡ some (label_for b p').1 =
            subst (λ x. get_label x (label_for b p').0.labels ≡ some (label_for b p').1) e
              s.found in
          some_inj _ _ (sym f ∙ h'),
    )

redact_ip_lem :
    (kinds : AddressKinds) (u : ℕ) (p : HostPseudonymiser)
    → is_internal kinds u ≡ true
    → redact_ip kinds u redact_private p
      ≡ ((label_for (ip_to_string u) p).0, some (label_for (ip_to_string u) p).1)
unfolding redact_ip
redact_ip_lem kinds u p h = rw h refl

-- Under the mode for private addresses, and after any labels were given, two internal addresses of
-- 32 bits are sent as one text, with any labels given between them, exactly when they are the same.
pub redact_ip-injective :
    (kinds : AddressKinds) (history between : List (List ℕ)) (u v : ℕ)
    → u < 2 ^ 32
    → v < 2 ^ 32
    → is_internal kinds u ≡ true
    → is_internal kinds v ≡ true
    → ((redact_ip kinds v redact_private
          (after between (redact_ip kinds u redact_private (after history new_pseudonymiser)).0)).1
        ≡ (redact_ip kinds u redact_private (after history new_pseudonymiser)).1)
      ↔ (v ≡ u)
redact_ip-injective kinds history between u v hu hv iu iv =
    let p = after history new_pseudonymiser in
    let q = label_for-injective history between (ip_to_string u) (ip_to_string v) in
    let eu = redact_ip_lem kinds u p iu in
    let ev = redact_ip_lem kinds v (after between (label_for (ip_to_string u) p).0) iv in
    rw (eu, ev)
      (
        λ e.
            sym (parse_ip-ip_to_string v hv)
            ∙ ap parse_ip (q.0 (some_inj _ _ e))
            ∙ parse_ip-ip_to_string u hu,
        λ e. ap some (q.1 (ap ip_to_string e)),
      )
