-- ===== src/Apps/Spec.antt =====
-- What `sni_to_app_type` of dpi/types.py answers.
use python_deep_packet_inspe.Prelude.{
  sym, subst, ℕ, ◌≡◌, refl, ap, ◌≢◌, ◌↔◌, ◌⊎◌, inl, inr, Bool, true, false, not, ◌&&◌, ◌||◌, List,
  [], ◌∷◌, ◌++◌, arith, if◌then◌else◌, All,
}
use python_deep_packet_inspe.Text.{dot, lower, is_suffix, same}
use python_deep_packet_inspe.Text.Laws.{
  lower-lower, same→eq, same_refl, is_suffix→append, is_suffix-append,
}
use python_deep_packet_inspe.Apps.{
  AppType, unknown, https, app_code, same_app, MatchMode, dom, pattern_matches, Group, matches_any,
  first_match, sni_patterns, sni_to_app_type,
}

-- No pattern of any of the groups matches the host.
abbrev pub NoneMatch : List ℕ → List Group → Type 0
NoneMatch host groups = All (λ group. matches_any host (group.1) ≡ false) groups

-- `app_type` belongs to the first of the groups that has a matching pattern.
pub record IsFirst (host : List ℕ) (groups : List Group) (app_type : AppType) : Type 0 where
  pub before : List Group
  pub patterns : List (List ℕ × MatchMode)
  pub after : List Group
  pub listed : groups ≡ before ++ (app_type, patterns) ∷ after
  pub earlier : NoneMatch host before
  pub matching : matches_any host patterns ≡ true

first_match_lem :
    (host : List ℕ) (groups : List Group)
    → IsFirst host groups (first_match host groups)
      ⊎ ((first_match host groups ≡ https) × NoneMatch host groups)
unfolding first_match
first_match_lem host [] = inr (refl, tt)
first_match_lem host ((app_type, patterns) ∷ groups) =
    by_match (matches_any host patterns) refl (first_match_lem host groups)
  where
    by_match :
        (b : Bool)
        → matches_any host patterns ≡ b
        → IsFirst host groups (first_match host groups)
          ⊎ ((first_match host groups ≡ https) × NoneMatch host groups)
        → IsFirst host
            ((app_type, patterns) ∷ groups)
            (if b then app_type else first_match host groups)
          ⊎ (((if b then app_type else first_match host groups) ≡ https)
              × NoneMatch host ((app_type, patterns) ∷ groups))
    by_match true e rest = inl (record {
      before = [];
      patterns = patterns;
      after = groups;
      listed = refl;
      earlier = tt;
      matching = e;
    })
    by_match false e rest = elim rest [
      | inl first ↦ inl (record {
        before = (app_type, patterns) ∷ first.before;
        patterns = first.patterns;
        after = first.after;
        listed = ap (λ l. (app_type, patterns) ∷ l) first.listed;
        earlier = (e, first.earlier);
        matching = first.matching;
      })
      | inr (e', none_match) ↦ inr (e', (e, none_match))
    ]

-- The class of a name, by the table.
pub data IsClass : List ℕ → AppType → Type 0 where
  unnamed : IsClass [] unknown
  first :
      {sni : List ℕ} {app_type : AppType}
      → sni ≢ []
      → IsFirst (lower sni) sni_patterns app_type
      → IsClass sni app_type
  unmatched : {sni : List ℕ} → sni ≢ [] → NoneMatch (lower sni) sni_patterns → IsClass sni https

-- For names of Latin-1, as the extractors decode them: the empty name is UNKNOWN. Another is
-- classified by the first group of the table that has a pattern matching its lower case, and as
-- HTTPS when no pattern of the table matches.
pub sni_to_app_type-IsClass : (sni : List ℕ) → IsClass sni (sni_to_app_type sni)
unfolding sni_to_app_type
sni_to_app_type-IsClass [] = unnamed
sni_to_app_type-IsClass (c ∷ sni) = elim (first_match_lem (lower (c ∷ sni)) sni_patterns) [
  | inl f ↦ first (λ h. cc) f
  | inr (e, n) ↦ subst (IsClass (c ∷ sni)) (sym e) (unmatched (λ h. cc) n)
]

none_unknown : List Group → Bool
none_unknown [] = true
none_unknown ((app_type, patterns) ∷ groups) =
    not (same_app app_type unknown) && none_unknown groups

first_match-known :
    (host : List ℕ) (groups : List Group)
    → none_unknown groups ≡ true
    → same_app (first_match host groups) unknown ≡ false
unfolding first_match same_app app_code none_unknown
first_match-known host [] known = refl
first_match-known host ((app_type, patterns) ∷ groups) known =
    ground (arith, first_match-known host groups)

known_lem : (c : ℕ) (sni : List ℕ) → same_app (sni_to_app_type (c ∷ sni)) unknown ≡ false
unfolding sni_to_app_type same_app app_code none_unknown
known_lem c sni = first_match-known (lower (c ∷ sni)) sni_patterns refl

known : (c : ℕ) (sni : List ℕ) → sni_to_app_type (c ∷ sni) ≢ unknown
unfolding same_app app_code
known c sni h =
    not_both (same_app (sni_to_app_type (c ∷ sni)) unknown) (ap (λ a. same_app a unknown) h)
      (known_lem c sni)
  where
    not_both : (b : Bool) → b ≡ true → ¬ (b ≡ false)
    not_both true h h' = cc
    not_both false h h' = cc

-- The class is UNKNOWN for the empty name and for no other, and folding the case of a name keeps
-- its class.
pub sni_to_app_type-lower :
    (sni : List ℕ)
    → ((sni_to_app_type sni ≡ unknown) ↔ (sni ≡ []))
      × (sni_to_app_type (lower sni) ≡ sni_to_app_type sni)
unfolding sni_to_app_type lower
sni_to_app_type-lower [] = ((λ h. refl, λ h. refl), refl)
sni_to_app_type-lower (c ∷ sni) = (
  (λ h. elim (known c sni h) [ ], λ h. cc),
  ap (λ host. first_match host sni_patterns) (lower-lower (c ∷ sni)),
)

-- A pattern in domain mode matches the name itself and the names that end with a dot and it, and
-- nothing else: it never matches in the middle of a label.
pub pattern_matches-dom :
    (host pattern : List ℕ)
    → (pattern_matches host pattern dom ≡ true)
      ↔ ((host ≡ pattern) ⊎ ((pre : List ℕ) × (host ≡ pre ++ dot ∷ pattern)))
unfolding pattern_matches
pattern_matches-dom host pattern = (matched (same host pattern) refl, anchored)
  where
    matched :
        (b : Bool)
        → same host pattern ≡ b
        → (b || is_suffix (dot ∷ pattern) host) ≡ true
        → (host ≡ pattern) ⊎ ((pre : List ℕ) × (host ≡ pre ++ dot ∷ pattern))
    matched true e h = inl (same→eq host pattern e)
    matched false e h = inr (is_suffix→append (dot ∷ pattern) host h)

    anchored :
        (host ≡ pattern) ⊎ ((pre : List ℕ) × (host ≡ pre ++ dot ∷ pattern))
        → (same host pattern || is_suffix (dot ∷ pattern) host) ≡ true
    anchored (inl e) = ground (arith, e, same_refl pattern)
    anchored (inr (pre, e)) = ground (arith, e, is_suffix-append pre (dot ∷ pattern))
