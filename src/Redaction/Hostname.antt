-- ===== src/Redaction/Hostname.antt =====
-- What `sanitize_hostname` of ai/redaction.py lets through.
use python_deep_packet_inspe.Prelude.{
  leb, ◌&&◌, ◌||◌, sym, ◌↔◌, subst, ℕ, zero, suc, ◌≤◌, ◌<◌, ◌≡◌, refl, ap, ◌∙◌, Bool, true, false,
  Option, none, some, List, [], ◌∷◌, arith, length, take, All, length-take, ◌==◌, if◌then◌else◌,
  on_branches,
}
use python_deep_packet_inspe.Prelude.Strings.{codes}
use python_deep_packet_inspe.Tracker.Keys.{some_inj}
use python_deep_packet_inspe.Redaction.{
  Unicode, is_separator, is_allowed, strip, keep_allowed, redacted_hostname, sanitize_hostname,
}
use python_deep_packet_inspe.Redaction.Strip.{
  StartsOutside, EndsOutside, length-strip, strip-StartsOutside, strip-EndsOutside, strip_same,
  strip-All,
}
use python_deep_packet_inspe.Redaction.Ascii.{
  is_plain, count_ascii, all_plain, IsPython, length-keep_allowed, count-strip,
}

-- A name that is safe to send.
pub record IsSafeName (name : List ℕ) : Type 0 where
  pub allowed : All (λ c. is_allowed c ≡ true) name
  pub longest : length name ≤ 253
  pub present : 0 < length name
  pub starts : StartsOutside is_separator name
  pub ends : EndsOutside is_separator name

keep_allowed-All : (s : List ℕ) → All (λ c. is_allowed c ≡ true) (keep_allowed s)
unfolding keep_allowed
keep_allowed-All [] = tt
keep_allowed-All (c ∷ s) = by_char (is_allowed c) refl (keep_allowed-All s)
  where
    by_char :
        (b : Bool)
        → is_allowed c ≡ b
        → All (λ d. is_allowed d ≡ true) (keep_allowed s)
        → All (λ d. is_allowed d ≡ true) (if b then c ∷ keep_allowed s else keep_allowed s)
    by_char true e h = (e, h)
    by_char false e h = h

keep_allowed_same : (s : List ℕ) → All (λ c. is_allowed c ≡ true) s → keep_allowed s ≡ s
unfolding keep_allowed
keep_allowed_same [] h = refl
keep_allowed_same (c ∷ s) h = let a = h.0 in rw a (ap (◌∷◌ c) (keep_allowed_same s h.1))

-- What comes of a name: nothing, the marker for a name of which nothing is left, or a safe name.
pub data IsSanitized : Option (List ℕ) → Type 0 where
  no_name : IsSanitized none
  marked : IsSanitized (some redacted_hostname)
  safe : (name : List ℕ) → IsSafeName name → IsSanitized (some name)

cleaned-IsSafeName :
    (lowered : List ℕ)
    → count_ascii lowered ≤ 253
    → (length (strip is_separator (keep_allowed lowered)) == 0) ≡ false
    → IsSafeName (strip is_separator (keep_allowed lowered))
cleaned-IsSafeName lowered l n =
    let k = keep_allowed lowered in
    record {
      allowed = strip-All is_separator (λ c. is_allowed c ≡ true) k (keep_allowed-All lowered);
      longest = omega (arith, length-strip is_separator k, length-keep_allowed lowered, l);
      present = ground (arith, n);
      starts = strip-StartsOutside is_separator k;
      ends = strip-EndsOutside is_separator k;
    }

module _ (unicode : Unicode) (python : IsPython unicode) where
  -- What comes of a name is one of these.
  sanitize_hostname-IsSanitized :
      (name : Option (List ℕ)) → IsSanitized (sanitize_hostname unicode name)
  unfolding sanitize_hostname
  sanitize_hostname-IsSanitized none = no_name
  sanitize_hostname-IsSanitized (some name) =
      let lower = unicode.lower_case (take 253 name) in
      let lowered = strip unicode.is_space lower in
      let l : count_ascii lowered ≤ 253 = omega (
        arith,
        count-strip unicode.is_space lower,
        python.narrow (take 253 name),
        length-take 253 name,
      ) in
      on_branches IsSanitized (length lowered == 0) no_name
        (by_length lowered l (length (strip is_separator (keep_allowed lowered)) == 0) refl)
    where
      by_length :
          (lowered : List ℕ)
          → count_ascii lowered ≤ 253
          → (b : Bool) → (length (strip is_separator (keep_allowed lowered)) == 0) ≡ b
          → IsSanitized (
              if b
              then some redacted_hostname
              else some (strip is_separator (keep_allowed lowered)))
      by_length lowered l true e = marked
      by_length lowered l false e = safe _ (cleaned-IsSafeName lowered l e)

take_short : (n : ℕ) (s : List ℕ) → length s ≤ n → take n s ≡ s
take_short zero [] h = refl
take_short zero (c ∷ s) h = absurd (omega arith)
take_short (suc n) [] h = refl
take_short (suc n) (c ∷ s) h = ap (◌∷◌ c) (take_short n s (omega arith))

allowed_char : (c : ℕ) → is_allowed c ≡ true → is_plain c ≡ true
unfolding is_allowed is_separator
allowed_char c h = ground (arith, h)

allowed_text : (s : List ℕ) → All (λ c. is_allowed c ≡ true) s → all_plain s ≡ true
allowed_text [] h = refl
allowed_text (c ∷ s) h = rw (allowed_char c h.0) (allowed_text s h.1)

not_zero : (n : ℕ) → 0 < n → (n == 0) ≡ false
not_zero n h = ground (arith, h)

unspaced_ascii :
    (c : ℕ) → is_allowed c ≡ true → (leb 9 c && leb c 13 || leb 28 c && leb c 32) ≡ false
unfolding is_allowed is_separator
unspaced_ascii c h = ground (arith, h)

module _ (unicode : Unicode) (python : IsPython unicode) where
  unspaced : (c : ℕ) → is_allowed c ≡ true → unicode.is_space c ≡ false
  unspaced c h = python.plain_space c (allowed_char c h) ∙ unspaced_ascii c h

  starts_unspaced :
      (s : List ℕ) → All (λ c. is_allowed c ≡ true) s → StartsOutside unicode.is_space s
  starts_unspaced [] h = tt
  starts_unspaced (c ∷ s) h = unspaced c h.0

  ends_unspaced : (s : List ℕ) → All (λ c. is_allowed c ≡ true) s → EndsOutside unicode.is_space s
  ends_unspaced [] h = tt
  ends_unspaced (c ∷ []) h = unspaced c h.0
  ends_unspaced (c ∷ d ∷ s) h = ends_unspaced (d ∷ s) h.1

  -- What is left of a short text of ASCII without capitals and without spaces at its ends.
  lowered_same :
      (s : List ℕ)
      → length s ≤ 253
      → all_plain s ≡ true
      → StartsOutside unicode.is_space s
      → EndsOutside unicode.is_space s
      → strip unicode.is_space (unicode.lower_case (take 253 s)) ≡ s
  lowered_same s l p a b =
      ap (λ t. strip unicode.is_space (unicode.lower_case t)) (take_short 253 s l)
      ∙ ap (strip unicode.is_space) (python.plain_lower s p)
      ∙ strip_same unicode.is_space s a b

  -- A safe name goes through unchanged.
  sanitize_hostname-same :
      (name : List ℕ) → IsSafeName name → sanitize_hostname unicode (some name) ≡ some name
  unfolding sanitize_hostname
  sanitize_hostname-same name i =
      let a = i.allowed in
      let n = i.present in
      let same =
        lowered_same name i.longest (allowed_text name a) (starts_unspaced name a)
          (ends_unspaced name a) in
      let clean : strip is_separator (keep_allowed name) ≡ name =
        ap (strip is_separator) (keep_allowed_same name a)
        ∙ strip_same is_separator name i.starts i.ends in
      let z = not_zero (length name) n in rw same (rw z (rw clean (rw z refl)))

  sanitize-marker :
      sanitize_hostname unicode (some redacted_hostname) ≡ some (codes "invalid-hostname")
  unfolding sanitize_hostname keep_allowed
  sanitize-marker =
      let same =
        lowered_same redacted_hostname (omega arith) refl (python.plain_space b'<' refl)
          (python.plain_space b'>' refl) in
      rw same refl

  -- The marker itself is not kept, so that what is kept is safe.
  kept-IsSafeName :
      (result : Option (List ℕ)) (name : List ℕ)
      → IsSanitized result
      → result ≡ some name
      → sanitize_hostname unicode result ≡ result
      → IsSafeName name
  kept-IsSafeName result name no_name e k = cc
  kept-IsSafeName result name marked e k =
      let other : codes "invalid-hostname" ≡ redacted_hostname =
        some_inj _ _ (sym sanitize-marker ∙ k) in
      let sizes : length (codes "invalid-hostname") ≡ length redacted_hostname = ap length other in
      absurd (omega (arith, sizes))
  kept-IsSafeName result name (safe n i) e k = subst IsSafeName (some_inj n name e) i

  -- For the strings of Python, of every name, whatever characters it holds, comes nothing, the
  -- marker, or a name of 1 to 253 lower case letters of ASCII, digits, dots, hyphens and underscores
  -- that begins and ends with a letter or a digit; and the names that come back unchanged are
  -- exactly those.
  pub sanitize_hostname-same_iff :
      (name : List ℕ)
      → IsSanitized (sanitize_hostname unicode (some name))
        × ((sanitize_hostname unicode (some name) ≡ some name) ↔ IsSafeName name)
  sanitize_hostname-same_iff name =
      let clean = sanitize_hostname-IsSanitized unicode python (some name) in
      (
        clean,
        (
          (λ e.
              kept-IsSafeName (sanitize_hostname unicode (some name)) name clean e
                (ap (sanitize_hostname unicode) e)),
          sanitize_hostname-same name,
        ),
      )
