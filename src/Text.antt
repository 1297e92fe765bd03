-- ===== src/Text.antt =====
-- The operations on strings that dpi/types.py and dpi/rule_manager.py use. A string is its list of
-- code points. The strings of the program are names taken from packets and rules; `lower` is that
-- of Python on the code points of Latin-1, which are all that these names hold.
pub mod Laws
use python_deep_packet_inspe.Prelude.{
  ℕ, ◌+◌, Bool, true, false, not, ◌&&◌, ◌||◌, List, [], ◌∷◌, ◌++◌, leb, ◌==◌, if◌then◌else◌,
}
use Prim.Native.Nat.{ℕ}

abbrev pub dot : ℕ
dot = 46

-- `s == t`.
unfoldable pub same : List ℕ → List ℕ → Bool
same [] [] = true
same [] (d ∷ t) = false
same (c ∷ s) [] = false
same (c ∷ s) (d ∷ t) = c == d && same s t

-- `t.startswith(s)`.
unfoldable pub is_prefix : List ℕ → List ℕ → Bool
is_prefix [] t = true
is_prefix (c ∷ s) [] = false
is_prefix (c ∷ s) (d ∷ t) = c == d && is_prefix s t

-- `s in t`.
unfoldable pub is_infix : List ℕ → List ℕ → Bool
unfolding is_prefix
is_infix s [] = is_prefix s []
is_infix s (d ∷ t) = is_prefix s (d ∷ t) || is_infix s t

-- `t.endswith(s)`.
unfoldable pub is_suffix : List ℕ → List ℕ → Bool
unfolding same
is_suffix s [] = same s []
is_suffix s (d ∷ t) = same s (d ∷ t) || is_suffix s t

-- `c + s[0]` as the first part of a split.
abbrev pub grow : ℕ → List (List ℕ) → List (List ℕ)
grow c [] = (c ∷ []) ∷ []
grow c (part ∷ parts) = (c ∷ part) ∷ parts

-- `s.split(sep)`.
unfoldable pub split : ℕ → List ℕ → List (List ℕ)
split sep [] = [] ∷ []
split sep (c ∷ s) = let parts = split sep s in if c == sep then [] ∷ parts else grow c parts

-- `sep.join(parts)`.
unfoldable pub join : ℕ → List (List ℕ) → List ℕ
join sep [] = []
join sep (part ∷ []) = part
join sep (part ∷ next ∷ parts) = part ++ sep ∷ join sep (next ∷ parts)

-- `s in parts`.
unfoldable pub is_part : List ℕ → List (List ℕ) → Bool
unfolding same
is_part s [] = false
is_part s (part ∷ parts) = same s part || is_part s parts

-- `any(part.startswith(s) for part in parts)`.
unfoldable pub starts_part : List ℕ → List (List ℕ) → Bool
unfolding is_prefix
starts_part s [] = false
starts_part s (part ∷ parts) = is_prefix s part || starts_part s parts

abbrev pub is_upper : ℕ → Bool
is_upper c = leb 65 c && leb c 90 || (leb 192 c && leb c 222 && not (c == 215))

abbrev pub lower_char : ℕ → ℕ
lower_char c = if is_upper c then c + 32 else c

-- `s.lower()`.
unfoldable pub lower : List ℕ → List ℕ
lower [] = []
lower (c ∷ s) = lower_char c ∷ lower s
