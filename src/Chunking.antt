-- ===== src/Chunking.antt =====
-- The splitting of a section of ai/rag/chunking.py into chunks. A string is its list of code points;
-- what `str.strip` takes for white space is a parameter. The regular expressions are those of the
-- module `re` of the standard library: where their matches end is a parameter. `min_fill_chars` is a
-- field, since the ratio that it comes of is a floating point number.
pub mod Cuts
pub mod Overlap
pub mod Pieces
pub mod Split
use python_deep_packet_inspe.Prelude.{
  ℕ, zero, suc, ◌+◌, ◌-◌, ◌*◌, ◌/◌, min, max, ◌&&◌, Option, none, some, List, [], ◌∷◌, ◌++◌, length,
  take, drop, ltb, leb, ◌==◌, if◌then◌else◌, Py, ok, raise, value_error, out_of_fuel, Bool,
}
use python_deep_packet_inspe.Redaction.{strip}

abbrev pub Text : Type 0
Text = List ℕ

-- Where the matches of a pattern in a text end, in order: of `_PARAGRAPH_BREAK`, of `_SENTENCE_END` and
-- of `_WHITESPACE_RUN`. Of `_LIST_ITEM_START` it is where they start. `is_space` is the white space of
-- `str.strip`.
pub record Patterns : Type 0 where
  pub paragraph_ends : Text → List ℕ
  pub list_item_starts : Text → List ℕ
  pub sentence_ends : Text → List ℕ
  pub space_ends : Text → List ℕ
  pub is_space : ℕ → Bool

pub record ChunkConfig : Type 0 where
  pub max_chars : ℕ
  pub overlap_chars : ℕ
  pub min_fill_chars : ℕ

-- `__post_init__`, but for the test of the ratio.
unfoldable pub check_config : ChunkConfig → Py ChunkConfig
check_config config =
    if ltb config.max_chars 200
    then raise value_error
    else if leb config.max_chars (config.overlap_chars * 2)
    then raise value_error
    else ok config

abbrev pub paragraph : ℕ
paragraph = 1

abbrev pub list_item : ℕ
list_item = 2

abbrev pub sentence : ℕ
sentence = 3

-- A dictionary of offsets and their ranks.
abbrev pub Boundaries : Type 0
Boundaries = List (ℕ × ℕ)

-- `found[offset] = min(rank, found.get(offset, rank))`.
unfoldable pub put_rank : ℕ → ℕ → Boundaries → Boundaries
put_rank offset rank [] = (offset, rank) ∷ []
put_rank offset rank ((other, r) ∷ found) =
    if offset == other then (other, min rank r) ∷ found else (other, r) ∷ put_rank offset rank found

-- `record` for each match of a pattern.
unfoldable pub record_all : ℕ → ℕ → List ℕ → Boundaries → Boundaries
unfolding put_rank
record_all size rank [] found = found
record_all size rank (offset ∷ offsets) found =
    record_all size rank offsets
      (if ltb 0 offset && ltb offset size then put_rank offset rank found else found)

unfoldable pub boundaries_of : Patterns → Text → Boundaries
unfolding record_all
boundaries_of patterns text = record_all (length text) sentence (patterns.sentence_ends text) (
    record_all (length text) list_item (patterns.list_item_starts text)
      (record_all (length text) paragraph (patterns.paragraph_ends text) []))

-- The boundaries in `(start, limit]`.
unfoldable pub in_window : ℕ → ℕ → Boundaries → Boundaries
in_window start limit [] = []
in_window start limit ((offset, rank) ∷ found) =
    let rest = in_window start limit found in
    if ltb start offset && leb offset limit then (offset, rank) ∷ rest else rest

-- The largest offset of a rank that fills the chunk up to `least`.
unfoldable pub largest : ℕ → ℕ → Boundaries → Option ℕ
largest rank least [] = none
largest rank least ((offset, r) ∷ found) =
    let rest = largest rank least found in
    if r == rank && leb least offset
    then (elim rest [ none ↦ some offset | some best ↦ some (max offset best) ])
    else rest

-- `min(rank for _, rank in in_window)`, for a window with a boundary.
unfoldable pub best_rank : ℕ → Boundaries → ℕ
best_rank rank [] = rank
best_rank rank ((offset, r) ∷ found) = best_rank (min rank r) found

-- The cut of `_best_cut`; its rank is not used.
unfoldable pub best_cut : Boundaries → ℕ → ℕ → ℕ → Option ℕ
unfolding in_window largest best_rank
best_cut boundaries start limit min_fill =
    let window = in_window start limit boundaries in
    elim (largest paragraph (start + min_fill) window) [
      | some cut ↦ some cut
      | none ↦ elim (largest list_item (start + min_fill) window) [
        | some cut ↦ some cut
        | none ↦ elim (largest sentence (start + min_fill) window) [
          | some cut ↦ some cut
          | none ↦ elim window [
            | [] ↦ none
            | (offset, rank) ∷ rest ↦ largest (best_rank rank rest) 0 ((offset, rank) ∷ rest)
          ]
        ]
      ]
    ]

-- The last element of a list.
unfoldable pub last_of {ℓ} : {A : Type ℓ} → List A → Option A
last_of [] = none
last_of (x ∷ []) = some x
last_of (x ∷ y ∷ xs) = last_of (y ∷ xs)

unfoldable pub hard_cut : Patterns → Text → ℕ → ℕ → ℕ
unfolding last_of
hard_cut patterns text start limit =
    elim (last_of (patterns.space_ends (take (limit - start) (drop start text)))) [
      | none ↦ limit
      | some end ↦ if ltb 0 end then start + end else limit
    ]

-- The least number of a list that is `floor` at least.
unfoldable pub least_from : ℕ → List ℕ → Option ℕ
least_from floor [] = none
least_from floor (n ∷ ns) =
    let rest = least_from floor ns in
    if leb floor n then (elim rest [ none ↦ some n | some best ↦ some (min n best) ]) else rest

-- The end of the first match.
unfoldable pub first_of : List ℕ → ℕ
first_of [] = 0
first_of (n ∷ ns) = n

unfoldable pub overlap_tail : Patterns → Text → ℕ → Text
unfolding least_from first_of strip
overlap_tail patterns previous budget =
    let allowance = min budget (length previous / 2) in
    let floor = length previous - allowance in
    let window = drop floor previous in
    if allowance == 0 then [] else elim (least_from floor (patterns.sentence_ends previous)) [
      | some end ↦ strip patterns.is_space (drop end previous)
      | none ↦ strip patterns.is_space (drop (first_of (patterns.space_ends window)) window)
    ]

-- A chunk of a section: its text, and how many of its characters repeat the chunk before it.
abbrev pub Piece : Type 0
Piece = Text × ℕ

abbrev pub overlap_separator : Text
overlap_separator = 10 ∷ 10 ∷ []

-- What is put before the next chunk, after the pieces so far.
unfoldable pub prefix_for : Patterns → ChunkConfig → List Piece → Text
unfolding last_of overlap_tail
prefix_for patterns config pieces = elim (last_of pieces) [
  | none ↦ []
  | some (previous, overlap) ↦
      let tail = overlap_tail patterns previous config.overlap_chars in
      if length tail == 0 then [] else tail ++ overlap_separator
]

-- Where the chunk that begins at `start` ends, for what is left of the budget.
unfoldable pub cut_of : Option ℕ → ℕ → ℕ
cut_of none hard = hard
cut_of (some cut) hard = cut

unfoldable pub end_of : Patterns → ChunkConfig → Text → ℕ → ℕ → ℕ
unfolding best_cut hard_cut boundaries_of cut_of
end_of patterns config body start budget =
    let limit = start + budget in
    let end =
      cut_of (best_cut (boundaries_of patterns body) start limit config.min_fill_chars)
        (hard_cut patterns body start limit) in
    if leb (length body - start) budget then length body else if leb end start then limit else end

unfoldable pub add_piece : Text → Text → List Piece → List Piece
add_piece prefix piece pieces =
    if length piece == 0
    then pieces
    else if length prefix == 0
    then pieces ++ (piece, 0) ∷ []
    else pieces ++ (prefix ++ piece, length prefix - 2) ∷ []

-- The loop of `_split_section`, on fuel: every round moves `start` on.
unfoldable pub split_loop : ℕ → Patterns → ChunkConfig → Text → ℕ → List Piece → Py (List Piece)
unfolding prefix_for end_of add_piece
split_loop zero patterns config body start pieces = raise out_of_fuel
split_loop (suc fuel) patterns config body start pieces =
    let prefix = prefix_for patterns config pieces in
    let end = end_of patterns config body start (config.max_chars - length prefix) in
    let piece = strip patterns.is_space (take (end - start) (drop start body)) in
    let rest = split_loop fuel patterns config body end (add_piece prefix piece pieces) in
    if ltb start (length body) then rest else ok pieces

unfoldable pub split_section : Patterns → ChunkConfig → Text → Py (List Piece)
unfolding split_loop strip
split_section patterns config text =
    let body = strip patterns.is_space text in
    if leb (length body) config.max_chars
    then ok ((body, 0) ∷ [])
    else split_loop (suc (length body)) patterns config body 0 []

-- `KnowledgeChunk.body`.
unfoldable pub body_of : Piece → Text
body_of (text, overlap) = if overlap == 0 then text else drop (overlap + 2) text
