-- ===== src/Rules/File/Lines.antt =====
-- The lines of a rules file that `save_rules` of dpi/rule_manager.py wrote.
use python_deep_packet_inspe.Prelude.{
  Bool, true, if◌then◌else◌, ℕ, ◌||◌, false, List, [], ◌∷◌, ◌++◌, ◌≡◌, refl, arith, ◌==◌, All, ap,
  ◌∙◌,
}
use python_deep_packet_inspe.Sni.{Name}
use python_deep_packet_inspe.Rules.File.{write_lines, translate, read_lines}

-- A line without a character that ends lines.
abbrev pub Plain : Name → Type 0
Plain line = All (λ c. (c == b'\n' || c == b'\r') ≡ false) line

translate_lem :
    (line text : List ℕ)
    → Plain line
    → translate false (line ++ b'\n' ∷ text) ≡ line ++ b'\n' ∷ translate false text
unfolding translate
translate_lem [] text h = refl
translate_lem (c ∷ line) text h = ground (arith, h, translate_lem line text h.1)

read_lines_lem :
    (line text : List ℕ) → Plain line → read_lines (line ++ b'\n' ∷ text) ≡ line ∷ read_lines text
unfolding read_lines
read_lines_lem [] text h = refl
read_lines_lem (c ∷ line) text h = ground (arith, h, read_lines_lem line text h.1)

pub translate-write_lines :
    (lines : List Name) → All Plain lines → translate false (write_lines lines) ≡ write_lines lines
unfolding write_lines translate
translate-write_lines [] h = refl
translate-write_lines (line ∷ lines) (p, h) =
    translate_lem line (write_lines lines) p
    ∙ ap (λ text. line ++ b'\n' ∷ text) (translate-write_lines lines h)

-- Lines that were written are read back.
pub read_lines-write_lines :
    (lines : List Name) → All Plain lines → read_lines (write_lines lines) ≡ lines
unfolding write_lines read_lines
read_lines-write_lines [] h = refl
read_lines-write_lines (line ∷ lines) (p, h) =
    read_lines_lem line (write_lines lines) p ∙ ap (◌∷◌ line) (read_lines-write_lines lines h)

abbrev pub plain : Name → Bool
plain [] = true
plain (c ∷ line) = if c == b'\n' || c == b'\r' then false else plain line

pub plain-Plain : (line : Name) → plain line ≡ true → Plain line
plain-Plain [] h = tt
plain-Plain (c ∷ line) h =
    let e : (c == b'\n' || c == b'\r') ≡ false = ground (arith, h) in
    (e, plain-Plain line (ground (arith, h)))
