-- ===== src/Upgrade/Suppress/Lines.antt =====
-- The lines of a file and the tests on them (tools/upgrade/errors.py).
use pyre_check.Base.{
  [], ◌∷◌, ◌++◌, List, false, Bool, if◌then◌else◌, eqb, ℕ, ◌-◌, ◌&&◌, ◌||◌, not, any, length,
}
use pyre_check.Texts.{
  starts_with, Bytes, codes, is_empty, strip_left, strip_right, same_bytes, ends_with,
}
use pyre_check.Upgrade.{FixmeError}
use pyre_check.Upgrade.Ignores.{cut_at}

-- The errors of a line, by its number; a line that is missing has none.

unfoldable pub errors_at : ℕ → List (ℕ × List FixmeError) → List FixmeError
errors_at number [] = []
errors_at number (entry ∷ entries) =
    let later = errors_at number entries in if eqb entry.0 number then entry.1 else later

abbrev pub has_code : Bytes → List FixmeError → Bool
has_code c errors = any (λ (e : FixmeError). same_bytes e.code c) errors

-- `text.split("\\n")`, behind a part of a line.
unfoldable pub lines_behind : Bytes → Bytes → List Bytes
lines_behind line [] = line ∷ []
lines_behind line (c ∷ cs) =
    let ended = lines_behind [] cs in
    let longer = lines_behind (line ++ (c ∷ [])) cs in if eqb c 10 then line ∷ ended else longer

-- `"\\n".join(lines)`
unfoldable pub join_lines : List Bytes → Bytes
join_lines [] = []
join_lines (line ∷ []) = line
join_lines (line ∷ next ∷ lines) = line ++ (10 ∷ join_lines (next ∷ lines))

-- `text.lstrip(" ")`
unfoldable pub strip_spaces : Bytes → Bytes
strip_spaces [] = []
strip_spaces (c ∷ cs) = let rest = strip_spaces cs in if eqb c b' ' then rest else c ∷ cs

-- A comment, but none that ignores an error: `# *pyre-(ignore|fixme).*$` does not match.
unfoldable pub is_other_comment : Bytes → Bool
unfolding starts_with strip_spaces strip_left
is_other_comment line = elim (strip_left line) [
  | [] ↦ false
  | c ∷ cs ↦
      eqb c b'#'
      && not (
          starts_with (codes "pyre-ignore") (strip_spaces cs)
          || starts_with (codes "pyre-fixme") (strip_spaces cs))
]

abbrev pub is_continued : Bytes → Bool
is_continued line = ends_with (92 ∷ []) line

-- The lines are kept last line first.
unfoldable pub remove_comment_preamble : List Bytes → List Bytes
unfolding starts_with
remove_comment_preamble [] = []
remove_comment_preamble (old_line ∷ rest) =
    let later = remove_comment_preamble rest in
    let new_line = strip_right (cut_at (starts_with (codes "# pyre: ")) old_line) in
    if is_empty old_line || not (is_empty new_line) then new_line ∷ rest else later

-- `zip`, with the comments of a line above it.
unfoldable pub zip_comments : List Bytes → List (List Bytes) → List Bytes
zip_comments [] comments = []
zip_comments (line ∷ lines) [] = []
zip_comments (line ∷ lines) (c ∷ comments) = c ++ (line ∷ zip_comments lines comments)

-- The columns before the first line's text.
unfoldable pub indent_of_block : List Bytes → ℕ
unfolding strip_left
indent_of_block [] = 0
indent_of_block (line ∷ lines) = length line - length (strip_left line)
