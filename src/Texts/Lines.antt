-- ===== src/Texts/Lines.antt =====
-- `splitlines` and the joining of lines, on ASCII codes.
use pyre_check.Base.{[], ◌∷◌, ◌++◌, List, false, Bool, if◌then◌else◌, eqb, leb, ℕ, ◌&&◌, ◌||◌}
use pyre_check.Texts.{Bytes}

-- Line feed, vertical tab, form feed, carriage return, and the three separators.
abbrev pub is_line_break : ℕ → Bool
is_line_break c = (leb 10 c && leb c 13) || (leb 28 c && leb c 30)

-- Behind a part of a line; `returned` says that a carriage return has just ended a line.
unfoldable pub split_lines_behind : Bytes → Bool → Bytes → List Bytes
split_lines_behind [] returned [] = []
split_lines_behind (b ∷ line) returned [] = (b ∷ line) ∷ []
split_lines_behind line returned (c ∷ cs) =
    let skipped = split_lines_behind line false cs in
    let ended = split_lines_behind [] (eqb c 13) cs in
    let longer = split_lines_behind (line ++ (c ∷ [])) false cs in
    if returned && eqb c 10 then skipped else if is_line_break c then line ∷ ended else longer

unfoldable pub split_lines : Bytes → List Bytes
unfolding split_lines_behind
split_lines text = split_lines_behind [] false text
