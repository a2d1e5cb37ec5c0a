-- ===== src/Examples/Upgrades.antt =====
-- Comments and rewritten files on concrete texts.
use pyre_check.Base.{
  [], ◌∷◌, ◌++◌, List, refl, ◌≡◌, some, none, Option, true, false, ℤ, arith, All, map, ℕ,
}
use pyre_check.Texts.{
  Bytes, codes, strip_right, is_empty, strip, decimal, parse_int, same_bytes, strip_left,
}
use pyre_check.Upgrade.{
  FixmeError, error_to_fixme_comment_lines, split_across_lines, split_words, spaces, comment_prefix,
  words_behind, add_tokens, fixme_comment, truncated, should_truncate, add_token, finished,
}
use pyre_check.Upgrade.Comments.{IsShort, error_to_fixme_comment_lines-IsShort}
use pyre_check.Upgrade.Splits.{line_of, concat, Fits, split_words_groups}
use pyre_check.Upgrade.Ignores.{remove_unused_ignores}
use pyre_check.Upgrade.Suppress.Lines.{lines_behind, join_lines}
use pyre_check.Upgrade.Suppress.Kept.{annotated}

abbrev bad_call : FixmeError
bad_call = record { code = codes "6"; description = codes "expected int got str" }

abbrev unused_ignore : FixmeError
unused_ignore = record {
  code = codes "0";
  description = codes "The `pyre-ignore[6]` or `pyre-fixme[6]` comment is unused";
}

error_to_fixme_comment_lines-IsShort_example :
    IsShort 30 (error_to_fixme_comment_lines bad_call 2 false (some 30) none)
error_to_fixme_comment_lines-IsShort_example =
    error_to_fixme_comment_lines-IsShort bad_call 2 30 false none (omega arith)

split_test :
    error_to_fixme_comment_lines bad_call 2 false (some 30) none
    ≡ codes "  # pyre-fixme[6]:" ∷ codes "  #  expected int got str" ∷ []
unfolding error_to_fixme_comment_lines same_bytes fixme_comment should_truncate split_across_lines
    split_words words_behind strip_left add_tokens add_token finished strip_right truncated is_empty
split_test = refl

-- A maximal length below 3 is exceeded: the slice counts from the end.
short_limit_test :
    error_to_fixme_comment_lines bad_call 0 true (some 2) none
    ≡ codes "# pyre-fixme[6]: expected int got st..." ∷ []
unfolding error_to_fixme_comment_lines same_bytes fixme_comment should_truncate split_across_lines
    truncated
short_limit_test = refl

split_words_groups_example :
    (first : List Bytes) × (later : List (List Bytes)) × (split_words 0 8
        (codes "ab" ∷ codes "cd" ∷ [])
      ≡ line_of (spaces 0) first ∷ map (line_of (comment_prefix 0)) later)
    × (first ++ concat later ≡ codes "ab" ∷ codes "cd" ∷ [])
    × Fits 5 first
    × All (Fits 5) later
split_words_groups_example = split_words_groups 0 8 (codes "ab" ∷ codes "cd" ∷ [])

abbrev as_they_are : List Bytes → Option (List Bytes)
as_they_are lines = some lines

abbrev same_codes : List ℤ → List ℤ
same_codes ns = ns

-- Every text parses, to the same tree.
abbrev one_tree : Bytes → Option Bytes
one_tree text = some []

abbrev two_lines : Bytes
two_lines = codes "f(x)" ++ (10 ∷ codes "y")

abbrev one_error : List (ℕ × List FixmeError)
one_error = (1, bad_call ∷ []) ∷ []

abbrev rewritten_lines : Bytes
rewritten_lines =
    join_lines
      (annotated as_they_are false none none same_codes one_error 1 (lines_behind [] two_lines))

unused_test :
    remove_unused_ignores same_codes (codes "x  # pyre-ignore[6, 7]: why") (unused_ignore ∷ [])
    ≡ some (codes "x  # pyre-ignore[7]: why")
unfolding remove_unused_ignores same_bytes parse_int strip decimal
unused_test = refl

no_codes_test :
    remove_unused_ignores same_codes (codes "x  # pyre-ignore[]") (unused_ignore ∷ []) ≡ none
unfolding remove_unused_ignores same_bytes parse_int strip decimal
no_codes_test = refl
