-- ===== src/Upgrade/Suppress.antt =====
-- _suppress_errors: how a file is rewritten with comments above the lines that have type errors
-- (tools/upgrade/errors.py). `transform` is what libcst makes of the lines of a statement, or None for
-- its ParserSyntaxError, which is no SyntaxError; `dump_of` is ast.dump of ast.parse on a text, or None for SyntaxError.
pub mod Kept
pub mod Unchanged
pub mod Lines
use pyre_check.Upgrade.Suppress.Lines.{
  errors_at, has_code, lines_behind, join_lines, strip_spaces, is_other_comment, is_continued,
  remove_comment_preamble, zip_comments, indent_of_block,
}
use pyre_check.Texts.{contains}
use mathlib.Core.List.{reverse}
use pyre_check.Base.{
  [], ◌∷◌, ◌++◌, List, some, none, Option, true, false, Bool, if◌then◌else◌, eqb, ltb, ℕ, zero, suc,
  ◌+◌, ◌-◌, ◌&&◌, ◌||◌, not, ℤ, map, any, take, length, ok, err, Result, ◌>>=◌,
}
use pyre_check.Texts.{
  starts_with, Bytes, codes, is_empty, strip_left, strip_right, same_bytes, ends_with, drop,
}
use pyre_check.Upgrade.{FixmeError, error_to_fixme_comment_lines, spaces}
use pyre_check.Upgrade.Ignores.{cut_at, remove_unused_ignores}

pub data UpgradeError : Type 0 where
  generated_file unparseable_file unstable_ast value_error index_error syntax_error
        parser_syntax_error :
      UpgradeError

pub record Rewriting : Type 0 where
  pub new_lines : List Bytes
  pub removing_pyre_comments : Bool
  pub line_break_block_errors : List (List Bytes)

abbrev pub Rewritten {ℓ} : Type ℓ → Type ℓ
Rewritten A = Result UpgradeError A

abbrev pub flat : List (List Bytes) → List Bytes
flat [] = []
flat (x ∷ xs) = x ++ flat xs

compare_dumps : Option Bytes → Option Bytes → Rewritten (Unit {0})
compare_dumps none transformed = err syntax_error
compare_dumps (some original) none = err unstable_ast
compare_dumps (some original) (some transformed) =
    if same_bytes original transformed then ok tt else err unstable_ast

-- check_stable of tools/upgrade/ast.py
unfoldable pub check_stable : (Bytes → Option Bytes) → Bytes → Bytes → Rewritten (Unit {0})
unfolding compare_dumps
check_stable dump_of input transformed = compare_dumps (dump_of input) (dump_of transformed)

module _ (transform : List Bytes → Option (List Bytes)) where
  transformed_block :
      List Bytes → List (List Bytes) → List Bytes → Option (List Bytes) → Rewritten (List Bytes)
  unfolding indent_of_block zip_comments
  transformed_block block errors rest none = err parser_syntax_error
  transformed_block block errors rest (some lines) = ok (
      reverse (zip_comments (map (λ line. spaces (indent_of_block block) ++ line) lines) errors)
      ++ rest)

  unfoldable pub add_error_to_line_break_block :
      List Bytes → List (List Bytes) → Rewritten (List Bytes)
  unfolding transformed_block indent_of_block
  add_error_to_line_break_block lines errors =
      if ltb (length lines) (length errors)
      then err index_error
      else let block = reverse (take (length errors) lines) in
        transformed_block block errors (drop_lines (length errors) lines)
          (transform (map (drop (indent_of_block block)) block))
    where
      drop_lines : ℕ → List Bytes → List Bytes
      drop_lines zero xs = xs
      drop_lines (suc n) [] = []
      drop_lines (suc n) (x ∷ xs) = drop_lines n xs

  module _ (truncate : Bool) (max_line_length : Option ℕ) (custom_comment : Option Bytes) where
    unfoldable pub comments_of : List FixmeError → Bytes → List Bytes
    unfolding strip_spaces
    comments_of errors line = flat (
        map
          (λ error.
            error_to_fixme_comment_lines error (length line - length (strip_spaces line)) truncate
              max_line_length custom_comment)
          errors)

    -- The end of a block of continued lines, whose last line is added already.
    ended_block : List Bytes → List (List Bytes) → Rewritten Rewriting
    unfolding add_error_to_line_break_block
    ended_block lines block =
        (if is_empty_block (flat block)
          then ok lines
          else add_error_to_line_break_block lines block)
        >>= λ new_lines. ok (record {
          new_lines = new_lines;
          removing_pyre_comments = false;
          line_break_block_errors = [];
        })
      where
        is_empty_block : List Bytes → Bool
        is_empty_block [] = true
        is_empty_block _ = false

    place_with : List Bytes → List (List Bytes) → List Bytes → Bytes → Rewritten Rewriting
    unfolding ended_block
    place_with new_lines [] comments line =
        if is_continued line
        then ok (record {
          new_lines = line ∷ new_lines;
          removing_pyre_comments = false;
          line_break_block_errors = comments ∷ [];
        })
        else ok (record {
          new_lines = line ∷ (reverse comments ++ new_lines);
          removing_pyre_comments = false;
          line_break_block_errors = [];
        })
    place_with new_lines (b ∷ block) comments line =
        if is_continued line
        then ok (record {
          new_lines = line ∷ new_lines;
          removing_pyre_comments = false;
          line_break_block_errors = (b ∷ block) ++ (comments ∷ []);
        })
        else ended_block (line ∷ new_lines) ((b ∷ block) ++ (comments ∷ []))

    -- The line behind the removal of what is unused in it.
    place : Rewriting → List FixmeError → Bytes → Rewritten Rewriting
    unfolding place_with comments_of
    place s errors line =
        place_with s.new_lines s.line_break_block_errors (comments_of errors line) line

    module _ (iterated : List ℤ → List ℤ) where
      replaced : Rewriting → List FixmeError → Option Bytes → Rewritten Rewriting
      unfolding place remove_comment_preamble
      replaced s errors none = err value_error
      replaced s errors (some []) = ok (record s {
        new_lines = remove_comment_preamble s.new_lines;
        removing_pyre_comments = true;
      })
      replaced s errors (some (c ∷ cs)) = place s errors (c ∷ cs)

      rewrite_line : Rewriting → List FixmeError → Bytes → Rewritten Rewriting
      unfolding place replaced is_other_comment remove_unused_ignores
      rewrite_line s errors line =
          if s.removing_pyre_comments && is_other_comment line
          then ok s
          else if has_code (codes "0") errors
          then replaced s errors (remove_unused_ignores iterated line errors)
          else place s errors line

      unfoldable pub rewrite_lines :
          List (ℕ × List FixmeError) → ℕ → Rewriting → List Bytes → Rewritten Rewriting
      unfolding rewrite_line errors_at
      rewrite_lines errors number s [] = ok s
      rewrite_lines errors number s (line ∷ lines) =
          rewrite_line s (errors_at number errors) line >>= λ next.
          rewrite_lines errors (suc number) next lines

      module _ (dump_of : Bytes → Option Bytes) where
        checked : Bytes → Bool → Bytes → Rewritten Bytes
        checked input unsafe output =
            if unsafe then ok output else check_stable dump_of input output >>= λ _. ok output

        unfoldable pub suppress_errors : Bytes → List (ℕ × List FixmeError) → Bool → Rewritten Bytes
        unfolding rewrite_lines lines_behind join_lines contains checked
        suppress_errors input errors unsafe =
            if contains (codes "@generated") input
            then err generated_file
            else if any (λ (entry : ℕ × List FixmeError). has_code (codes "404") entry.1) errors
            then err unparseable_file
            else rewrite_lines errors 1
                (record {
                  new_lines = [];
                  removing_pyre_comments = false;
                  line_break_block_errors = [];
                })
                (lines_behind [] input)
              >>= λ s. checked input unsafe (join_lines (reverse s.new_lines))
