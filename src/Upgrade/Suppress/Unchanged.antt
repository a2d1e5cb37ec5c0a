-- ===== src/Upgrade/Suppress/Unchanged.antt =====
-- About _suppress_errors on a file without errors (tools/upgrade/errors.py).
use mathlib.Core.List.{reverse, reverse-cons}
use pyre_check.Base.{
  [], ◌∷◌, ◌++◌, List, refl, ◌≡◌, Option, true, false, Bool, ap, ok, err, ℕ, suc, ℤ, sym, ◌∙◌,
  append_assoc, append-nil, inl, inr, Bool-cases, if◌then◌else◌, arith, some, ◌>>=◌,
}
use pyre_check.Texts.{Bytes, codes, same_bytes}
use pyre_check.Upgrade.Suppress.{
  check_stable, compare_dumps, Rewriting, flat, comments_of, place, place_with, ended_block,
  rewrite_line, rewrite_lines, suppress_errors, checked, generated_file,
}
use pyre_check.Upgrade.Suppress.Lines.{errors_at, lines_behind, join_lines, is_continued}
use pyre_check.Texts.{contains}
use pyre_check.Upgrade.Suppress.Kept.{join_lines-lines_behind}

same_bytes_refl : (xs : Bytes) → same_bytes xs xs ≡ true
unfolding same_bytes
same_bytes_refl [] = refl
same_bytes_refl (x ∷ xs) = rw (same_bytes_refl xs) (ground arith)

-- A file that parses is stable under no change.
check_stable-same :
    (dump_of : Bytes → Option Bytes) (input tree : Bytes)
    → dump_of input ≡ some tree
    → check_stable dump_of input input ≡ ok tt
unfolding check_stable compare_dumps
check_stable-same dump_of input tree parses = rw (parses, same_bytes_refl tree) refl

flat-append : (b : List (List Bytes)) → flat b ≡ [] → flat (b ++ ([] ∷ [])) ≡ []
flat-append [] h = refl
flat-append ([] ∷ b) h = flat-append b h
flat-append ((c ∷ cs) ∷ b) h = cc (h)

module _ (transform : List Bytes → Option (List Bytes)) (truncate : Bool)
    (max_line_length : Option ℕ) (custom_comment : Option Bytes) (iterated : List ℤ → List ℤ) where
  open_block : List Bytes → List (List Bytes) → Rewriting
  open_block lines block = record {
    new_lines = lines;
    removing_pyre_comments = false;
    line_break_block_errors = block;
  }

  -- A block of lines without comments is left as it is.
  place_with-nothing :
      (new_lines : List Bytes) (block : List (List Bytes)) (line : Bytes)
      → flat block ≡ []
      → (block' : List (List Bytes)) × (flat block' ≡ [])
        × (place_with transform truncate max_line_length custom_comment new_lines block [] line
            ≡ ok (open_block (line ∷ new_lines) block'))
  unfolding place_with ended_block open_block
  place_with-nothing new_lines [] line h = elim (Bool-cases (is_continued line)) [
    | inl e ↦ rw e ([] ∷ [], refl, refl)
    | inr e ↦ rw e ([], refl, refl)
  ]
  place_with-nothing new_lines (b ∷ block) line h = elim (Bool-cases (is_continued line)) [
    | inl e ↦ rw e ((b ∷ block) ++ ([] ∷ []), flat-append (b ∷ block) h, refl)
    | inr e ↦ rw (e, flat-append (b ∷ block) h) ([], refl, refl)
  ]

  rewrite_lines-nothing :
      (number : ℕ) (new_lines lines : List Bytes) (block : List (List Bytes))
      → flat block ≡ []
      → (after : List Bytes) × (block' : List (List Bytes)) × (rewrite_lines transform truncate
            max_line_length custom_comment iterated [] number
            (open_block new_lines block)
            lines
          ≡ ok (open_block after block'))
        × (reverse after ≡ reverse new_lines ++ lines)
  unfolding rewrite_lines rewrite_line place comments_of errors_at open_block
  rewrite_lines-nothing number new_lines [] block h =
      (new_lines, block, refl, sym (append-nil (reverse new_lines)))
  rewrite_lines-nothing number new_lines (line ∷ lines) block h =
      let (next, empty, placed) = place_with-nothing new_lines block line h in
      let (after, block', runs, shown) =
        rewrite_lines-nothing (suc number) (line ∷ new_lines) lines next empty in
      (
        after,
        block',
        rw placed runs,
        shown
            ∙ ap (λ ls. ls ++ lines) (reverse-cons line new_lines)
            ∙ append_assoc (reverse new_lines) (line ∷ []) lines,
      )

  module _ (dump_of : Bytes → Option Bytes) where
    -- A file that parses and has no errors is written back as it was, unless it is generated, which is
    -- refused.
    pub suppress_errors-no_errors :
        (input tree : Bytes) (unsafe : Bool)
        → dump_of input ≡ some tree
        → suppress_errors transform truncate max_line_length custom_comment iterated dump_of input
            [] unsafe
          ≡ (if contains (codes "@generated") input then err generated_file else ok input)
    unfolding suppress_errors checked open_block
    suppress_errors-no_errors input tree unsafe parses =
        let (after, block', runs, shown) =
          rewrite_lines-nothing 1 [] (lines_behind [] input) [] refl in
        let same : join_lines (reverse after) ≡ input =
          ap join_lines shown ∙ join_lines-lines_behind [] input in
        rw (runs, same, checked-same unsafe) refl
      where
        stable : check_stable dump_of input input ≡ ok tt
        stable = check_stable-same dump_of input tree parses

        checked-same :
            (unsafe' : Bool)
            → (if unsafe' then ok input else check_stable dump_of input input >>= λ _. ok input)
              ≡ ok input
        checked-same true = refl
        checked-same false = rw stable refl
