-- ===== src/Upgrade/Files.antt =====
-- Errors.suppress: the errors of a run, file by file (tools/upgrade/errors.py). A file is known by the
-- text of its path. `search` is what `\[(\d+)\]: (.*)` finds in a description, and `rewrite` is
-- suppress_errors with its other arguments.
pub mod Written
pub mod Apart
pub mod Own
pub mod Ordered
use pyre_check.Texts.{Bytes, is_empty}
use pyre_check.Upgrade.{FixmeError}
use pyre_check.Upgrade.Suppress.{
  suppress_errors, UpgradeError, Rewritten, generated_file, unparseable_file, unstable_ast,
  value_error, index_error, syntax_error, parser_syntax_error,
}
use pyre_check.Base.{
  ℤ, pos, suc, List, [], ◌∷◌, ◌++◌, Option, some, none, Result, ok, err, Bool, true, false, String,
  ◌==◌, if◌then◌else◌, ℕ, eqb, map, Dict, get_item, set_item, sort_items,
}

pub record PyreError : Type 0 where
  pub path : String
  pub line : ℕ
  pub description : Bytes
  pub concise_description : Bytes

unfoldable pub append_error :
    ℕ → FixmeError → List (ℕ × List FixmeError) → List (ℕ × List FixmeError)
append_error line error [] = (line, error ∷ []) ∷ []
append_error line error (entry ∷ entries) =
    let later = append_error line error entries in
    if eqb entry.0 line then (entry.0, entry.1 ++ (error ∷ [])) ∷ entries else entry ∷ later

unfoldable pub add_errors :
    (Bytes → Option (Bytes × Bytes))
    → List PyreError
    → List (ℕ × List FixmeError)
    → List (ℕ × List FixmeError)
unfolding append_error is_empty
add_errors search [] error_map = error_map
add_errors search (error ∷ errors) error_map =
    let described =
      if is_empty error.concise_description then error.description else error.concise_description in
    elim (search described) [
      | none ↦ add_errors search errors error_map
      | some found ↦
          add_errors search errors
            (append_error error.line (record { code = found.0; description = found.1 }) error_map)
    ]

unfoldable pub build_error_map :
    (Bytes → Option (Bytes × Bytes)) → List PyreError → List (ℕ × List FixmeError)
unfolding add_errors
build_error_map search errors = add_errors search errors []

-- `itertools.groupby` with the paths as keys.
unfoldable pub group_by_path : Dict PyreError → List (String × List PyreError)
group_by_path [] = []
group_by_path (entry ∷ entries) = elim (group_by_path entries) [
  | [] ↦ (entry.0, entry.1 ∷ []) ∷ []
  | group ∷ groups ↦
      if entry.0 == group.0
      then (entry.0, entry.1 ∷ group.1) ∷ groups
      else (entry.0, entry.1 ∷ []) ∷ group ∷ groups
]

-- A dict comprehension: the last value of a key stays.
unfoldable pub dict_of : {A : Type 0} → List (String × A) → Dict A → Dict A
dict_of [] d = d
dict_of (entry ∷ entries) d = dict_of entries (set_item entry.0 entry.1 d)

unfoldable pub paths_to_errors : List PyreError → Dict (List PyreError)
unfolding dict_of group_by_path sort_items
paths_to_errors errors =
    dict_of (group_by_path (sort_items (map (λ (e : PyreError). (e.path, e)) errors))) []

-- It returns, or raises PartialErrorSuppression, FileNotFoundError, or what _suppress_errors raises.
pub data Outcome : Type 0 where
  suppressed missing_file : Outcome
  partial_suppression : List String → Outcome
  raised : UpgradeError → Outcome

unfoldable pub outcome_of : List String → Outcome
outcome_of [] = suppressed
outcome_of (path ∷ paths) = partial_suppression (path ∷ paths)

module _ (search : Bytes → Option (Bytes × Bytes))
    (rewrite : Bytes → List (ℕ × List FixmeError) → Rewritten Bytes) where
  -- The loop over the files, with the paths that could not be rewritten so far.
  unfoldable pub suppress_files :
      List (String × List PyreError) → Dict Bytes → List String → Outcome × Dict Bytes
  unfolding build_error_map outcome_of
  suppress_files [] files unsuppressed = (outcome_of unsuppressed, files)
  suppress_files (group ∷ groups) files unsuppressed = elim (get_item group.0 files) [
    | none ↦ (missing_file, files)
    | some input ↦ elim (rewrite input (build_error_map search group.1)) [
      | ok output ↦ suppress_files groups (set_item group.0 output files) unsuppressed
      | err generated_file ↦ suppress_files groups files unsuppressed
      | err unparseable_file ↦ suppress_files groups files unsuppressed
      | err unstable_ast ↦ suppress_files groups files (unsuppressed ++ (group.0 ∷ []))
      | err syntax_error ↦ suppress_files groups files (unsuppressed ++ (group.0 ∷ []))
      | err value_error ↦ (raised value_error, files)
      | err index_error ↦ (raised index_error, files)
      | err parser_syntax_error ↦ (raised parser_syntax_error, files)
    ]
  ]

  unfoldable pub suppress_with : List PyreError → Dict Bytes → Outcome × Dict Bytes
  unfolding suppress_files paths_to_errors
  suppress_with errors files = suppress_files (paths_to_errors errors) files []

-- A maximal length that is not positive counts as none.
unfoldable pub positive : Option ℤ → Option ℕ
positive (some (pos (suc n))) = some (suc n)
positive _ = none

unfoldable pub suppress :
    (List Bytes → Option (List Bytes))
    → (List ℤ → List ℤ)
    → (Bytes → Option Bytes)
    → (Bytes → Option (Bytes × Bytes))
    → Option Bytes
    → Option ℤ
    → Bool
    → Bool
    → List PyreError
    → Dict Bytes
    → Outcome × Dict Bytes
unfolding suppress_with suppress_errors positive
suppress transform iterated dump_of search comment max_line_length truncate unsafe =
    suppress_with search (λ input error_map.
      suppress_errors transform truncate (positive max_line_length) comment iterated dump_of input
        error_map unsafe)
