-- ===== src/Upgrade/Files/Written.antt =====
-- What is in the files after the errors of a run are suppressed.
use pyre_check.Texts.{Bytes}
use pyre_check.Upgrade.{FixmeError}
use pyre_check.Upgrade.Suppress.{Rewritten}
use pyre_check.Upgrade.Files.{PyreError, Outcome, suppressed, partial_suppression, build_error_map}
use pyre_check.Base.{List, Option, some, none, ok, err, Bool, true, false, ℕ}

-- It returned, or told of the files that it could not rewrite.
unfoldable pub is_finished : Outcome → Bool
is_finished suppressed = true
is_finished (partial_suppression paths) = true
is_finished _ = false

module _ (search : Bytes → Option (Bytes × Bytes))
    (rewrite : Bytes → List (ℕ × List FixmeError) → Rewritten Bytes) where
  -- What is written in place of a text.
  written_text : Bytes → Rewritten Bytes → Bytes
  written_text input (ok output) = output
  written_text input (err e) = input

  -- What stands in a file afterwards, with the errors of the file.
  unfoldable pub written : Option Bytes → Option (List PyreError) → Option Bytes
  unfolding written_text build_error_map
  written none errors = none
  written (some input) none = some input
  written (some input) (some errors) =
      some (written_text input (rewrite input (build_error_map search errors)))
