-- ===== src/Examples/Runs.antt =====
-- The errors of a run of the checker, suppressed in two files.
use pyre_check.Texts.{Bytes, codes, same_bytes}
use pyre_check.Upgrade.{FixmeError}
use pyre_check.Upgrade.Suppress.{Rewritten, unstable_ast}
use pyre_check.Upgrade.Files.{PyreError, partial_suppression, suppress_with}
use pyre_check.Base.{
  List, [], ◌∷◌, Option, some, ok, err, String, if◌then◌else◌, ℕ, Dict, ◌≡◌, refl, text_lt,
}

abbrev six : Bytes → Option (Bytes × Bytes)
six description = some (codes "6", description)

-- The text "x" cannot be rewritten.
abbrev rewriting : Bytes → List (ℕ × List FixmeError) → Rewritten Bytes
rewriting input error_map =
    if same_bytes input (codes "x") then err unstable_ast else ok (codes "done")

abbrev error_in : String → PyreError
error_in path = record {
  path = path;
  line = 1;
  description = codes "bad";
  concise_description = [];
}

abbrev errors : List PyreError
errors = error_in "b.py" ∷ error_in "a.py" ∷ error_in "b.py" ∷ []

abbrev files : Dict Bytes
files = ("a.py", codes "x") ∷ ("b.py", codes "y") ∷ ("c.py", codes "z") ∷ []

suppress_test : suppress_with six rewriting errors files ≡ (
  partial_suppression ("a.py" ∷ []),
  ("a.py", codes "x") ∷ ("b.py", codes "done") ∷ ("c.py", codes "z") ∷ [],
)
unfolding suppress_with text_lt same_bytes
suppress_test = refl
