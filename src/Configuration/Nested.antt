-- ===== src/Configuration/Nested.antt =====
-- check_nested_local_configuration (client/configuration.py). The loop takes fuel: None means that
-- it has run out.
pub mod Ends
use mathlib.Core.List.{reverse}
use pyre_check.Base.{
  [], ◌∷◌, ◌++◌, List, refl, ◌≡◌, some, none, Option, true, false, Bool, arith, String, ◌==◌, ap,
  ok, err, Result, inl, inr, ◌>>=◌, ◌>>◌, ℕ, ◌||◌, any, suc, ◌&&◌, guard, zero,
}
use pyre_check.Configuration.Create.{Sources, expanded_from_file, directory_path}
use pyre_check.Configuration.Resolved.{local_root}
use pyre_check.FindDirectories.{
  Directory, FoundRoot, find_global_and_local_root, local_configuration_file, parents,
  same_directory, above,
}
use pyre_check.Configuration.Elements.{Checked, nested_local}
use pyre_check.Configuration.Partial.{PartialConfiguration}
use pyre_check.PathLib.{path, path_text}
use pyre_check.Configuration.Resolved.{
  Configuration, expand_and_get_existent_ignore_all_errors_path,
}

-- `Path(text)` is the directory `d`.
names_directory : String → Directory → Bool
names_directory p d = let q = path p in q.root == "/" && same_directory (reverse q.parts) d

-- `is_subdirectory`
unfoldable pub is_subdirectory : Directory → String → Bool
unfolding names_directory
is_subdirectory child parent =
    names_directory parent child || any (names_directory parent) (parents child)

after_round :
    Checked (Option Directory)
    → (Directory → Option (Checked (Unit {0})))
    → Option (Checked (Unit {0}))
after_round (err e) go_on = some (err e)
after_round (ok none) go_on = some (ok tt)
after_round (ok (some next)) go_on = go_on next

module _ (sources : Sources) where
  open sources use {machine, disk}

  unfoldable pub ignored_by : Directory → Directory → PartialConfiguration → Bool
  ignored_by local_root_path global_root nesting = any (is_subdirectory local_root_path) (
      expand_and_get_existent_ignore_all_errors_path machine nesting.ignore_all_errors
        (path_text (directory_path global_root)))

  -- One round: done, an exception, or the directory to go on with.
  pub check_nesting : Directory → Directory → Directory → Checked (Option Directory)
  check_nesting local_root_path global_root nesting_local_root = do
    nesting ← expanded_from_file sources nesting_local_root local_configuration_file
    guard (ignored_by local_root_path global_root nesting) nested_local
    ok (some (above nesting_local_root))

  pub local_round : Directory → Directory → Option Directory → Checked (Option Directory)
  local_round local_root_path global_root none = ok none
  local_round local_root_path global_root (some nesting_local_root) =
      check_nesting local_root_path global_root nesting_local_root

  pub nesting_round : Directory → Option FoundRoot → Checked (Option Directory)
  nesting_round local_root_path none = ok none
  nesting_round local_root_path (some found_root) =
      local_round local_root_path found_root.global_root found_root.local_root

  pub nested_loop : ℕ → Directory → Directory → Option (Checked (Unit {0}))
  unfolding after_round
  nested_loop zero local_root_path current = none
  nested_loop (suc fuel) local_root_path current =
      after_round (nesting_round local_root_path (find_global_and_local_root disk current))
        (nested_loop fuel local_root_path)

  -- `Path(local_root).resolve()`, for a text that is an absolute path.
  unfoldable pub local_root_path_of : String → Directory
  local_root_path_of p = disk.resolve (reverse (path p).parts)

  unfoldable pub check_nested_local_configuration : ℕ → Configuration → Option (Checked (Unit {0}))
  unfolding nested_loop
  check_nested_local_configuration fuel c = elim (local_root machine c) [
    | none ↦ some (ok tt)
    | some p ↦ nested_loop fuel (local_root_path_of p) (above (local_root_path_of p))
  ]
