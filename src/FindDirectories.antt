-- ===== src/FindDirectories.antt =====
-- client/find_directories.py: the search for the directories that hold the configuration files.
pub mod Nearest
pub mod Roots
pub mod Typeshed
use Prim.Native.String
use Prim.Native.String.{compare}
use Prim.Native.Nat.{Ordering}
use Prim.Native.Char.{Char, code}
use mathlib.Core.List.{reverse}
use pyre_check.Base.{
  [], ◌∷◌, ◌++◌, List, refl, ◌≡◌, some, none, Option, true, false, Bool, arith, String, ◌==◌, ap,
  ok, err, Result, inl, inr, ◌>>=◌, ◌>>◌, any, eqb, if◌then◌else◌, map, not, ◌&&◌, keep,
}
use pyre_check.PathLib.{path_text}
use mathlib.Core.Option

-- An absolute directory: the names of its path, the innermost first, and `[]` for "/".
abbrev pub Directory : Type 0
Directory = List String

-- What asking for a file or a directory answers; `denied` is PermissionError.
pub data Access : Type 0 where
  present absent denied : Access

abbrev pub found : Access → Bool
found present = true
found _ = false

-- `Path.parents`
unfoldable pub parents : Directory → List Directory
parents [] = []
parents (name ∷ above) = above ∷ parents above

-- `Path.parent`; that of "/" is "/".
unfoldable pub above : Directory → Directory
above [] = []
above (name ∷ d) = d

-- The loop over the candidates. A candidate that may not be read counts as one without the target.
unfoldable pub first_with : (Directory → Access) → List Directory → Option Directory
first_with predicate [] = none
first_with predicate (candidate ∷ rest) =
    if found (predicate candidate) then some candidate else first_with predicate rest

-- `predicate` answers for `candidate_directory / target`, and `resolved` is `base.resolve()`.
unfoldable pub find_parent_directory_containing :
    Directory → (Directory → Access) → Option Directory
unfolding first_with parents
find_parent_directory_containing resolved predicate =
    first_with predicate (resolved ∷ parents resolved)

abbrev pub configuration_file : String
configuration_file = ".pyre_configuration"

abbrev pub local_configuration_file : String
local_configuration_file = ".pyre_configuration.local"

-- The files and directories of a disk; `resolve` follows symbolic links.
pub record Disk : Type 0 where
  pub resolve : Directory → Directory
  pub is_file : Directory → String → Access
  pub is_dir : Directory → String → Access

unfoldable pub find_parent_directory_containing_file : Disk → Directory → String → Option Directory
unfolding find_parent_directory_containing
find_parent_directory_containing_file disk base target =
    find_parent_directory_containing (disk.resolve base) (λ d. disk.is_file d target)

unfoldable pub find_parent_directory_containing_directory :
    Disk → Directory → String → Option Directory
unfolding find_parent_directory_containing
find_parent_directory_containing_directory disk base target =
    find_parent_directory_containing (disk.resolve base) (λ d. disk.is_dir d target)

unfoldable pub find_global_root : Disk → Directory → Option Directory
find_global_root disk base = find_parent_directory_containing_file disk base configuration_file

abbrev pub same_directory : Directory → Directory → Bool
same_directory [] [] = true
same_directory (x ∷ xs) (y ∷ ys) = x == y && same_directory xs ys
same_directory _ _ = false

-- `local_root.relative_to(global_root)`: the names below, the innermost first, or ValueError.
unfoldable pub relative_to : Directory → Directory → Option (List String)
relative_to [] above = if same_directory [] above then some [] else none
relative_to (name ∷ d) above =
    if same_directory (name ∷ d) above
    then some []
    else Option.map (λ l. name ∷ l) (relative_to d above)

unfoldable pub get_relative_local_root : Directory → Option Directory → Option String
get_relative_local_root global_root none = none
get_relative_local_root global_root (some local_root) =
    Option.map (λ names. path_text (record { root = ""; parts = reverse names }))
      (relative_to local_root global_root)

pub record FoundRoot : Type 0 where
  pub global_root : Directory
  pub local_root : Option Directory

abbrev pub mem_directory : Directory → List Directory → Bool
mem_directory d l = any (same_directory d) l

pair_roots : Directory → Option Directory → FoundRoot
unfolding parents
pair_roots global_root none = record { global_root = global_root; local_root = none }
pair_roots global_root (some local_root) =
    if mem_directory local_root (parents global_root)
    then record { global_root = global_root; local_root = none }
    else record { global_root = global_root; local_root = some local_root }

with_global : Option Directory → Option Directory → Option FoundRoot
with_global none found_local = none
with_global (some global_root) found_local = some (pair_roots global_root found_local)

unfoldable pub find_global_and_local_root : Disk → Directory → Option FoundRoot
unfolding pair_roots with_global
find_global_and_local_root disk base =
    with_global (find_parent_directory_containing_file disk base configuration_file)
      (find_parent_directory_containing_file disk base local_configuration_file)

abbrev starts_with_two : String → Bool
starts_with_two String.[] = false
starts_with_two (String.◌∷◌ c s) = eqb (code c) b'2'

-- Anything under 2/ or 2.x is unusable, but 2and3 is not.
unfoldable pub is_usable_version : String → Bool
is_usable_version name = not (starts_with_two name && not (name == "2and3"))

-- `sorted(names, reverse=True)`, by code points.
pub insert_descending : String → List String → List String
insert_descending name [] = name ∷ []
insert_descending name (other ∷ rest) = elim (compare name other) [
  | Ordering.lt ↦ other ∷ insert_descending name rest
  | _ ↦ name ∷ other ∷ rest
]

unfoldable pub sort_descending : List String → List String
unfolding insert_descending
sort_descending [] = []
sort_descending (name ∷ rest) = insert_descending name (sort_descending rest)

-- `iterdir` gives the names in a subdirectory of typeshed, or None where it is no directory.
pub versions_of : (String → Option (List String)) → String → List (String × String)
unfolding is_usable_version sort_descending
versions_of iterdir subdirectory = elim (iterdir subdirectory) [
  | none ↦ []
  | some names ↦
      map (λ version. (subdirectory, version)) (keep is_usable_version (sort_descending names))
]

unfoldable pub find_typeshed_search_paths : (String → Option (List String)) → List (String × String)
unfolding versions_of
find_typeshed_search_paths iterdir =
    versions_of iterdir "stdlib" ++ versions_of iterdir "third_party"
