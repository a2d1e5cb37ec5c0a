-- ===== src/Examples/Roots.antt =====
-- Configuration files on a small disk.
use pyre_check.Base.{
  [], ◌∷◌, refl, ◌≡◌, some, String, ◌==◌, if◌then◌else◌, ◌&&◌, Option, List, none,
}
use pyre_check.FindDirectories.{
  Directory, Disk, FoundRoot, find_global_and_local_root, configuration_file,
  find_parent_directory_containing_file, same_directory, present, local_configuration_file, absent,
}
use pyre_check.FindDirectories.Roots.{Roots, find_global_and_local_root-Roots}

-- /proj holds the configuration of the project, /proj/a a local one.
abbrev pub small_disk : Disk
small_disk = record {
  resolve = λ d. d;
  is_file = λ d name.
      if name == configuration_file && same_directory d ("proj" ∷ [])
      then present
      else if name == local_configuration_file && same_directory d ("a" ∷ "proj" ∷ [])
      then present
      else absent;
  is_dir = λ d name. absent;
}

abbrev pub inner : Directory
inner = "b" ∷ "a" ∷ "proj" ∷ []

abbrev pub inner_roots : FoundRoot
inner_roots = record { global_root = "proj" ∷ []; local_root = some ("a" ∷ "proj" ∷ []) }

pub find-inner : find_global_and_local_root small_disk inner ≡ some inner_roots
unfolding find_global_and_local_root find_parent_directory_containing_file
find-inner = refl

find_global_and_local_root-Roots_example :
    Roots small_disk inner (find_global_and_local_root small_disk inner)
find_global_and_local_root-Roots_example = find_global_and_local_root-Roots small_disk inner

abbrev typeshed : String → Option (List String)
typeshed subdirectory = if subdirectory == "stdlib" then some ("2.7" ∷ "3" ∷ "2and3" ∷ []) else none

abbrev stdlib : String
stdlib = "stdlib"
