-- ===== src/FindDirectories/Typeshed.antt =====
-- About find_typeshed_search_paths (client/find_directories.py).
use pyre_check.FindDirectories.{is_usable_version}
use pyre_check.Base.{List, ◌≡◌, some, Option, true, String, Listed}

-- What the search may use in a subdirectory: a directory with the name in it that is usable.
abbrev pub UsableIn : (String → Option (List String)) → String → String → Type 0
UsableIn iterdir subdirectory name =
    (names : List String) × (iterdir subdirectory ≡ some names)
    × (is_usable_version name ≡ true)
    × Listed name names
