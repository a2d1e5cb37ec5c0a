-- ===== src/Filesystem.antt =====
-- client/filesystem.py: the expansion of a path that a configuration names.
pub mod Expand
use pyre_check.Base.{String, if◌then◌else◌}
use pyre_check.PathLib.{expand_user, path, is_absolute, path_text, ◌/◌}

module _ (home : String → String) where
  unfoldable pub expand_relative_path : String → String → String
  expand_relative_path root p =
      let expanded = expand_user home (path p) in
      if is_absolute expanded then path_text expanded else path_text (path root / expanded)
