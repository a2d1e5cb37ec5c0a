-- ===== src/Configuration/Create.antt =====
-- create_configuration (client/configuration.py): the file of the project, that of the local
-- project, and the command line, in rising precedence.
pub mod Precedence
use mathlib.Core.List.{reverse}
use pyre_check.Base.{
  [], ◌∷◌, ◌++◌, List, refl, ◌≡◌, some, none, Option, true, false, Bool, arith, String, ◌==◌, ap,
  ok, err, Result, inl, inr, ◌>>=◌, ◌>>◌,
}
use pyre_check.Configuration.Elements.{Checked, unreadable}
use pyre_check.Configuration.Partial.{
  CommandArguments, PartialConfiguration, from_command_arguments,
}
use pyre_check.Configuration.Resolved.{Machine, Configuration, from_partial_configuration}
use pyre_check.FindDirectories.{
  Directory, Disk, FoundRoot, find_global_and_local_root, local_configuration_file,
  configuration_file, get_relative_local_root,
}
use pyre_check.PathLib.{PurePath, ◌/◌, path, path_text}
use pyre_check.Configuration.Parse.{Warning, from_string}
use pyre_check.Configuration.Relative.{expand_relative_paths}
use pyre_check.Json.{Json}
use pyre_check.Configuration.Merge.{merge_partial_configurations}

-- The files on the disk and the environment. `read_text` is None where reading raises OSError.
pub record Sources : Type 0 where
  pub machine : Machine
  pub disk : Disk
  pub read_text : Directory → String → Option String
  pub loads : String → Option Json
  pub sha1 : String → String
  pub current_directory : Directory

abbrev pub directory_path : Directory → PurePath
directory_path d = record { root = "/"; parts = reverse d }

module _ (sources : Sources) where
  open sources use {machine, disk, read_text, loads, sha1, current_directory}

  without_warnings : Checked (PartialConfiguration × List Warning) → Checked PartialConfiguration
  without_warnings (ok (partial, logged)) = ok partial
  without_warnings (err e) = err e

  contents_or_error : Option String → Checked String
  contents_or_error none = err unreadable
  contents_or_error (some contents) = ok contents

  unfoldable pub from_file : Directory → String → Checked PartialConfiguration
  unfolding without_warnings contents_or_error
  from_file d name = do
    contents ← contents_or_error (read_text d name)
    without_warnings (from_string loads sha1 machine.site_roots contents)

  -- `PartialConfiguration.from_file(d / name).expand_relative_paths(str(d))`
  unfoldable pub expanded_from_file : Directory → String → Checked PartialConfiguration
  expanded_from_file d name = do
    partial ← from_file d name
    ok (expand_relative_paths machine.home (path_text (directory_path d)) partial)

  -- `base_directory / local_root_argument`
  unfoldable pub search_base : Directory → Option String → Directory
  search_base base none = base
  search_base base (some argument) = reverse (directory_path base / path argument).parts

  unfoldable pub with_local :
      Directory
      → Option Directory
      → PartialConfiguration
      → Checked (Option String × PartialConfiguration)
  with_local global_root none partial = ok (none, partial)
  with_local global_root (some local_root) partial = do
    override ← expanded_from_file local_root local_configuration_file
    merged ← merge_partial_configurations partial override
    ok (get_relative_local_root global_root (some local_root), merged)

  unfoldable pub with_roots : CommandArguments → Option FoundRoot → Checked Configuration
  unfolding with_local
  with_roots arguments none = ok (
      from_partial_configuration machine (directory_path current_directory) none
        (from_command_arguments arguments))
  with_roots arguments (some found_root) = do
    base ← expanded_from_file found_root.global_root configuration_file
    (relative_local_root, partial) ← with_local found_root.global_root found_root.local_root base
    merged ← merge_partial_configurations partial (from_command_arguments arguments)
    ok (
        from_partial_configuration machine (directory_path found_root.global_root)
          relative_local_root merged)

  unfoldable pub create_configuration : CommandArguments → Directory → Checked Configuration
  unfolding with_roots search_base
  create_configuration arguments base_directory =
      with_roots arguments
        (find_global_and_local_root disk (search_base base_directory arguments.local_configuration))
