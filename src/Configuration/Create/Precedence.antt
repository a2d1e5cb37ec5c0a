-- ===== src/Configuration/Create/Precedence.antt =====
-- About create_configuration (client/configuration.py).
use pyre_check.Base.{List, ◌≡◌, some, Option, String, ok, ◌>>=◌}
use pyre_check.Configuration.Create.{
  Sources, search_base, expanded_from_file, create_configuration, directory_path,
}
use pyre_check.Configuration.Merge.{
  merge_partial_configurations, overwrite_base, raise_when_overridden, merge_fields,
}
use pyre_check.Configuration.Partial.{
  CommandArguments, PartialConfiguration, from_command_arguments,
}
use pyre_check.Configuration.Elements.{SearchPathElement, Checked}
use pyre_check.FindDirectories.{
  Directory, find_global_and_local_root, configuration_file, local_configuration_file,
  get_relative_local_root,
}
use pyre_check.Configuration.Resolved.{Configuration, from_partial_configuration}

-- The value that the last configuration gives which sets it.
abbrev pub last_set {ℓ} : {A : Type ℓ} → Option A → Option A → Option A → Option A
last_set project local command_line = overwrite_base (overwrite_base project local) command_line

module _ (sources : Sources) (arguments : CommandArguments) (base : Directory)
    (global_root local_root : Directory) (project override : PartialConfiguration)
    (c : Configuration)
    (roots : find_global_and_local_root sources.disk
        (search_base sources base arguments.local_configuration)
      ≡ some (record { global_root = global_root; local_root = some local_root }))
    (project_file : expanded_from_file sources global_root configuration_file ≡ ok project)
    (local_file : expanded_from_file sources local_root local_configuration_file ≡ ok override)
    (created : create_configuration sources arguments base ≡ ok c) where
  abbrev command_line : PartialConfiguration
  command_line = from_command_arguments arguments

  -- The two merges behind a configuration that was created.
  record Layers : Type 0 where
    sources_of_files : Option (List SearchPathElement)
    targets_of_files : Option (List String)
    all_sources : Option (List SearchPathElement)
    all_targets : Option (List String)
    source_directories_set :
        raise_when_overridden sources_of_files command_line.source_directories "source_directories"
        ≡ ok all_sources
    targets_set :
        raise_when_overridden targets_of_files command_line.targets "targets" ≡ ok all_targets
    result :
        c
        ≡ from_partial_configuration sources.machine
            (directory_path global_root)
            (get_relative_local_root global_root (some local_root))
            (merge_fields
              (merge_fields project override sources_of_files targets_of_files)
              command_line
              all_sources
              all_targets)

  abbrev second_merge : Option String × PartialConfiguration → Checked Configuration
  second_merge x = merge_partial_configurations x.1 command_line >>= λ merged.
      ok (from_partial_configuration sources.machine (directory_path global_root) x.0 merged)

  first_merge : Checked (Option String × PartialConfiguration)
  first_merge = merge_partial_configurations project override >>= λ merged.
      ok (get_relative_local_root global_root (some local_root), merged)
