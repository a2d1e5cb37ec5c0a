-- ===== src/Configuration/Partial.antt =====
-- PartialConfiguration, its defaults, and what the command line gives (client/configuration.py).
use pyre_check.Base.{[], ◌∷◌, List, some, none, Option, true, Bool, String, map, if◌then◌else◌}
use pyre_check.Configuration.Elements.{ExtensionElement, simple, SearchPathElement}
use pyre_check.PathLib.{PurePath}
use pyre_check.Json.{PythonInt}

-- An option that is None is not set. `number_of_workers` may be a Boolean, which passes for an int.
pub record PartialConfiguration : Type 0 where
  pub autocomplete : Option Bool
  pub binary : Option String
  pub buck_builder_binary : Option String
  pub disabled : Option Bool
  pub do_not_ignore_all_errors_in : List String
  pub dot_pyre_directory : Option PurePath
  pub excludes : List String
  pub extensions : List ExtensionElement
  pub file_hash : Option String
  pub formatter : Option String
  pub ignore_all_errors : List String
  pub ignore_infer : List String
  pub isolation_prefix : Option String
  pub logger : Option String
  pub number_of_workers : Option PythonInt
  pub other_critical_files : List String
  pub search_path : List SearchPathElement
  pub source_directories : Option (List SearchPathElement)
  pub strict : Option Bool
  pub taint_models_path : List String
  pub targets : Option (List String)
  pub typeshed : Option String
  pub use_buck_builder : Option Bool
  pub use_buck_source_database : Option Bool
  pub version_hash : Option String

-- The default of every field.
abbrev pub unset : PartialConfiguration
unset = record {
  autocomplete = none;
  binary = none;
  buck_builder_binary = none;
  disabled = none;
  do_not_ignore_all_errors_in = [];
  dot_pyre_directory = none;
  excludes = [];
  extensions = [];
  file_hash = none;
  formatter = none;
  ignore_all_errors = [];
  ignore_infer = [];
  isolation_prefix = none;
  logger = none;
  number_of_workers = none;
  other_critical_files = [];
  search_path = [];
  source_directories = none;
  strict = none;
  taint_models_path = [];
  targets = none;
  typeshed = none;
  use_buck_builder = none;
  use_buck_source_database = none;
  version_hash = none;
}

-- The fields of CommandArguments (client/command_arguments.py) that configurations read.
pub record CommandArguments : Type 0 where
  pub local_configuration : Option String
  pub dot_pyre_directory : Option PurePath
  pub strict : Bool
  pub search_path : List String
  pub source_directories : List String
  pub targets : List String
  pub binary : Option String
  pub buck_builder_binary : Option String
  pub exclude : List String
  pub typeshed : Option String
  pub formatter : Option String
  pub logger : Option String
  pub isolation_prefix : Option String
  pub use_buck_builder : Option Bool
  pub use_buck_source_database : Option Bool

-- An empty list counts as not set.
abbrev pub if_any {ℓ} : {A : Type ℓ} → List A → Option (List A)
if_any [] = none
if_any (x ∷ xs) = some (x ∷ xs)

unfoldable pub from_command_arguments : CommandArguments → PartialConfiguration
from_command_arguments arguments = record unset {
  binary = arguments.binary;
  buck_builder_binary = arguments.buck_builder_binary;
  dot_pyre_directory = arguments.dot_pyre_directory;
  excludes = arguments.exclude;
  formatter = arguments.formatter;
  isolation_prefix = arguments.isolation_prefix;
  logger = arguments.logger;
  search_path = map simple arguments.search_path;
  source_directories = if_any (map simple arguments.source_directories);
  strict = if arguments.strict then some true else none;
  targets = if_any arguments.targets;
  typeshed = arguments.typeshed;
  use_buck_builder = arguments.use_buck_builder;
  use_buck_source_database = arguments.use_buck_source_database;
}
