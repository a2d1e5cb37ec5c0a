-- ===== src/Examples/Disks.antt =====
-- Configurations read from small disks.
use pyre_check.Configuration.Partial.{unset, CommandArguments, PartialConfiguration}
use pyre_check.Configuration.Create.{Sources, expanded_from_file, from_file, directory_path}
use pyre_check.Examples.Settings.{document, machine, configuration}
use pyre_check.Json.{
  dict, Json, keys, get, remove, contains, elements, Fields, field, bool, string, end, array, cons,
  nil,
}
use pyre_check.Base.{
  [], ◌∷◌, refl, ◌≡◌, some, none, Option, true, String, ok, map_ok, if◌then◌else◌, ◌≢◌, arith,
}
use pyre_check.Configuration.Parse.{
  from_string, unrecognized, parse_fields, ◌>>>=◌, pure, popped, popped_list, checked,
  has_saved_state, option_of, search_path_of, source_directories_of, strings_of, as_strings?,
  extensions_of, concat_ok, paths_of_items, list_or_error, string_items, warnings,
  warn_unrecognized,
}
use pyre_check.Examples.Roots.{small_disk}
use pyre_check.Configuration.Elements.{expand_global_root, os_path_join, below_global}
use pyre_check.Configuration.Resolved.{
  Configuration, local_root, from_partial_configuration,
  expand_and_get_existent_ignore_all_errors_path,
}
use pyre_check.Configuration.Relative.{expand_relative_paths}
use pyre_check.FindDirectories.{
  Directory, Disk, find_global_and_local_root, get_relative_local_root, local_configuration_file,
  find_parent_directory_containing_file, present, same_directory, absent,
}
use pyre_check.Configuration.Nested.{
  check_nested_local_configuration, ignored_by, local_root_path_of, nested_loop, is_subdirectory,
}
use pyre_check.Filesystem.{expand_relative_path}
use pyre_check.FindDirectories.Roots.{IsAtOrAbove}
use pyre_check.Configuration.Nested.Ends.{
  nested_loop_diverges, check_nested_local_configuration_ends,
}
use pyre_check.PathLib.{expand_user, path, root_of, segments, path_text, join}

abbrev loads : String → Option Json
loads text = some (dict document)

abbrev same_text : String → String
same_text text = text

-- What the reader makes of the document.
abbrev small_partial : PartialConfiguration
small_partial = record unset { binary = some "pyre" }

reads_document :
    from_string loads same_text [] "document" ≡ ok (small_partial, unrecognized "strictt" ∷ [])
unfolding from_string parse_fields ◌>>>=◌ pure popped popped_list map_ok checked has_saved_state get
    option_of remove search_path_of contains elements source_directories_of strings_of as_strings?
    extensions_of concat_ok paths_of_items list_or_error string_items warnings keys
    warn_unrecognized
reads_document = refl

abbrev strict_document : Fields
strict_document = field "strict" (bool true) (field "exclude" (string "docs") end)

abbrev strict_partial : PartialConfiguration
strict_partial = record unset { strict = some true; excludes = "docs" ∷ [] }

-- The project in /proj, with a local configuration in /proj/a.
abbrev sources : Sources
sources = record {
  machine = machine;
  disk = small_disk;
  read_text = λ d name. some "document";
  loads = λ text. some (dict strict_document);
  sha1 = same_text;
  current_directory = [];
}

abbrev arguments : CommandArguments
arguments = record {
  local_configuration = none;
  dot_pyre_directory = none;
  strict = true;
  search_path = [];
  source_directories = [];
  targets = [];
  binary = none;
  buck_builder_binary = none;
  exclude = "generated" ∷ [];
  typeshed = none;
  formatter = none;
  logger = none;
  isolation_prefix = none;
  use_buck_builder = none;
  use_buck_source_database = none;
}

abbrev local_directory : Directory
local_directory = "a" ∷ "proj" ∷ []

abbrev created : Configuration
created =
    from_partial_configuration machine (directory_path ("proj" ∷ []))
      (get_relative_local_root ("proj" ∷ []) (some local_directory))
      (record unset { strict = some true; excludes = "generated" ∷ "docs" ∷ "docs" ∷ [] })

-- "/" holds both configuration files.
abbrev top_disk : Disk
top_disk = record {
  resolve = λ d. d;
  is_file = λ d name. if same_directory d [] then present else absent;
  is_dir = λ d name. absent;
}

abbrev ignoring_document : Fields
ignoring_document = field "ignore_all_errors" (array (cons (string "/proj") nil)) end

abbrev top_sources : Sources
top_sources = record sources { disk = top_disk; loads = λ text. some (dict ignoring_document) }

abbrev ignoring : PartialConfiguration
ignoring = record unset { ignore_all_errors = "/proj" ∷ [] }

reads_ignoring : expanded_from_file top_sources [] local_configuration_file ≡ ok ignoring
unfolding expanded_from_file from_file from_string parse_fields ◌>>>=◌ pure popped popped_list
    map_ok checked has_saved_state get option_of remove search_path_of contains elements
    source_directories_of strings_of as_strings? extensions_of concat_ok paths_of_items
    list_or_error string_items warnings keys warn_unrecognized expand_relative_paths
    expand_relative_path expand_user path root_of segments path_text join
reads_ignoring = refl

finds_top :
    find_global_and_local_root top_disk []
    ≡ some (record { global_root = []; local_root = some [] })
unfolding find_global_and_local_root find_parent_directory_containing_file
finds_top = refl

ignores : ignored_by top_sources ("proj" ∷ []) [] ignoring ≡ true
unfolding ignored_by is_subdirectory expand_and_get_existent_ignore_all_errors_path path
    expand_global_root below_global
ignores = refl

nested_loop_diverges_example : nested_loop top_sources 100 ("proj" ∷ []) [] ≡ none
nested_loop_diverges_example =
    nested_loop_diverges top_sources ("proj" ∷ []) ignoring finds_top reads_ignoring ignores 100

abbrev nested : Configuration
nested = record configuration { relative_local_root = some "a" }

has_local_root : local_root machine nested ≡ some "/proj/a"
unfolding local_root from_partial_configuration os_path_join path_text
has_local_root = refl

is_local_directory : local_root_path_of sources "/proj/a" ≡ local_directory
unfolding local_root_path_of path root_of segments
is_local_directory = refl

resolves : (d : Directory) → IsAtOrAbove d local_directory → small_disk.resolve d ≡ d
resolves d h = refl

no_local_at_top : small_disk.is_file [] local_configuration_file ≢ present
no_local_at_top e = cc

check_nested_local_configuration_ends_example :
    check_nested_local_configuration sources 2 nested ≢ none
check_nested_local_configuration_ends_example =
    check_nested_local_configuration_ends sources local_directory resolves no_local_at_top nested
      "/proj/a" 2 has_local_root is_local_directory (omega arith) (omega arith)
