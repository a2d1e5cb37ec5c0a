-- ===== src/Examples/Starts.antt =====
-- The arguments of a server that starts.
use pyre_check.Examples.Settings.{machine, configuration}
use pyre_check.Start.{StartArguments, StartError, Arguments, create_server_arguments}
use pyre_check.Configuration.Elements.{simple, element_path}
use pyre_check.Base.{refl, [], ◌∷◌, some, none, false, ok, err, Result, pos, ◌≡◌}
use pyre_check.Configuration.Resolved.{
  Configuration, get_existent_source_directories, existent_paths,
}
use pyre_check.PathLib.{PurePath}
use pyre_check.Json.{number}
use pyre_check.Start.Created.{IsSound, create_server_arguments-IsSound}
use pyre_check.Examples.Roots.{small_disk}

abbrev sourced : Configuration
sourced = record configuration { source_directories = simple "/proj" ∷ [] }

abbrev start : StartArguments
start = record {
  changed_files_path = none;
  debug = false;
  load_initial_state_from = some "/state";
  no_saved_state = false;
  no_watchman = false;
  saved_state_project = none;
  sequential = false;
  show_error_traces = false;
  store_type_check_resolution = false;
}

abbrev unresolved : PurePath → PurePath
unresolved p = p

abbrev no_arguments : Arguments
no_arguments = record {
  log_path = "";
  global_root = "";
  checked_directory_allowlist = [];
  checked_directory_blocklist = [];
  critical_files = [];
  debug = false;
  excludes = [];
  extensions = [];
  local_root = none;
  number_of_workers = number (pos 1);
  parallel = false;
  saved_state_action = none;
  search_paths = [];
  show_error_traces = false;
  source_paths = [];
  store_type_check_resolution = false;
  strict = false;
  taint_models_path = [];
  watchman_root = none;
}

abbrev arguments_of_result : Result StartError Arguments → Arguments
arguments_of_result (ok a) = a
arguments_of_result (err e) = no_arguments

abbrev given : Arguments
given = arguments_of_result (create_server_arguments machine small_disk unresolved sourced start)

is_given : create_server_arguments machine small_disk unresolved sourced start ≡ ok given
unfolding create_server_arguments get_existent_source_directories existent_paths element_path
is_given = refl

create_server_arguments-IsSound_example : IsSound machine small_disk unresolved given
create_server_arguments-IsSound_example =
    create_server_arguments-IsSound machine small_disk unresolved sourced start given is_given
