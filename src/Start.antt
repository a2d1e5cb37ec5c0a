-- ===== src/Start.antt =====
-- client/commands/v2/start.py: what the client tells a Pyre server that it starts. Running the server
-- is not modelled.
pub mod Created
pub mod Serialized
use Prim.Native.String
use mathlib.Core.Option
use mathlib.Core.List.{reverse}
use Prim.Native.Char.{Char, code}
use pyre_check.Json.{
  cons, nil, string, array, dict, bool, field, end, Fields, Json, Items, PythonInt,
}
use pyre_check.Base.{
  [], ◌∷◌, ◌++◌, List, refl, ◌≡◌, some, none, Option, true, false, Bool, arith, String, ◌==◌, ap,
  ok, err, Result, inl, inr, ◌>>=◌, ◌>>◌, if◌then◌else◌, eqb, map, not,
}
use pyre_check.Configuration.Elements.{SearchPathElement, command_line_argument, element_path}
use pyre_check.Configuration.Resolved.{
  Configuration, Machine, get_existent_source_directories, log_directory, local_root,
  get_existent_do_not_ignore_errors_in_paths, get_existent_ignore_all_errors_paths,
  get_valid_extension_suffixes, get_number_of_workers, get_existent_search_paths,
}
use pyre_check.JsonRpc.{int_json}
use pyre_check.PathLib.{PurePath, path, path_text, slash, ◌/◌}
use pyre_check.FindDirectories.{
  configuration_file, local_configuration_file, Directory, Disk,
  find_parent_directory_containing_file,
}
use pyre_check.Configuration.Create.{directory_path}

pub data MatchPolicy : Type 0 where
  base_name full_path : MatchPolicy

-- `str(policy)`
unfoldable pub policy_text : MatchPolicy → String
policy_text base_name = "base_name"
policy_text full_path = "full_path"

pub record CriticalFile : Type 0 where
  pub policy : MatchPolicy
  pub file : String

unfoldable pub critical_file_json : CriticalFile → Json
unfolding policy_text
critical_file_json c = dict (field (policy_text c.policy) (string c.file) end)

pub data SavedStateAction : Type 0 where
  load_from_file :
      (shared_memory_path : String) (changed_files_path : Option String) → SavedStateAction
  load_from_project : (project_name : String) (project_metadata : Option String) → SavedStateAction

-- `**({} if value is None else {key: value})`, in front of `rest`
abbrev pub text_if_set : String → Option String → Fields → Fields
text_if_set key none rest = rest
text_if_set key (some value) rest = field key (string value) rest

pair : String → Fields → Json
pair tag fields = array (cons (string tag) (cons (dict fields) nil))

unfoldable pub saved_state_json : SavedStateAction → Json
unfolding pair
saved_state_json (load_from_file shared_memory_path changed_files_path) = pair "load_from_file" (
    field "shared_memory_path" (string shared_memory_path)
      (text_if_set "changed_files_path" changed_files_path end))
saved_state_json (load_from_project project_name project_metadata) = pair "load_from_project" (
    field "project_name" (string project_name)
      (text_if_set "project_metadata" project_metadata end))

abbrev pub action_if_set : Option SavedStateAction → Fields → Fields
action_if_set none rest = rest
action_if_set (some action) rest = field "saved_state_action" (saved_state_json action) rest

pub record Arguments : Type 0 where
  pub log_path : String
  pub global_root : String
  pub checked_directory_allowlist : List String
  pub checked_directory_blocklist : List String
  pub critical_files : List CriticalFile
  pub debug : Bool
  pub excludes : List String
  pub extensions : List String
  pub local_root : Option String
  pub number_of_workers : PythonInt
  pub parallel : Bool
  pub saved_state_action : Option SavedStateAction
  pub search_paths : List SearchPathElement
  pub show_error_traces : Bool
  pub source_paths : List SearchPathElement
  pub store_type_check_resolution : Bool
  pub strict : Bool
  pub taint_models_path : List String
  pub watchman_root : Option String

abbrev pub list_json {ℓ} : {A : Type ℓ} → (A → Json) → List A → Items
list_json f [] = nil
list_json f (x ∷ xs) = cons (f x) (list_json f xs)

abbrev pub texts : List String → Json
texts l = array (list_json string l)

abbrev pub element_texts : List SearchPathElement → Json
element_texts l = array (list_json (λ e. string (command_line_argument e)) l)

unfoldable pub serialize : Arguments → Fields
unfolding critical_file_json
serialize a = field "source_paths" (element_texts a.source_paths) (
    field "search_paths" (element_texts a.search_paths) (
      field "excludes" (texts a.excludes) (
        field "checked_directory_allowlist" (texts a.checked_directory_allowlist) (
          field "checked_directory_blocklist" (texts a.checked_directory_blocklist) (
            field "extensions" (texts a.extensions) (
              field "log_path" (string a.log_path) (
                field "global_root" (string a.global_root) (
                  text_if_set "local_root" a.local_root (
                    text_if_set "watchman_root" a.watchman_root (
                      field "taint_model_paths" (texts a.taint_models_path) (
                        field "debug" (bool a.debug) (
                          field "strict" (bool a.strict) (
                            field "show_error_traces" (bool a.show_error_traces) (
                              field "critical_files"
                                (array (list_json critical_file_json a.critical_files))
                                (action_if_set a.saved_state_action (
                                  field "store_type_check_resolution"
                                    (bool a.store_type_check_resolution)
                                    (field "parallel" (bool a.parallel) (
                                      field "number_of_workers" (int_json a.number_of_workers)
                                        end))))))))))))))))))

-- StartArguments (client/command_arguments.py), as far as it is read here.
pub record StartArguments : Type 0 where
  pub changed_files_path : Option String
  pub debug : Bool
  pub load_initial_state_from : Option String
  pub no_saved_state : Bool
  pub no_watchman : Bool
  pub saved_state_project : Option String
  pub sequential : Bool
  pub show_error_traces : Bool
  pub store_type_check_resolution : Bool

-- `text.replace("/", "$")`
unfoldable pub replace_slashes : String → String
replace_slashes String.[] = String.[]
replace_slashes (String.◌∷◌ c s) =
    String.◌∷◌ (if eqb (code c) b'/' then "$" else c) (replace_slashes s)

project_action : StartArguments → Option String → Option String → Option SavedStateAction
project_action start relative_local_root none = none
project_action start relative_local_root (some project) =
    some (load_from_project project (Option.map replace_slashes relative_local_root))

file_action : StartArguments → Option String → Option String → Option SavedStateAction
unfolding project_action
file_action start relative_local_root none =
    project_action start relative_local_root start.saved_state_project
file_action start relative_local_root (some saved_state_file) =
    some (load_from_file saved_state_file start.changed_files_path)

unfoldable pub get_saved_state_action : StartArguments → Option String → Option SavedStateAction
unfolding file_action
get_saved_state_action start relative_local_root =
    file_action start relative_local_root start.load_initial_state_from

-- InvalidConfiguration: there is no directory to check.
pub data StartError : Type 0 where
  no_source_directories : StartError

unfoldable pub find_watchman_root : Disk → Directory → Option Directory
find_watchman_root disk base = find_parent_directory_containing_file disk base ".watchmanconfig"

-- The directory that an absolute path names.
abbrev pub directory_of : String → Directory
directory_of p = reverse (path p).parts

-- `resolve` is Path.resolve without `strict`; a project root is an absolute path.
module _ (machine : Machine) (disk : Disk) (resolve : PurePath → PurePath) where
  full_path_of : String → String → CriticalFile
  full_path_of root relative = record {
    policy = full_path;
    file = path_text (resolve (path root / path relative));
  }

  local_critical_files : Option String → List CriticalFile
  unfolding full_path_of
  local_critical_files none = []
  local_critical_files (some root) = full_path_of root local_configuration_file ∷ []

  unfoldable pub get_critical_files : Configuration → List CriticalFile
  unfolding full_path_of local_critical_files
  get_critical_files c =
      full_path_of c.project_root configuration_file
      ∷ (local_critical_files (local_root machine c)
          ++ map (λ other. full_path_of other "") c.other_critical_files)

  arguments_of : Configuration → StartArguments → List SearchPathElement → Arguments
  arguments_of c start source_directories = record {
    log_path = log_directory machine c;
    global_root = c.project_root;
    checked_directory_allowlist =
        map element_path source_directories ++ get_existent_do_not_ignore_errors_in_paths machine c;
    checked_directory_blocklist = get_existent_ignore_all_errors_paths machine c;
    critical_files = get_critical_files c;
    debug = start.debug;
    excludes = c.excludes;
    extensions = get_valid_extension_suffixes c;
    local_root = local_root machine c;
    number_of_workers = get_number_of_workers machine c;
    parallel = not start.sequential;
    saved_state_action =
        if start.no_saved_state then none else get_saved_state_action start c.relative_local_root;
    search_paths = get_existent_search_paths machine c;
    show_error_traces = start.show_error_traces;
    source_paths = source_directories;
    store_type_check_resolution = start.store_type_check_resolution;
    strict = c.strict;
    taint_models_path = c.taint_models_path;
    watchman_root =
        if start.no_watchman
        then none
        else Option.map (λ d. path_text (directory_path d))
            (find_watchman_root disk (directory_of c.project_root));
  }

  with_sources :
      Configuration → StartArguments → List SearchPathElement → Result StartError Arguments
  unfolding arguments_of
  with_sources c start [] = err no_source_directories
  with_sources c start (d ∷ ds) = ok (arguments_of c start (d ∷ ds))

  unfoldable pub create_server_arguments :
      Configuration → StartArguments → Result StartError Arguments
  unfolding with_sources
  create_server_arguments c start = with_sources c start (get_existent_source_directories machine c)

-- `Path(project_root).name`, which is empty for the root.
last_part : List String → String
last_part [] = ""
last_part (x ∷ []) = x
last_part (x ∷ y ∷ rest) = last_part (y ∷ rest)

unfoldable pub get_server_identifier : Configuration → String
unfolding last_part
get_server_identifier c =
    let global_identifier = last_part (path c.project_root).parts in
    elim c.relative_local_root [
      | none ↦ global_identifier
      | some relative ↦ String.◌++◌ global_identifier (String.◌∷◌ slash relative)
    ]
