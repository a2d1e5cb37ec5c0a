-- ===== src/Configuration/Resolved.antt =====
-- Configuration: what a partial configuration stands for, and its queries
-- (client/configuration.py). Logging is not modelled.
pub mod Queries
use mathlib.Core.Option
use Prim.Native.String
use Prim.Native.Char.{Char, code}
use pyre_check.Base.{
  [], ◌∷◌, ◌++◌, List, refl, ◌≡◌, some, none, Option, true, false, Bool, arith, String, ◌==◌, ap,
  ok, err, Result, inl, inr, ◌>>=◌, ◌>>◌, eqb, if◌then◌else◌, keep, ℕ, map, ◌&&◌, pos, ltb, max,
  negsuc, ◌-◌,
}
use pyre_check.Configuration.Elements.{
  SearchPathElement, expand_global_root, os_path_join, ExtensionElement, element_path, simple,
  with_root,
}
use pyre_check.Json.{PythonInt, number, truth}
use pyre_check.PathLib.{PurePath, path_text, ◌/◌, path}
use pyre_check.Configuration.Partial.{PartialConfiguration}

-- What the queries ask of the machine. `expand_glob` is glob.glob, `binary_in_path` is shutil.which,
-- `script_directory` the directory of `sys.argv[0]`, `processors` multiprocessing.cpu_count or its
-- NotImplementedError, `version_override` the variable PYRE_VERSION_HASH, `found_typeshed` the answer
-- of find_typeshed, and `typeshed_paths` that of find_typeshed_search_paths, as texts.
pub record Machine : Type 0 where
  pub home : String → String
  pub exists : String → Bool
  pub expand_glob : String → List String
  pub binary_in_path : String → Option String
  pub script_directory : String
  pub processors : Option ℕ
  pub version_override : Option String
  pub found_typeshed : Option String
  pub typeshed_paths : String → List String
  pub in_virtual_environment : Bool
  pub site_roots : List String

pub record Configuration : Type 0 where
  pub project_root : String
  pub dot_pyre_directory : PurePath
  pub autocomplete : Bool
  pub binary : Option String
  pub buck_builder_binary : Option String
  pub disabled : Bool
  pub do_not_ignore_all_errors_in : List String
  pub excludes : List String
  pub extensions : List ExtensionElement
  pub file_hash : Option String
  pub formatter : Option String
  pub ignore_all_errors : List String
  pub ignore_infer : List String
  pub isolation_prefix : Option String
  pub logger : Option String
  pub number_of_workers : Option PythonInt
  pub other_critical_files : List String
  pub relative_local_root : Option String
  pub search_path : List SearchPathElement
  pub source_directories : List SearchPathElement
  pub strict : Bool
  pub taint_models_path : List String
  pub targets : List String
  pub typeshed : Option String
  pub use_buck_builder : Bool
  pub use_buck_source_database : Bool
  pub version_hash : Option String

-- `_get_optional_value`
abbrev pub value_or {ℓ} : {A : Type ℓ} → Option A → A → A
value_or none default = default
value_or (some value) default = value

is_empty {ℓ} : {A : Type ℓ} → List A → Bool
is_empty [] = true
is_empty (_ ∷ _) = false

-- `path.startswith(".")`
dotted : String → Bool
dotted String.[] = false
dotted (String.◌∷◌ c s) = eqb (code c) b'.'

abbrev pub or_else {ℓ} : {A : Type ℓ} → Option A → Option A → Option A
or_else none other = other
or_else (some a) other = some a

-- `value > 0`, where True is 1.
abbrev pub is_positive : PythonInt → Bool
is_positive (number (pos n)) = ltb 0 n
is_positive (number (negsuc n)) = false
is_positive (truth b) = b

module _ (machine : Machine) where
  open machine use {home, exists, expand_glob, binary_in_path}

  -- Without a search path a virtual environment's site packages are searched.
  default_search_path : List SearchPathElement → List SearchPathElement
  unfolding is_empty
  default_search_path paths =
      if is_empty paths && machine.in_virtual_environment
      then map simple machine.site_roots
      else paths

  unfoldable pub from_partial_configuration :
      PurePath → Option String → PartialConfiguration → Configuration
  unfolding default_search_path
  from_partial_configuration project_root relative_local_root partial =
      let root = path_text project_root in
      record {
        project_root = root;
        dot_pyre_directory = value_or partial.dot_pyre_directory (project_root / path ".pyre");
        autocomplete = value_or partial.autocomplete false;
        binary = partial.binary;
        buck_builder_binary = partial.buck_builder_binary;
        disabled = value_or partial.disabled false;
        do_not_ignore_all_errors_in = partial.do_not_ignore_all_errors_in;
        excludes = partial.excludes;
        extensions = partial.extensions;
        file_hash = partial.file_hash;
        formatter = partial.formatter;
        ignore_all_errors = partial.ignore_all_errors;
        ignore_infer = partial.ignore_infer;
        isolation_prefix = partial.isolation_prefix;
        logger = partial.logger;
        number_of_workers = partial.number_of_workers;
        other_critical_files = partial.other_critical_files;
        relative_local_root = relative_local_root;
        search_path =
            map (with_root (λ p. expand_global_root home p root))
              (default_search_path partial.search_path);
        source_directories = value_or partial.source_directories [];
        strict = value_or partial.strict false;
        taint_models_path = partial.taint_models_path;
        targets = value_or partial.targets [];
        typeshed = partial.typeshed;
        use_buck_builder = value_or partial.use_buck_builder false;
        use_buck_source_database = value_or partial.use_buck_source_database false;
        version_hash = partial.version_hash;
      }

  unfoldable pub log_directory : Configuration → String
  log_directory c = elim c.relative_local_root [
    | none ↦ path_text c.dot_pyre_directory
    | some relative ↦ path_text (c.dot_pyre_directory / path relative)
  ]

  unfoldable pub local_root : Configuration → Option String
  local_root c = Option.map (os_path_join c.project_root) c.relative_local_root

  unfoldable pub existent_paths : List SearchPathElement → List SearchPathElement
  existent_paths = keep (λ element. exists (element_path element))

  unfoldable pub get_existent_source_directories : Configuration → List SearchPathElement
  get_existent_source_directories c = existent_paths c.source_directories

  unfoldable pub get_typeshed_respecting_override : Configuration → Option String
  get_typeshed_respecting_override c = elim c.typeshed [
    | none ↦ machine.found_typeshed
    | some typeshed ↦ some typeshed
  ]

  typeshed_elements : Option String → List SearchPathElement
  typeshed_elements none = []
  typeshed_elements (some root) = map simple (machine.typeshed_paths root)

  unfoldable pub get_existent_search_paths : Configuration → List SearchPathElement
  unfolding existent_paths typeshed_elements
  get_existent_search_paths c =
      existent_paths c.search_path ++ typeshed_elements (get_typeshed_respecting_override c)

  unfoldable pub get_existent_ignore_infer_paths : Configuration → List String
  get_existent_ignore_infer_paths c = keep exists c.ignore_infer

  unfoldable pub get_existent_do_not_ignore_errors_in_paths : Configuration → List String
  get_existent_do_not_ignore_errors_in_paths c =
      keep exists
        (map (λ p. expand_global_root home p c.project_root) c.do_not_ignore_all_errors_in)

  -- A pattern that matches nothing stands for itself.
  globbed : String → List String → List String
  globbed pattern [] = pattern ∷ []
  globbed pattern (match ∷ matches) = match ∷ matches

  expand_ignored : String → List String → List String
  unfolding globbed
  expand_ignored project_root [] = []
  expand_ignored project_root (p ∷ rest) =
      globbed p (expand_glob (expand_global_root home p project_root))
      ++ expand_ignored project_root rest

  unfoldable pub expand_and_get_existent_ignore_all_errors_path : List String → String → List String
  unfolding expand_ignored
  expand_and_get_existent_ignore_all_errors_path ignore_all_errors project_root =
      keep exists (expand_ignored project_root ignore_all_errors)

  unfoldable pub get_existent_ignore_all_errors_paths : Configuration → List String
  get_existent_ignore_all_errors_paths c =
      expand_and_get_existent_ignore_all_errors_path c.ignore_all_errors c.project_root

  unfoldable pub get_binary_respecting_override : Configuration → Option String
  get_binary_respecting_override c = or_else c.binary (
      or_else (binary_in_path "pyre.bin")
        (binary_in_path (os_path_join machine.script_directory "pyre.bin")))

  -- An empty variable does not override.
  unfoldable pub get_version_hash_respecting_override : Configuration → Option String
  get_version_hash_respecting_override c = elim machine.version_override [
    | none ↦ c.version_hash
    | some version ↦ if version == "" then c.version_hash else some version
  ]

  default_number_of_workers : Option ℕ → PythonInt
  default_number_of_workers none = number (pos 4)
  default_number_of_workers (some processors) = number (pos (max (processors - 4) 1))

  unfoldable pub get_number_of_workers : Configuration → PythonInt
  unfolding default_number_of_workers
  get_number_of_workers c = elim c.number_of_workers [
    | none ↦ default_number_of_workers machine.processors
    | some workers ↦
        if is_positive workers then workers else default_number_of_workers machine.processors
  ]

unfoldable pub get_valid_extension_suffixes : Configuration → List String
unfolding dotted
get_valid_extension_suffixes c = keep dotted (map (λ extension. extension.suffix) c.extensions)

unfoldable pub get_isolation_prefix_respecting_override : Configuration → Option String
get_isolation_prefix_respecting_override c = elim c.isolation_prefix [
  | none ↦ none
  | some prefix ↦ if prefix == "" then none else some prefix
]
