-- ===== src/Configuration/Parse.antt =====
-- PartialConfiguration.from_string (client/configuration.py). The dict is mutated as its keys are
-- popped, so an action has the dict that is left behind beside its value.
pub mod Warnings
use mathlib.Core.Option
use pyre_check.Base.{
  [], ◌∷◌, ◌++◌, List, refl, ◌≡◌, some, none, Option, true, false, Bool, arith, String, ◌==◌, ap,
  ok, err, Result, inl, inr, ◌>>=◌, ◌>>◌, if◌then◌else◌, map_ok, any,
}
use pyre_check.Configuration.Elements.{
  Checked, ExtensionElement, SearchPathElement, wrong_type, create_search_paths,
  extension_from_json, invalid_json, not_a_dict,
}
use pyre_check.Json.{
  Fields, Items, Json, array, cons, get, remove, string, as_array?, contains, elements, nil, keys,
  null, as_string?, as_bool?, dict, as_int?,
}
use pyre_check.Configuration.Partial.{PartialConfiguration}
use pyre_check.PathLib.{path}

abbrev pub Pop : Type 0 → Type 0
Pop A = Fields → Checked A × Fields

module _ {A B : Type 0} where
  abbrev pub continue : Checked A → (A → Pop B) → Pop B
  continue (ok a) f json = f a json
  continue (err e) f json = (err e, json)

  infixl 5 ◌>>>=◌
  unfoldable pub ◌>>>=◌ : Pop A → (A → Pop B) → Pop B
  ◌>>>=◌ m f json = continue (m json).0 f (m json).1

unfoldable pub pure : {A : Type 0} → A → Pop A
pure a json = (ok a, json)

-- `json.pop(name, None)`, and what `check` makes of the value.
unfoldable pub popped : {A : Type 0} → String → (Json → Checked A) → Pop A
popped name check json = (check (get name json), remove name json)

-- `json.pop(name, [])`
abbrev pub get_or_empty : String → Fields → Json
get_or_empty name json = if contains name json then get name json else array nil

unfoldable pub popped_list : {A : Type 0} → String → (Json → Checked A) → Pop A
popped_list name check json = (check (get_or_empty name json), remove name json)

required : {A : Type 0} → String → Option A → Checked (Option A)
required name none = err (wrong_type name)
required name (some a) = ok (some a)

-- `ensure_option_type`, for the values that `read` finds to have the type.
unfoldable pub option_of : {A : Type 0} → String → (Json → Option A) → Json → Checked (Option A)
unfolding required
option_of name read null = ok none
option_of name read value = required name (read value)

-- `is_list_of_string`, with the strings.
unfoldable pub string_items : Items → Option (List String)
string_items nil = some []
string_items (cons (string s) rest) = Option.map (λ l. s ∷ l) (string_items rest)
string_items (cons _ rest) = none

unfoldable pub as_strings? : Json → Option (List String)
unfolding string_items
as_strings? (array items) = string_items items
as_strings? _ = none

unfoldable pub list_or_error : {A : Type 0} → String → Option A → Checked A
list_or_error name none = err (wrong_type name)
list_or_error name (some a) = ok a

-- `ensure_string_list`, whose flag lets a single string stand for a list of it.
unfoldable pub strings_of : String → Bool → Json → Checked (List String)
unfolding list_or_error
strings_of name true (string s) = ok (s ∷ [])
strings_of name allow_single_string value = list_or_error name (as_strings? value)

unfoldable pub concat_ok : {A B : Type 0} → (A → Checked (List B)) → List A → Checked (List B)
concat_ok f [] = ok []
concat_ok f (x ∷ xs) = f x >>= λ ys. concat_ok f xs >>= λ zs. ok (ys ++ zs)

unfoldable pub extensions_of : Json → Checked (List ExtensionElement)
extensions_of (array items) = map_ok extension_from_json (elements items)
extensions_of _ = err (wrong_type "extensions")

-- The file hash is wanted if the document has a saved state that is not null.
unfoldable pub has_saved_state : Json → Checked Bool
has_saved_state null = ok false
has_saved_state _ = ok true

module _ (site_roots : List String) where
  unfoldable pub paths_of_items : Items → Checked (List SearchPathElement)
  unfolding concat_ok
  paths_of_items items = concat_ok (λ json. create_search_paths json site_roots) (elements items)

  unfoldable pub search_path_of : Json → Checked (List SearchPathElement)
  unfolding paths_of_items
  search_path_of (array items) = paths_of_items items
  search_path_of json = create_search_paths json site_roots

  optional_paths : Option Items → Checked (Option (List SearchPathElement))
  unfolding paths_of_items
  optional_paths none = ok none
  optional_paths (some items) = paths_of_items items >>= λ paths. ok (some paths)

  unfoldable pub source_directories_of : Json → Checked (Option (List SearchPathElement))
  unfolding optional_paths
  source_directories_of json = option_of "source_directories" as_array? json >>= optional_paths

  abbrev option : {A : Type 0} → String → (Json → Option A) → Pop (Option A)
  option name read = popped name (option_of name read)

  abbrev string_list : String → Bool → Pop (List String)
  string_list name allow_single_string = popped_list name (strings_of name allow_single_string)

  -- What the document gives once it is decoded; `digest` is the SHA-1 of its text.
  unfoldable pub parse_fields : String → Pop PartialConfiguration
  parse_fields digest = popped "saved_state" has_saved_state >>>= λ saved.
      option "dot_pyre_directory" as_string? >>>= λ dot_pyre_directory.
      popped_list "search_path" search_path_of >>>= λ search_path.
      popped "source_directories" source_directories_of >>>= λ source_directories.
      option "autocomplete" as_bool? >>>= λ autocomplete. option "binary" as_string? >>>= λ binary.
      option "buck_builder_binary" as_string? >>>= λ buck_builder_binary.
      option "disabled" as_bool? >>>= λ disabled.
      string_list "do_not_ignore_errors_in" false >>>= λ do_not_ignore_all_errors_in.
      string_list "exclude" true >>>= λ excludes.
      popped_list "extensions" extensions_of >>>= λ extensions.
      option "formatter" as_string? >>>= λ formatter.
      string_list "ignore_all_errors" false >>>= λ ignore_all_errors.
      string_list "ignore_infer" false >>>= λ ignore_infer.
      option "isolation_prefix" as_string? >>>= λ isolation_prefix.
      option "logger" as_string? >>>= λ logger. option "workers" as_int? >>>= λ number_of_workers.
      string_list "critical_files" false >>>= λ other_critical_files.
      option "strict" as_bool? >>>= λ strict.
      string_list "taint_models_path" true >>>= λ taint_models_path.
      popped "targets" (option_of "targets" as_strings?) >>>= λ targets.
      option "typeshed" as_string? >>>= λ typeshed.
      option "use_buck_builder" as_bool? >>>= λ use_buck_builder.
      option "use_buck_source_database" as_bool? >>>= λ use_buck_source_database.
      option "version" as_string? >>>= λ version_hash. pure (record {
        autocomplete = autocomplete;
        binary = binary;
        buck_builder_binary = buck_builder_binary;
        disabled = disabled;
        do_not_ignore_all_errors_in = do_not_ignore_all_errors_in;
        dot_pyre_directory = Option.map path dot_pyre_directory;
        excludes = excludes;
        extensions = extensions;
        file_hash = if saved then some digest else none;
        formatter = formatter;
        ignore_all_errors = ignore_all_errors;
        ignore_infer = ignore_infer;
        isolation_prefix = isolation_prefix;
        logger = logger;
        number_of_workers = number_of_workers;
        other_critical_files = other_critical_files;
        search_path = search_path;
        source_directories = source_directories;
        strict = strict;
        taint_models_path = taint_models_path;
        targets = targets;
        typeshed = typeshed;
        use_buck_builder = use_buck_builder;
        use_buck_source_database = use_buck_source_database;
        version_hash = version_hash;
      })

-- What the loader logs about the keys that are left.
pub data Warning : Type 0 where
  deprecated unrecognized : String → Warning

abbrev pub among : String → List String → Bool
among name names = any (λ other. other == name) names

-- `_get_depreacted_map` and `_get_extra_keys`.
abbrev pub deprecated_keys : List String
deprecated_keys = "do_not_check" ∷ []

abbrev pub extra_keys : List String
extra_keys =
    "buck_mode" ∷ "create_open_source_configuration" ∷ "differential" ∷ "oncall" ∷ "saved_state"
    ∷ "stable_client" ∷ "taint_models_path" ∷ "unstable_client" ∷ []

unfoldable pub warn_unrecognized : List String → List Warning
warn_unrecognized [] = []
warn_unrecognized (key ∷ rest) =
    let later = warn_unrecognized rest in
    if among key extra_keys then later else unrecognized key ∷ later

unfoldable pub warnings : Fields → List Warning
unfolding warn_unrecognized
warnings json =
    let later = warn_unrecognized (keys (remove "do_not_check" json)) in
    if contains "do_not_check" json then deprecated "do_not_check" ∷ later else later

unfoldable pub checked :
    Checked PartialConfiguration × Fields → Checked (PartialConfiguration × List Warning)
checked (ok partial, json) = ok (partial, warnings json)
checked (err e, json) = err e

-- `json.loads`, `hashlib.sha1` and `site.getsitepackages` are the environment's.
module _ (loads : String → Option Json) (sha1 : String → String) (site_roots : List String) where
  from_document : String → Option Json → Checked (PartialConfiguration × List Warning)
  from_document digest none = err invalid_json
  from_document digest (some (dict json)) = checked (parse_fields site_roots digest json)
  from_document digest (some _) = err not_a_dict

  unfoldable pub from_string : String → Checked (PartialConfiguration × List Warning)
  unfolding from_document
  from_string contents = from_document (sha1 contents) (loads contents)
