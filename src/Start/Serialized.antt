-- ===== src/Start/Serialized.antt =====
-- About Arguments.serialize (client/commands/v2/start.py).
use pyre_check.Start.{
  serialize, SavedStateAction, Arguments, saved_state_json, element_texts, texts, list_json,
  critical_file_json,
}
use pyre_check.Json.{null, Fields, Json, get, string, bool, array}
use pyre_check.Base.{◌≡◌, some, none, Option, arith, String}
use pyre_check.JsonRpc.{int_json}

-- A text, or null where there is none.
abbrev pub text_or_null : Option String → Json
text_or_null none = null
text_or_null (some t) = string t

abbrev pub action_or_null : Option SavedStateAction → Json
action_or_null none = null
action_or_null (some action) = saved_state_json action

-- What a reader finds under the keys.
pub record Reads (json : Fields) (a : Arguments) : Type 0 where
  pub source_paths : get "source_paths" json ≡ element_texts a.source_paths
  pub search_paths : get "search_paths" json ≡ element_texts a.search_paths
  pub excludes : get "excludes" json ≡ texts a.excludes
  pub allowed : get "checked_directory_allowlist" json ≡ texts a.checked_directory_allowlist
  pub blocked : get "checked_directory_blocklist" json ≡ texts a.checked_directory_blocklist
  pub extensions : get "extensions" json ≡ texts a.extensions
  pub log_path : get "log_path" json ≡ string a.log_path
  pub global_root : get "global_root" json ≡ string a.global_root
  pub local_root : get "local_root" json ≡ text_or_null a.local_root
  pub watchman_root : get "watchman_root" json ≡ text_or_null a.watchman_root
  pub taint_model_paths : get "taint_model_paths" json ≡ texts a.taint_models_path
  pub debug : get "debug" json ≡ bool a.debug
  pub strict : get "strict" json ≡ bool a.strict
  pub show_error_traces : get "show_error_traces" json ≡ bool a.show_error_traces
  pub critical_files :
      get "critical_files" json ≡ array (list_json critical_file_json a.critical_files)
  pub saved_state_action : get "saved_state_action" json ≡ action_or_null a.saved_state_action
  pub store_type_check_resolution :
      get "store_type_check_resolution" json ≡ bool a.store_type_check_resolution
  pub parallel : get "parallel" json ≡ bool a.parallel
  pub number_of_workers : get "number_of_workers" json ≡ int_json a.number_of_workers

-- The JSON that the arguments are written as has each of them under its key, and null or no key for a
-- local root, a watchman root or a saved state that is not set.
pub serialize-Reads : (a : Arguments) → Reads (serialize a) a
unfolding serialize get
serialize-Reads a = ground arith
