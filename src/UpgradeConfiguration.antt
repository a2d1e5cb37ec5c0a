-- ===== src/UpgradeConfiguration.antt =====
-- The configurations that the upgrade tool rewrites (tools/upgrade/configuration.py).
pub mod Contents
pub mod Deduplicated
pub mod Members
pub mod Expansions
use pyre_check.Json
use mathlib.Core.Option
use pyre_check.Json.{
  Json, null, bool, array, string, Fields, end, field, Items, nil, cons, get, remove, as_bool?,
  as_string?,
}
use pyre_check.PathLib.{PurePath, path_text}
use pyre_check.SourceDatabase.{last_name}
use pyre_check.Base.{
  zero, List, [], ◌∷◌, ◌++◌, Option, some, none, Result, ok, err, ◌>>=◌, ◌>>◌, Bool, true, false,
  String, ◌==◌, if◌then◌else◌, map, pos, not,
}

-- The attributes are what the contents have, of whatever type, or None, which is null; `root` is the
-- parent of the location.
pub record Configuration : Type 0 where
  pub location : PurePath
  pub is_local : Bool
  pub original_contents : Fields
  pub strict : Json
  pub targets : Json
  pub source_directories : Json
  pub version : Json
  pub differential : Json
  pub use_buck_builder : Json
  pub use_buck_source_database : Json

-- `json_contents.get("differential", False)`
differential_of : Fields → Json
differential_of contents =
    if Json.contains "differential" contents then get "differential" contents else bool false

-- `__init__`, with the JSON of the file or of the argument.
unfoldable pub configuration_of : PurePath → Fields → Configuration
unfolding differential_of
configuration_of location json_contents = record {
  location = location;
  is_local = last_name location.parts == ".pyre_configuration.local";
  original_contents = json_contents;
  strict = get "strict" json_contents;
  targets = get "targets" json_contents;
  source_directories = get "source_directories" json_contents;
  version = get "version" json_contents;
  differential = differential_of json_contents;
  use_buck_builder = get "use_buck_builder" json_contents;
  use_buck_source_database = get "use_buck_source_database" json_contents;
}

-- `contents[key] = value`
unfoldable pub set_key : String → Json → Fields → Fields
set_key key value end = field key value end
set_key key value (field name old rest) =
    let later = set_key key value rest in
    if name == key then field name value rest else field name old later

-- `update_contents`; None is null.
unfoldable pub update_contents : String → Json → Fields → Fields
unfolding set_key
update_contents key null contents = remove key contents
update_contents key attribute contents = set_key key attribute contents

unfoldable pub text_items : List String → Items
text_items [] = nil
text_items (text ∷ texts) = cons (string text) (text_items texts)

-- What is written; it is also what `original_contents` is from then on.
unfoldable pub get_contents : Configuration → Fields
unfolding update_contents
get_contents c = update_contents "use_buck_source_database" c.use_buck_source_database (
    update_contents "use_buck_builder" c.use_buck_builder (
      update_contents "strict" c.strict (
        update_contents "version" c.version (
          update_contents "source_directories" c.source_directories
            (update_contents "targets" c.targets c.original_contents)))))

unfoldable pub set_version : String → Configuration → Configuration
set_version version c = record c { version = string version }

unfoldable pub enable_source_database_buck_builder : Configuration → Configuration
enable_source_database_buck_builder c = record c {
  use_buck_builder = bool true;
  use_buck_source_database = bool true;
}

-- AttributeError or TypeError, for targets that are no list of texts.
pub data Unusable : Type 0 where
  unusable : Unusable

unfoldable pub append_items : Items → Items → Items
append_items nil others = others
append_items (cons item items) others = cons item (append_items items others)

-- `existing_targets.extend(targets)`, which lists alone have.
unfoldable pub extended : Json → List String → Result Unusable Json
unfolding append_items text_items
extended (array items) targets = ok (array (append_items items (text_items targets)))
extended _ targets = err unusable

-- `is_zero` tells of the literal of a float whether its value is 0.
module _ (is_zero : String → Bool) where
  -- Python's truth of a value.
  unfoldable pub is_truthy : Json → Bool
  is_truthy null = false
  is_truthy (bool b) = b
  is_truthy (Json.int (pos zero)) = false
  is_truthy (Json.int n) = true
  is_truthy (Json.float literal) = not (is_zero literal)
  is_truthy (string text) = not (text == "")
  is_truthy (array nil) = false
  is_truthy (array items) = true
  is_truthy (Json.dict end) = false
  is_truthy (Json.dict fields) = true

  unfoldable pub remove_version : Configuration → Configuration
  unfolding is_truthy
  remove_version c = if is_truthy c.version then record c { version = null } else c

  unfoldable pub add_strict : Configuration → Configuration
  unfolding is_truthy
  add_strict c = if is_truthy c.strict then c else record c { strict = bool true }

  unfoldable pub add_targets : List String → Configuration → Result Unusable Configuration
  unfolding is_truthy extended
  add_targets targets c =
      if is_truthy c.targets
      then (extended c.targets targets >>= λ more. ok (record c { targets = more }))
      else ok (record c { targets = array (text_items targets) })
