-- ===== src/UpgradeConfiguration/Contents.antt =====
-- What is written of a configuration, key by key.
use pyre_check.Json.{Json, null, bool, array, string, Fields, end, field, get, get-remove}
use pyre_check.UpgradeConfiguration.{
  Configuration, get_contents, set_key, update_contents, configuration_of, set_version,
}
use pyre_check.Base.{
  String, ◌==◌, if◌then◌else◌, ◌≡◌, refl, ◌∙◌, ap, sym, arith, eq_iff, inl, inr, Bool-cases,
}
use pyre_check.PathLib.{PurePath}

get-set_key :
    (key name : String) (value : Json) (contents : Fields)
    → get name (set_key key value contents) ≡ (if key == name then value else get name contents)
unfolding get set_key
get-set_key key name value end = refl
get-set_key key name value (field other old rest) =
    ground
      (arith, get-set_key key name value rest, eq_iff other key, eq_iff other name, eq_iff key name)

get-update_contents :
    (key name : String) (attribute : Json) (contents : Fields)
    → get name (update_contents key attribute contents)
      ≡ (if key == name then attribute else get name contents)
unfolding update_contents
get-update_contents key name null contents = get-remove key name contents
get-update_contents key name (bool b) contents = get-set_key key name (bool b) contents
get-update_contents key name (string s) contents = get-set_key key name (string s) contents
get-update_contents key name (array a) contents = get-set_key key name (array a) contents
get-update_contents key name (Json.int n) contents = get-set_key key name (Json.int n) contents
get-update_contents key name (Json.float f) contents = get-set_key key name (Json.float f) contents
get-update_contents key name (Json.dict d) contents = get-set_key key name (Json.dict d) contents

-- What an attribute is written as.
attribute_json : Configuration → String → Json
attribute_json c name =
    if "use_buck_source_database" == name
    then c.use_buck_source_database
    else if "use_buck_builder" == name
    then c.use_buck_builder
    else if "strict" == name
    then c.strict
    else if "version" == name
    then c.version
    else if "source_directories" == name
    then c.source_directories
    else if "targets" == name
    then c.targets
    else get name c.original_contents

behind :
    (key name : String) (value : Json) {x y : Json}
    → x ≡ y
    → (if key == name then value else x) ≡ (if key == name then value else y)
behind key name value same = ap (λ j. if key == name then value else j) same

get-get_contents :
    (c : Configuration) (name : String) → get name (get_contents c) ≡ attribute_json c name
unfolding get_contents attribute_json
get-get_contents c name =
    let targets = update_contents "targets" c.targets c.original_contents in
    let directories = update_contents "source_directories" c.source_directories targets in
    let version = update_contents "version" c.version directories in
    let strict = update_contents "strict" c.strict version in
    let builder = update_contents "use_buck_builder" c.use_buck_builder strict in
    get-update_contents "use_buck_source_database" name c.use_buck_source_database builder
    ∙ behind "use_buck_source_database" name c.use_buck_source_database (
        get-update_contents "use_buck_builder" name c.use_buck_builder strict
        ∙ behind "use_buck_builder" name c.use_buck_builder (
            get-update_contents "strict" name c.strict version
            ∙ behind "strict" name c.strict (
                get-update_contents "version" name c.version directories
                ∙ behind "version" name c.version (
                    get-update_contents "source_directories" name c.source_directories targets
                    ∙ behind "source_directories" name c.source_directories
                        (get-update_contents "targets" name c.targets c.original_contents)))))

-- Where the test holds for the key, and elsewhere.
if_same :
    (key name : String) {x y : Json} (contents : Fields)
    → x ≡ get key contents
    → y ≡ get name contents
    → (if key == name then x else y) ≡ get name contents
if_same key name contents here there = elim (Bool-cases (key == name)) [
  | inl same ↦ rw same (here ∙ ap (λ k. get k contents) ((eq_iff key name).0 same))
  | inr apart ↦ rw apart there
]

-- The attributes are what the contents have.
record IsAsRead (c : Configuration) : Type 0 where
  strict : c.strict ≡ get "strict" c.original_contents
  targets : c.targets ≡ get "targets" c.original_contents
  source_directories : c.source_directories ≡ get "source_directories" c.original_contents
  version : c.version ≡ get "version" c.original_contents
  use_buck_builder : c.use_buck_builder ≡ get "use_buck_builder" c.original_contents
  use_buck_source_database :
      c.use_buck_source_database ≡ get "use_buck_source_database" c.original_contents

get_contents-IsAsRead :
    (c : Configuration) (name : String)
    → IsAsRead c
    → get name (get_contents c) ≡ get name c.original_contents
unfolding attribute_json
get_contents-IsAsRead c name h =
    let json = c.original_contents in
    get-get_contents c name
    ∙ if_same "use_buck_source_database" name json h.use_buck_source_database (
        if_same "use_buck_builder" name json h.use_buck_builder (
          if_same "strict" name json h.strict (
            if_same "version" name json h.version (
              if_same "source_directories" name json h.source_directories
                (if_same "targets" name json h.targets refl)))))

-- A configuration that is read and written back without a change has the value that was read at each
-- key, of whatever type; a key that is missing reads as null.
pub get_contents-configuration_of :
    (location : PurePath) (json_contents : Fields) (name : String)
    → get name (get_contents (configuration_of location json_contents)) ≡ get name json_contents
unfolding configuration_of
get_contents-configuration_of location json_contents name =
    get_contents-IsAsRead (configuration_of location json_contents) name (record {
      strict = refl;
      targets = refl;
      source_directories = refl;
      version = refl;
      use_buck_builder = refl;
      use_buck_source_database = refl;
    })

-- Setting the version changes what is written at that key and nowhere else.
pub get_contents-set_version :
    (version : String) (c : Configuration) (name : String)
    → get name (get_contents (set_version version c))
      ≡ (if "version" == name then string version else get name (get_contents c))
unfolding set_version attribute_json
get_contents-set_version version c name = elim (Bool-cases ("version" == name)) [
  | inl same ↦
      get-get_contents (set_version version c) name
      ∙ ap (attribute_json (set_version version c)) (sym ((eq_iff "version" name).0 same))
      ∙ rw same refl
  | inr apart ↦
      get-get_contents (set_version version c) name
      ∙ rw apart (sym (rw apart at (get-get_contents c name)))
]
