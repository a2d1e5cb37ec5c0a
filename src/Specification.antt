-- ===== src/Specification.antt =====
-- tools/incremental_test/specification.py: what an incremental test starts from and what it changes,
-- to and from JSON. The commands that carry the changes out are not modelled.
pub mod Updates
pub mod States
use pyre_check.Json.{
  cons, nil, null, array, string, dict, int, float, bool, end, field, Fields, Json, Items, contains,
  elements, get,
}
use pyre_check.Base.{
  [], ◌∷◌, ◌++◌, List, refl, ◌≡◌, some, none, Option, true, false, Bool, arith, String, ◌==◌, ap,
  ok, err, Result, inl, inr, ◌>>=◌, ◌>>◌, if◌then◌else◌, map, map_ok,
}
use pyre_check.PathLib.{PurePath, path, path_text}

-- InvalidSpecificationException, and the TypeError that indexing what is no dict raises.
pub data SpecificationError : Type 0 where
  invalid type_error : SpecificationError

abbrev pub Specified {ℓ} : Type ℓ → Type ℓ
Specified A = Result SpecificationError A

pub data SingleUpdate : Type 0 where
  hg : (commit_hash : Json) → SingleUpdate
  patch : (patch_text patch_flags : Json) → SingleUpdate
  file : (changes : Fields) (removals : Items) → SingleUpdate

pub data RepositoryUpdate : Type 0 where
  single : SingleUpdate → RepositoryUpdate
  batch : List SingleUpdate → RepositoryUpdate

pub data RepositoryState : Type 0 where
  hg_state : (repository : PurePath) (commit_hash : Json) → RepositoryState
  file_state : (files : Fields) → RepositoryState
  updated : (base : RepositoryState) (updates : List RepositoryUpdate) → RepositoryState

unfoldable pub update_steps : RepositoryUpdate → List SingleUpdate
update_steps (single update) = update ∷ []
update_steps (batch updates) = updates

-- `input_json[key]`, whose KeyError is caught.
unfoldable pub required : String → Fields → Specified Json
required key json = if contains key json then ok (get key json) else err invalid

-- `input_json.get(key, default)`
unfoldable pub or_default : String → Json → Fields → Json
or_default key default json = if contains key json then get key json else default

as_dict : Json → Specified Fields
as_dict (dict fields) = ok fields
as_dict _ = err invalid

as_list : Json → Specified Items
as_list (array items) = ok items
as_list _ = err invalid

changed : Fields → Items → Specified RepositoryUpdate
changed end nil = err invalid
changed changes removals = ok (single (file changes removals))

unfoldable pub file_update : Fields → Specified RepositoryUpdate
unfolding as_dict as_list changed
file_update json = do
  changes ← as_dict (or_default "changes" (dict end) json)
  removals ← as_list (or_default "removals" (array nil) json)
  changed changes removals

-- `value == text`
unfoldable pub is_text : String → Json → Bool
is_text text (string s) = s == text
is_text text _ = false

-- The kinds of RepositoryUpdate.from_json, with what a batch's updates give.
unfoldable pub update_of_kind :
    Fields → Specified (List SingleUpdate) → Json → Specified RepositoryUpdate
unfolding is_text file_update required or_default
update_of_kind json steps kind =
    if is_text "hg" kind
    then required "commit_hash" json >>= (λ commit_hash. ok (single (hg commit_hash)))
    else if is_text "patch" kind
    then required "patch" json
      >>= (λ text. ok (single (patch text (or_default "patch_flags" (string "") json))))
    else if is_text "file" kind
    then file_update json
    else if is_text "batch" kind
    then steps >>= (λ updates. ok (batch updates))
    else err invalid

-- RepositoryUpdate.from_json. `steps_of_fields` looks for the updates of a batch in the fields, and
-- reads them; only a batch asks for it.
unfoldable mutual
  unfolding update_of_kind update_steps required

  pub update_from_json : Json → Specified RepositoryUpdate
  update_from_json (dict json) = required "kind" json >>= update_of_kind json (steps_of_fields json)
  update_from_json _ = err type_error

  pub steps_of_fields : Fields → Specified (List SingleUpdate)
  steps_of_fields end = err invalid
  steps_of_fields (field key value rest) =
      if key == "updates" then steps_of_value value else steps_of_fields rest

  pub steps_of_value : Json → Specified (List SingleUpdate)
  steps_of_value (array items) = steps_of_items items
  steps_of_value _ = err invalid

  pub steps_of_items : Items → Specified (List SingleUpdate)
  steps_of_items nil = ok []
  steps_of_items (cons json rest) = update_from_json json >>= λ update.
      steps_of_items rest >>= λ later. ok (update_steps update ++ later)

unfoldable pub single_to_json : SingleUpdate → Json
single_to_json (hg commit_hash) =
    dict (field "kind" (string "hg") (field "commit_hash" commit_hash end))
single_to_json (patch text flags) =
    dict (field "kind" (string "patch") (field "patch" text (field "patch_flags" flags end)))
single_to_json (file changes removals) = dict (
    field "kind" (string "file")
      (field "changes" (dict changes) (field "removals" (array removals) end)))

unfoldable pub items_of : List Json → Items
items_of [] = nil
items_of (x ∷ xs) = cons x (items_of xs)

unfoldable pub update_to_json : RepositoryUpdate → Json
unfolding single_to_json items_of
update_to_json (single update) = single_to_json update
update_to_json (batch updates) = dict (
    field "kind" (string "batch")
      (field "updates" (array (items_of (map single_to_json updates))) end))

-- The exceptions of an update, and of `Path`, are caught where a state is read.
caught : {A : Type 0} → Specified A → Specified A
caught (ok a) = ok a
caught (err e) = err invalid

to_path : Json → Specified PurePath
to_path (string s) = ok (path s)
to_path _ = err invalid

unfoldable pub hg_state_of : Fields → Specified RepositoryState
unfolding to_path
hg_state_of json = do
  text ← required "repository" json
  repository ← to_path text
  commit_hash ← required "commit_hash" json
  ok (hg_state repository commit_hash)

unfoldable pub file_state_of : Fields → Specified RepositoryState
unfolding as_dict
file_state_of json = do value ← required "files" json; files ← as_dict value; ok (file_state files)

unfoldable pub updated_of : Fields → Specified RepositoryState → Specified RepositoryState
unfolding as_list caught
updated_of json base_state = do
  value ← required "updates" json
  items ← as_list value
  base ← base_state
  updates ← caught (map_ok update_from_json (elements items))
  ok (updated base updates)

unfoldable pub state_of_kind : Fields → Specified RepositoryState → Json → Specified RepositoryState
unfolding is_text hg_state_of file_state_of updated_of
state_of_kind json base kind =
    if is_text "hg" kind
    then hg_state_of json
    else if is_text "file" kind
    then file_state_of json
    else if is_text "updated" kind
    then updated_of json base
    else err invalid

-- RepositoryState.from_json; `base_of_fields` reads the base of an updated state.
unfoldable mutual
  unfolding state_of_kind required

  pub state_from_json : Json → Specified RepositoryState
  state_from_json (dict json) = required "kind" json >>= state_of_kind json (base_of_fields json)
  state_from_json _ = err invalid

  pub base_of_fields : Fields → Specified RepositoryState
  base_of_fields end = err invalid
  base_of_fields (field key value rest) =
      if key == "base" then state_from_json value else base_of_fields rest

unfoldable pub state_to_json : RepositoryState → Json
unfolding items_of update_to_json
state_to_json (hg_state repository commit_hash) = dict (
    field "kind" (string "hg")
      (field "repository" (string (path_text repository)) (field "commit_hash" commit_hash end)))
state_to_json (file_state files) =
    dict (field "kind" (string "file") (field "files" (dict files) end))
state_to_json (updated base updates) = dict (
    field "kind" (string "updated") (
      field "base" (state_to_json base)
        (field "updates" (array (items_of (map update_to_json updates))) end)))
