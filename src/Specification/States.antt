-- ===== src/Specification/States.antt =====
-- About the JSON of repository states (tools/incremental_test/specification.py).
use pyre_check.Specification.{
  as_dict, as_list, update_from_json, to_path, required, RepositoryState, caught, file_state_of,
  hg_state_of, state_from_json, state_of_kind, updated_of, Specified, state_to_json, base_of_fields,
  file_state, hg_state, invalid, items_of, updated, RepositoryUpdate, is_text, update_to_json,
}
use pyre_check.Specification.Updates.{update_from_json-update_to_json}
use pyre_check.PathLib.RoundTrip.{path-path_text-path}
use pyre_check.Base.{
  refl, [], ◌∷◌, List, ◌≡◌, ◌==◌, ok, err, inl, inr, map_ok, >>=-eq-ok, Bool-cases, subst, map,
}
use pyre_check.Json.{Json, Fields, string, dict, end, field, elements, contains, get}
use pyre_check.PathLib.{PurePath, path, path_text}

-- The JSON of a state is read back as that state.
abbrev Rereads : RepositoryState → Type 0
Rereads state = state_from_json (state_to_json state) ≡ ok state

to_path-rereads : (json : Json) (p : PurePath) → to_path json ≡ ok p → path (path_text p) ≡ p
unfolding to_path
to_path-rereads (string s) p h =
    let same : path s ≡ p = cc in subst (λ q. path (path_text q) ≡ q) same (path-path_text-path s)
to_path-rereads _ p h = cc

hg_state-Rereads :
    (p : PurePath) (commit_hash : Json) → path (path_text p) ≡ p → Rereads (hg_state p commit_hash)
unfolding state_from_json state_to_json contains get hg_state_of
hg_state-Rereads p commit_hash h = rw h

hg_state_of-Rereads :
    (json : Fields) (state : RepositoryState) → hg_state_of json ≡ ok state → Rereads state
unfolding hg_state_of
hg_state_of-Rereads json state h =
    let (text, _, h₁) = >>=-eq-ok (required "repository" json) _ h in
    let (p, is_path, h₂) = >>=-eq-ok (to_path text) _ h₁ in
    let (commit_hash, _, h₃) = >>=-eq-ok (required "commit_hash" json) _ h₂ in
    let same : hg_state p commit_hash ≡ state = cc (h₃) in
    subst Rereads same (hg_state-Rereads p commit_hash (to_path-rereads text p is_path))

file_state-Rereads : (files : Fields) → Rereads (file_state files)
unfolding state_from_json state_to_json contains get file_state_of
file_state-Rereads files = refl

file_state_of-Rereads :
    (json : Fields) (state : RepositoryState) → file_state_of json ≡ ok state → Rereads state
unfolding file_state_of
file_state_of-Rereads json state h =
    let (value, _, h₁) = >>=-eq-ok (required "files" json) _ h in
    let (files, _, h₂) = >>=-eq-ok (as_dict value) _ h₁ in
    let same : file_state files ≡ state = cc (h₂) in subst Rereads same (file_state-Rereads files)

-- Updates that were read are read back from what they are written as.
updates-reread :
    (values : List Json) (updates : List RepositoryUpdate)
    → map_ok update_from_json values ≡ ok updates
    → map_ok update_from_json (elements (items_of (map update_to_json updates))) ≡ ok updates
unfolding map_ok elements items_of
updates-reread [] updates h =
    let same : [] ≡ updates = cc in
    subst (λ us. map_ok update_from_json (elements (items_of (map update_to_json us))) ≡ ok us) same
      refl
updates-reread (value ∷ values) updates h =
    let (u, first, h₁) = >>=-eq-ok (update_from_json value) _ h in
    let (us, later, h₂) = >>=-eq-ok (map_ok update_from_json values) _ h₁ in
    let same : u ∷ us ≡ updates = cc (h₂) in
    subst (λ us. map_ok update_from_json (elements (items_of (map update_to_json us))) ≡ ok us) same
      (rw (update_from_json-update_to_json value u first, updates-reread values us later))

caught-ok : {A : Type 0} (r : Specified A) (a : A) → caught r ≡ ok a → r ≡ ok a
unfolding caught
caught-ok (ok b) a h = cc
caught-ok (err e) a h = cc

updated-Rereads :
    (base : RepositoryState) (updates : List RepositoryUpdate)
    → Rereads base
    → map_ok update_from_json (elements (items_of (map update_to_json updates))) ≡ ok updates
    → Rereads (updated base updates)
unfolding state_from_json state_to_json contains get updated_of caught
updated-Rereads base updates h k = rw (h, k)

updated_of-Rereads :
    (json : Fields) (base_state : Specified RepositoryState) (state : RepositoryState)
    → ((base : RepositoryState) → base_state ≡ ok base → Rereads base)
    → updated_of json base_state ≡ ok state
    → Rereads state
unfolding updated_of
updated_of-Rereads json base_state state base_rereads h =
    let (value, _, h₁) = >>=-eq-ok (required "updates" json) _ h in
    let (items, _, h₂) = >>=-eq-ok (as_list value) _ h₁ in
    let (base, is_base, h₃) = >>=-eq-ok base_state _ h₂ in
    let (updates, read, h₄) = >>=-eq-ok (caught (map_ok update_from_json (elements items))) _ h₃ in
    let same : updated base updates ≡ state = cc (h₄) in
    subst Rereads same (
      updated-Rereads base updates (base_rereads base is_base)
        (updates-reread (elements items) updates (caught-ok _ updates read)))

state_of_kind-Rereads :
    (json : Fields) (base_state : Specified RepositoryState) (kind : Json) (state : RepositoryState)
    → ((base : RepositoryState) → base_state ≡ ok base → Rereads base)
    → state_of_kind json base_state kind ≡ ok state
    → Rereads state
unfolding state_of_kind
state_of_kind-Rereads json base_state kind state base_rereads h =
    elim (Bool-cases (is_text "hg" kind)) [
      | inl e ↦ hg_state_of-Rereads json state (rw e at h)
      | inr e₁ ↦ elim (Bool-cases (is_text "file" kind)) [
        | inl e ↦ file_state_of-Rereads json state (rw (e₁, e) at h)
        | inr e₂ ↦ elim (Bool-cases (is_text "updated" kind)) [
          | inl e ↦ updated_of-Rereads json base_state state base_rereads (rw (e₁, e₂, e) at h)
          | inr e₃ ↦ absurd (refused (rw (e₁, e₂, e₃) at h))
        ]
      ]
    ]
  where
    refused : ◌≡◌ {A = Specified RepositoryState} (err invalid) (ok state) → ⊥
    refused h = cc

mutual
  unfolding state_from_json

  state_from_json-Rereads :
      (json : Json) (state : RepositoryState) → state_from_json json ≡ ok state → Rereads state
  state_from_json-Rereads (dict json) state h =
      let (kind, _, e) = >>=-eq-ok (required "kind" json) _ h in
      state_of_kind-Rereads json (base_of_fields json) kind state (base_of_fields-Rereads json) e
  state_from_json-Rereads _ state h = cc

  base_of_fields-Rereads :
      (json : Fields) (base : RepositoryState) → base_of_fields json ≡ ok base → Rereads base
  base_of_fields-Rereads end base h = cc
  base_of_fields-Rereads (field key value rest) base h = elim (Bool-cases (key == "base")) [
    | inl e ↦ state_from_json-Rereads value base (rw e at h)
    | inr e ↦ base_of_fields-Rereads rest base (rw e at h)
  ]

-- A state that was read from a document is read back from the JSON that it is written as.
pub state_from_json-state_to_json :
    (json : Json) (state : RepositoryState)
    → state_from_json json ≡ ok state
    → state_from_json (state_to_json state) ≡ ok state
state_from_json-state_to_json = state_from_json-Rereads
