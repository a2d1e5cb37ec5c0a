-- ===== src/Specification/Updates.antt =====
-- About the JSON of repository updates (tools/incremental_test/specification.py).
use pyre_check.Specification.{
  as_dict, as_list, update_from_json, SingleUpdate, Specified, changed, single_to_json,
  update_steps, single, RepositoryUpdate, required, hg, batch, file, file_update, patch,
  steps_of_fields, steps_of_items, update_of_kind, update_to_json, invalid, items_of, is_text,
  or_default, steps_of_value, as_list,
}
use pyre_check.Json.{Json, Fields, Items, cons, nil, array, dict, end, field, contains, get}
use pyre_check.Base.{
  refl, [], ◌∷◌, ◌++◌, List, refl, ◌≡◌, ◌==◌, ok, err, inl, inr, ◌>>=◌, All, subst, >>=-eq-ok,
  Bool-cases, map,
}

-- The JSON of a single update is read back as that update.
abbrev IsGiven : SingleUpdate → Type 0
IsGiven update = update_from_json (single_to_json update) ≡ ok (single update)

AllGiven : RepositoryUpdate → Type 0
AllGiven u = All IsGiven (update_steps u)

single-AllGiven :
    (update : SingleUpdate) (u : RepositoryUpdate)
    → IsGiven update
    → ◌≡◌ {A = Specified RepositoryUpdate} (ok (single update)) (ok u)
    → AllGiven u
unfolding AllGiven update_steps
single-AllGiven update u given h =
    let same : single update ≡ u = cc in subst AllGiven same (given, tt)

changed-AllGiven :
    (changes : Fields) (removals : Items) (u : RepositoryUpdate)
    → changed changes removals ≡ ok u
    → AllGiven u
unfolding changed single_to_json contains get update_from_json
changed-AllGiven end nil u h = cc
changed-AllGiven end (cons x xs) u h = single-AllGiven (file end (cons x xs)) u refl h
changed-AllGiven (field k v rest) removals u h =
    single-AllGiven (file (field k v rest) removals) u refl h

file_update-AllGiven : (json : Fields) (u : RepositoryUpdate) → file_update json ≡ ok u → AllGiven u
unfolding file_update
file_update-AllGiven json u h =
    let (changes, _, h₁) = >>=-eq-ok (as_dict (or_default "changes" (dict end) json)) _ h in
    let (removals, _, h₂) = >>=-eq-ok (as_list (or_default "removals" (array nil) json)) _ h₁ in
    changed-AllGiven changes removals u h₂

hg-AllGiven :
    (json : Fields) (u : RepositoryUpdate)
    → (required "commit_hash" json >>= λ commit_hash. ok (single (hg commit_hash))) ≡ ok u
    → AllGiven u
unfolding single_to_json contains get update_from_json
hg-AllGiven json u h =
    let (commit_hash, _, e) = >>=-eq-ok (required "commit_hash" json) _ h in
    single-AllGiven (hg commit_hash) u refl e

patch-AllGiven :
    (json : Fields) (flags : Json) (u : RepositoryUpdate)
    → (required "patch" json >>= λ text. ok (single (patch text flags))) ≡ ok u
    → AllGiven u
unfolding single_to_json contains get update_from_json
patch-AllGiven json flags u h =
    let (text, _, e) = >>=-eq-ok (required "patch" json) _ h in
    single-AllGiven (patch text flags) u refl e

batch-AllGiven :
    (steps : Specified (List SingleUpdate)) (u : RepositoryUpdate)
    → ((us : List SingleUpdate) → steps ≡ ok us → All IsGiven us)
    → (steps >>= λ updates. ok (batch updates)) ≡ ok u
    → AllGiven u
unfolding AllGiven update_steps
batch-AllGiven (err e) u given h = cc
batch-AllGiven (ok us) u given h =
    let same : batch us ≡ u = cc in subst AllGiven same (given us refl)

update_of_kind-AllGiven :
    (json : Fields) (steps : Specified (List SingleUpdate)) (kind : Json) (u : RepositoryUpdate)
    → ((us : List SingleUpdate) → steps ≡ ok us → All IsGiven us)
    → update_of_kind json steps kind ≡ ok u
    → AllGiven u
unfolding update_of_kind
update_of_kind-AllGiven json steps kind u given h = elim (Bool-cases (is_text "hg" kind)) [
  | inl e ↦ hg-AllGiven json u (rw e at h)
  | inr e₁ ↦ elim (Bool-cases (is_text "patch" kind)) [
    | inl e ↦ patch-AllGiven json _ u (rw (e₁, e) at h)
    | inr e₂ ↦ elim (Bool-cases (is_text "file" kind)) [
      | inl e ↦ file_update-AllGiven json u (rw (e₁, e₂, e) at h)
      | inr e₃ ↦ elim (Bool-cases (is_text "batch" kind)) [
        | inl e ↦ batch-AllGiven steps u given (rw (e₁, e₂, e₃, e) at h)
        | inr e₄ ↦ absurd (refused (rw (e₁, e₂, e₃, e₄) at h))
      ]
    ]
  ]
]
  where
    refused : ◌≡◌ {A = Specified RepositoryUpdate} (err invalid) (ok u) → ⊥
    refused h = cc

All-append : (xs ys : List SingleUpdate) → All IsGiven xs → All IsGiven ys → All IsGiven (xs ++ ys)
All-append [] ys h k = k
All-append (x ∷ xs) ys h k = (h.0, All-append xs ys h.1 k)

mutual
  unfolding update_from_json AllGiven

  update_from_json-AllGiven :
      (json : Json) (u : RepositoryUpdate) → update_from_json json ≡ ok u → AllGiven u
  update_from_json-AllGiven (dict json) u h =
      let (kind, _, e) = >>=-eq-ok (required "kind" json) _ h in
      update_of_kind-AllGiven json (steps_of_fields json) kind u (steps_of_fields-Given json) e
  update_from_json-AllGiven _ u h = cc

  steps_of_fields-Given :
      (json : Fields) (us : List SingleUpdate) → steps_of_fields json ≡ ok us → All IsGiven us
  steps_of_fields-Given end us h = cc
  steps_of_fields-Given (field key value rest) us h = elim (Bool-cases (key == "updates")) [
    | inl e ↦ steps_of_value-Given value us (rw e at h)
    | inr e ↦ steps_of_fields-Given rest us (rw e at h)
  ]

  steps_of_value-Given :
      (json : Json) (us : List SingleUpdate) → steps_of_value json ≡ ok us → All IsGiven us
  steps_of_value-Given (array items) us h = steps_of_items-Given items us h
  steps_of_value-Given _ us h = cc

  steps_of_items-Given :
      (items : Items) (us : List SingleUpdate) → steps_of_items items ≡ ok us → All IsGiven us
  steps_of_items-Given nil us h = let same : [] ≡ us = cc in subst (All IsGiven) same tt
  steps_of_items-Given (cons json rest) us h =
      let (u, first, h₁) = >>=-eq-ok (update_from_json json) _ h in
      let (later, others, h₂) = >>=-eq-ok (steps_of_items rest) _ h₁ in
      let same : (update_steps u ++ later) ≡ us = cc (h₂) in
      subst (All IsGiven) same (
        All-append (update_steps u) later (update_from_json-AllGiven json u first)
          (steps_of_items-Given rest later others))

steps_of_items-items_of :
    (us : List SingleUpdate)
    → All IsGiven us
    → steps_of_items (items_of (map single_to_json us)) ≡ ok us
unfolding steps_of_items items_of update_steps
steps_of_items-items_of [] h = refl
steps_of_items-items_of (u ∷ us) h = rw (h.0, steps_of_items-items_of us h.1)

rereads : (u : RepositoryUpdate) → AllGiven u → update_from_json (update_to_json u) ≡ ok u
unfolding AllGiven update_steps update_from_json update_to_json contains get
rereads (single update) h = h.0
rereads (batch us) h = rw (steps_of_items-items_of us h)

-- An update that was read from a document is read back from the JSON that it is written as.
pub update_from_json-update_to_json :
    (json : Json) (u : RepositoryUpdate)
    → update_from_json json ≡ ok u
    → update_from_json (update_to_json u) ≡ ok u
update_from_json-update_to_json json u h = rereads u (update_from_json-AllGiven json u h)
