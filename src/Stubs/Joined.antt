-- ===== src/Stubs/Joined.antt =====
-- The stubs of a file after the function stubs of one class and name are joined.
use pyre_check.Stubs.{Stub, Key, key_of, same_key, is_field, group_stubs, join_group, join_stubs}
use pyre_check.Stubs.Joins.{
  has_key, same_key_iff, merged_all, join_all-merged_all, has_key-merged_all,
}
use pyre_check.Stubs.Groups.{
  find_group, AreGroups, has_key-field, has_key-function, find_group-group_stubs,
  group_stubs-AreGroups,
}
use pyre_check.Base.{
  List, [], ◌∷◌, ◌++◌, ok, Bool, true, false, keep, map_ok, ◌≡◌, refl, ◌∙◌, ap, ap₂, sym, subst,
  Bool-cases, inl, inr, All, append-nil,
}
use pyre_check.Stubs.Filled.{IsJoined, merged_all-IsJoined}

-- What the stubs of a class and name are joined to.
unfoldable pub joined : List Stub → List Stub
unfolding merged_all
joined [] = []
joined (s ∷ stubs) = merged_all s stubs ∷ []

join_group-joined :
    (key : Key) (first : Stub) (rest members : List Stub)
    → members ≡ first ∷ rest
    → All (λ s. has_key key s ≡ true) members
    → join_group members ≡ ok (merged_all first rest)
unfolding join_group
join_group-joined key first rest members same all =
    let (here, later) = subst (All (λ s. has_key key s ≡ true)) same all in
    ap join_group same ∙ join_all-merged_all key first rest here later

has_key-is_field : (key : Key) (s : Stub) → has_key key s ≡ true → is_field s ≡ false
unfolding has_key
has_key-is_field key s h = elim (Bool-cases (is_field s)) [ inl e ↦ cc (rw e at h) | inr e ↦ e ]

has_key-same_key :
    (key other : Key) (s : Stub) → has_key key s ≡ true → has_key other s ≡ same_key key other
has_key-same_key key other s h =
    let function = has_key-is_field key s h in
    let own : key_of s ≡ key =
      (same_key_iff (key_of s) key).0 (sym (has_key-function key s function) ∙ h) in
    has_key-function other s function ∙ ap (λ k. same_key k other) own

keep-append :
    (test : Stub → Bool) (xs ys : List Stub) → keep test (xs ++ ys) ≡ keep test xs ++ keep test ys
keep-append test [] ys = refl
keep-append test (x ∷ xs) ys = elim (Bool-cases (test x)) [
  | inl h ↦ rw h (ap (◌∷◌ x) (keep-append test xs ys))
  | inr h ↦ rw h (keep-append test xs ys)
]

keep_idem : (test : Stub → Bool) (xs : List Stub) → keep test (keep test xs) ≡ keep test xs
keep_idem test [] = refl
keep_idem test (x ∷ xs) = elim (Bool-cases (test x)) [
  | inl h ↦ rw h (rw h (ap (◌∷◌ x) (keep_idem test xs)))
  | inr h ↦ rw h (keep_idem test xs)
]

keep_fields : (key : Key) (stubs : List Stub) → keep (has_key key) (keep is_field stubs) ≡ []
keep_fields key [] = refl
keep_fields key (s ∷ stubs) = elim (Bool-cases (is_field s)) [
  | inl field ↦ rw field (rw (has_key-field key s field) (keep_fields key stubs))
  | inr function ↦ rw function (keep_fields key stubs)
]

-- The groups are joined, and the stubs of a key are then what its group is joined to.
joined_groups :
    (groups : List (Key × List Stub))
    → AreGroups groups
    → (stubs : List Stub) × (map_ok (λ (group : Key × List Stub). join_group group.1) groups
        ≡ ok stubs)
      × (keep is_field stubs ≡ [])
      × ((key : Key) → keep (has_key key) stubs ≡ joined (find_group key groups))
unfolding map_ok find_group joined
joined_groups [] good = ([], refl, refl, λ key. refl)
joined_groups (group ∷ groups) (all, (first, rest, same), alone, good) =
    let (stubs, returned, no_fields, each) = joined_groups groups good in
    let one = join_group-joined group.0 first rest group.1 same all in
    let m = merged_all first rest in
    let (here, later) = subst (All (λ s. has_key group.0 s ≡ true)) same all in
    let own : has_key group.0 m ≡ true = has_key-merged_all group.0 first rest ∙ here in
    (
      m ∷ stubs,
      rw one (rw returned refl),
      rw (has_key-is_field group.0 m own) no_fields,
      λ key. rw (has_key-same_key group.0 key m own) (elim (Bool-cases (same_key group.0 key)) [
        | inl found ↦ rw found (
            ap (◌∷◌ m) (
              each key
              ∙ ap (λ k. joined (find_group k groups)) (sym ((same_key_iff group.0 key).0 found))
              ∙ ap joined alone)
            ∙ sym (ap joined same))
        | inr other ↦ rw other (each key)
      ]),
    )

-- One stub, joined of those of a class and name, or none where there are none.
abbrev pub AreJoined : List Stub → List Stub → Type 0
AreJoined [] new_stubs = new_stubs ≡ []
AreJoined (s ∷ others) new_stubs = (j : Stub) × (new_stubs ≡ j ∷ []) × IsJoined s others j

joined-AreJoined :
    (key : Key) (members new_stubs : List Stub)
    → All (λ s. has_key key s ≡ true) members
    → new_stubs ≡ joined members
    → AreJoined members new_stubs
unfolding joined
joined-AreJoined key [] new_stubs all h = h
joined-AreJoined key (s ∷ others) new_stubs (here, later) h =
    (merged_all s others, h, merged_all-IsJoined key s others here later)

All-keep : (test : Stub → Bool) (xs : List Stub) → All (λ x. test x ≡ true) (keep test xs)
All-keep test [] = tt
All-keep test (x ∷ xs) = elim (Bool-cases (test x)) [
  | inl h ↦ rw h (h, All-keep test xs)
  | inr h ↦ rw h (All-keep test xs)
]

pub join_stubs-joined :
    (stubs : List Stub)
    → (new_stubs : List Stub) × (join_stubs stubs ≡ ok new_stubs)
      × (keep is_field new_stubs ≡ keep is_field stubs)
      × ((key : Key) → AreJoined (keep (has_key key) stubs) (keep (has_key key) new_stubs))
unfolding join_stubs find_group
join_stubs-joined stubs =
    let (functions, returned, no_fields, each) =
      joined_groups (group_stubs stubs []) (group_stubs-AreGroups stubs [] tt) in
    (
      keep is_field stubs ++ functions,
      rw returned refl,
      keep-append is_field (keep is_field stubs) functions
          ∙ ap₂ ◌++◌ (keep_idem is_field stubs) no_fields
          ∙ append-nil (keep is_field stubs),
      λ key. joined-AreJoined key (keep (has_key key) stubs) _ (All-keep (has_key key) stubs) (
          keep-append (has_key key) (keep is_field stubs) functions
          ∙ ap (λ l. l ++ keep (has_key key) functions) (keep_fields key stubs)
          ∙ each key
          ∙ ap joined (find_group-group_stubs key stubs [])),
    )
