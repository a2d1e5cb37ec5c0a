-- ===== src/Stubs/Groups.antt =====
-- The groups of function stubs by class and name.
use pyre_check.Stubs.{Stub, Key, key_of, same_key, is_field, append_stub, group_stubs}
use pyre_check.Stubs.Joins.{has_key, same_key_iff}
use pyre_check.Base.{
  List, [], ◌∷◌, ◌++◌, Bool, true, false, if◌then◌else◌, keep, ◌≡◌, refl, ◌∙◌, ap, sym, Bool-cases,
  inl, inr, All, append_assoc, append-nil,
}

-- The stubs of the first group of the key.
unfoldable pub find_group : Key → List (Key × List Stub) → List Stub
find_group key [] = []
find_group key (group ∷ groups) =
    let later = find_group key groups in if same_key group.0 key then group.1 else later

-- The group has a stub, all its stubs have its key, and no later group has.
abbrev pub AreGroups : List (Key × List Stub) → Type 0
AreGroups [] = Unit
AreGroups (group ∷ groups) =
    All (λ s. has_key group.0 s ≡ true) group.1
    × ((first : Stub) × (rest : List Stub) × (group.1 ≡ first ∷ rest))
    × (find_group group.0 groups ≡ [])
    × AreGroups groups

if_again :
    {A : Type 0} (test : Bool) (f : A → A) (x y : A)
    → (if test then f x else y)
      ≡ (if test then f (if test then x else y) else if test then x else y)
if_again true f x y = refl
if_again false f x y = refl

not_same : (k l m : Key) → same_key k l ≡ true → same_key k m ≡ false → same_key m l ≡ false
not_same k l m h apart = elim (Bool-cases (same_key m l)) [
  | inl same ↦
      let equal : k ≡ m = (same_key_iff k l).0 h ∙ sym ((same_key_iff m l).0 same) in
      cc (sym apart ∙ (same_key_iff k m).1 equal)
  | inr e ↦ e
]

find_group-append_stub :
    (key other : Key) (s : Stub) (groups : List (Key × List Stub))
    → find_group other (append_stub key s groups) ≡ (
        if same_key key other then find_group other groups ++ (s ∷ []) else find_group other groups)
unfolding find_group append_stub
find_group-append_stub key other s [] = elim (Bool-cases (same_key key other)) [
  | inl same ↦ rw same refl
  | inr apart ↦ rw apart refl
]
find_group-append_stub key other s (group ∷ groups) = elim (Bool-cases (same_key group.0 key)) [
  | inl here ↦ rw here (
      rw (ap (λ k. same_key k other) ((same_key_iff group.0 key).0 here))
        (if_again (same_key key other) (λ l. l ++ (s ∷ [])) group.1 (find_group other groups)))
  | inr later ↦ rw later (elim (Bool-cases (same_key group.0 other)) [
    | inl found ↦ rw found (rw (not_same group.0 other key found later) refl)
    | inr elsewhere ↦ rw elsewhere (find_group-append_stub key other s groups)
  ])
]

All-snoc : (P : Stub → Type 0) (xs : List Stub) (s : Stub) → All P xs → P s → All P (xs ++ (s ∷ []))
All-snoc P [] s h p = (p, tt)
All-snoc P (x ∷ xs) s (here, later) p = (here, All-snoc P xs s later p)

append_stub-AreGroups :
    (key : Key) (s : Stub) (groups : List (Key × List Stub))
    → has_key key s ≡ true
    → AreGroups groups
    → AreGroups (append_stub key s groups)
unfolding append_stub find_group
append_stub-AreGroups key s [] h good = ((h, tt), (s, [], refl), refl, tt)
append_stub-AreGroups key s (group ∷ groups) h (all, (first, rest, same), alone, good) =
    elim (Bool-cases (same_key group.0 key)) [
      | inl here ↦
          let own : has_key group.0 s ≡ true =
            ap (λ k. has_key k s) ((same_key_iff group.0 key).0 here) ∙ h in
          rw here (
            (
              All-snoc _ group.1 s all own,
              (first, rest ++ (s ∷ []), ap (λ l. l ++ (s ∷ [])) same),
              alone,
              good,
            ))
      | inr later ↦
          let other : same_key key group.0 ≡ false =
            not_same group.0 group.0 key ((same_key_iff group.0 group.0).1 refl) later in
          rw later (
            (
              all,
              (first, rest, same),
              find_group-append_stub key group.0 s groups ∙ rw other alone,
              append_stub-AreGroups key s groups h good,
            ))
    ]

own_key : (s : Stub) → is_field s ≡ false → has_key (key_of s) s ≡ true
unfolding has_key
own_key s h = rw (h, (same_key_iff (key_of s) (key_of s)).1 refl) refl

pub group_stubs-AreGroups :
    (stubs : List Stub) (groups : List (Key × List Stub))
    → AreGroups groups
    → AreGroups (group_stubs stubs groups)
unfolding group_stubs
group_stubs-AreGroups [] groups good = good
group_stubs-AreGroups (s ∷ stubs) groups good = elim (Bool-cases (is_field s)) [
  | inl field ↦ rw field (group_stubs-AreGroups stubs groups good)
  | inr function ↦ rw function (
      group_stubs-AreGroups stubs (append_stub (key_of s) s groups)
        (append_stub-AreGroups (key_of s) s groups (own_key s function) good))
]

pub has_key-field : (key : Key) (s : Stub) → is_field s ≡ true → has_key key s ≡ false
unfolding has_key
has_key-field key s h = rw h refl

pub has_key-function :
    (key : Key) (s : Stub) → is_field s ≡ false → has_key key s ≡ same_key (key_of s) key
unfolding has_key
has_key-function key s h = rw h refl

appended_or_not :
    (test : Bool) (s : Stub) (xs ys : List Stub)
    → (if test then xs ++ (s ∷ []) else xs) ++ ys ≡ xs ++ (if test then s ∷ ys else ys)
appended_or_not true s xs ys = append_assoc xs (s ∷ []) ys
appended_or_not false s xs ys = refl

pub find_group-group_stubs :
    (key : Key) (stubs : List Stub) (groups : List (Key × List Stub))
    → find_group key (group_stubs stubs groups) ≡ find_group key groups ++ keep (has_key key) stubs
unfolding group_stubs
find_group-group_stubs key [] groups = sym (append-nil (find_group key groups))
find_group-group_stubs key (s ∷ stubs) groups = elim (Bool-cases (is_field s)) [
  | inl field ↦ rw (field, has_key-field key s field) (find_group-group_stubs key stubs groups)
  | inr function ↦
      rw (function, has_key-function key s function)
        (find_group-group_stubs key stubs (append_stub (key_of s) s groups)
          ∙ ap (λ l. l ++ keep (has_key key) stubs) (find_group-append_stub (key_of s) key s groups)
          ∙ appended_or_not (same_key (key_of s) key) s (find_group key groups)
              (keep (has_key key) stubs))
]
