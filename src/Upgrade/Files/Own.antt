-- ===== src/Upgrade/Files/Own.antt =====
-- The errors that the dict of errors has for a path: all those of the path, in their order
-- (tools/upgrade/errors.py).
use pyre_check.Upgrade.Files.{PyreError, group_by_path, dict_of, paths_to_errors}
use pyre_check.Upgrade.Files.Apart.{AreApart}
use pyre_check.Base.{
  List, [], ◌∷◌, Option, some, none, true, false, String, ◌==◌, if◌then◌else◌, Dict, get_item,
  has_item, set_item, sort_items, map, keep, ◌≡◌, refl, ◌∙◌, ap, sym, Bool-cases, inl, inr, eq_iff,
  text_lt, subst, get_item-set_item, get_item-missing, text_lt-flip,
}
use pyre_check.Upgrade.Files.Ordered.{
  AreOrdered, sort_items-AreOrdered, values_of, values_of-below, values_of-sort_items,
  text_lt_irrefl,
}

-- None where there is nothing.
abbrev pub unless_empty : {A : Type 0} → List A → Option (List A)
unless_empty [] = none
unless_empty (x ∷ xs) = some (x ∷ xs)

-- The errors of a path, in the order of the run, or None.
abbrev pub own_errors : String → List PyreError → Option (List PyreError)
own_errors path errors = unless_empty (keep (λ (e : PyreError). e.path == path) errors)

-- The groups of entries that do not begin with none.
group_by_path-head :
    (f : String × PyreError) (l : List (String × PyreError))
    → (members : List PyreError) × (groups : List (String × List PyreError)) × (group_by_path
          (f ∷ l)
        ≡ (f.0, members) ∷ groups)
unfolding group_by_path
group_by_path-head f l = of_groups (group_by_path l) refl
  where
    of_groups :
        (groups : List (String × List PyreError))
        → group_by_path l ≡ groups
        → (members : List PyreError) × (later : List (String × List PyreError)) × (group_by_path
              (f ∷ l)
            ≡ (f.0, members) ∷ later)
    of_groups [] e = (f.1 ∷ [], [], rw e refl)
    of_groups (group ∷ groups) e = elim (Bool-cases (f.0 == group.0)) [
      | inl same ↦ (f.1 ∷ group.1, groups, rw (e, same) refl)
      | inr other ↦ (f.1 ∷ [], group ∷ groups, rw (e, other) refl)
    ]

has_item-missing :
    {A : Type 0} (key : String) (d : Dict A) → get_item key d ≡ none → has_item key d ≡ false
has_item-missing key [] h = refl
has_item-missing key (entry ∷ d) h = elim (Bool-cases (entry.0 == key)) [
  | inl same ↦ cc (rw same at h)
  | inr other ↦ rw other (has_item-missing key d (rw other at h))
]

unless_empty-none : {A : Type 0} (l : List A) → l ≡ [] → unless_empty l ≡ none
unless_empty-none l h = rw h refl

-- Of a list that something is found in.
unless_empty-some : {A : Type 0} (l members : List A) → unless_empty l ≡ some members → l ≡ members
unless_empty-some [] members h = cc (h)
unless_empty-some (x ∷ l) members h = cc (h)

-- The groups are apart, and each has the values of its key.
record AreGroupsOf (l : List (String × PyreError)) (groups : List (String × List PyreError))
    : Type 0 where
  apart : AreApart groups
  values : (key : String) → get_item key groups ≡ unless_empty (values_of key l)

module _ (e f : String × PyreError) (l : List (String × PyreError)) (members : List PyreError)
    (groups : List (String × List PyreError)) where
  joins_group :
      (e.0 == f.0) ≡ true
      → AreGroupsOf (f ∷ l) ((f.0, members) ∷ groups)
      → AreGroupsOf (e ∷ f ∷ l) ((e.0, e.1 ∷ members) ∷ groups)
  unfolding values_of
  joins_group same h =
      let equal : e.0 ≡ f.0 = (eq_iff e.0 f.0).0 same in
      record {
        apart = (rw equal (h.apart.0), h.apart.1);
        values = λ key. elim (Bool-cases (e.0 == key)) [
          | inl own ↦
              let found : (f.0 == key) ≡ true = subst (λ k. (k == key) ≡ true) equal own in
              rw own (
                ap (λ vs. some (e.1 ∷ vs))
                  (sym (
                    unless_empty-some (values_of key (f ∷ l)) members
                      (sym (h.values key) ∙ rw found refl))))
          | inr other ↦
              let missing : (f.0 == key) ≡ false = subst (λ k. (k == key) ≡ false) equal other in
              rw (other, missing) (rw missing at (h.values key))
        ];
      }

  new_group :
      (e.0 == f.0) ≡ false
      → AreOrdered (e ∷ f ∷ l)
      → AreGroupsOf (f ∷ l) ((f.0, members) ∷ groups)
      → AreGroupsOf (e ∷ f ∷ l) ((e.0, e.1 ∷ []) ∷ (f.0, members) ∷ groups)
  unfolding values_of
  new_group other ordered h =
      let below : text_lt e.0 f.0 ≡ true =
        text_lt-flip f.0 e.0 (λ p. cc (other, (eq_iff e.0 f.0).1 (sym p))) (ordered.0.0) in
      let absent : values_of e.0 (f ∷ l) ≡ [] =
        values_of-below e.0 f.0 (f ∷ l) below (text_lt_irrefl f.0, ordered.1.0) in
      record {
        apart = (
          has_item-missing e.0 ((f.0, members) ∷ groups)
              (h.values e.0 ∙ unless_empty-none (values_of e.0 (f ∷ l)) absent),
          h.apart,
        );
        values = λ key. elim (Bool-cases (e.0 == key)) [
          | inl own ↦ rw own (
              ap (λ vs. some (e.1 ∷ vs))
                (sym (subst (λ k. values_of k (f ∷ l) ≡ []) ((eq_iff e.0 key).0 own) absent)))
          | inr others ↦ rw others (h.values key)
        ];
      }

group_by_path-joins :
    (e f : String × PyreError) (l : List (String × PyreError)) (members : List PyreError)
    (groups : List (String × List PyreError))
    → group_by_path (f ∷ l) ≡ (f.0, members) ∷ groups
    → AreOrdered (e ∷ f ∷ l)
    → AreGroupsOf (f ∷ l) (group_by_path (f ∷ l))
    → AreGroupsOf (e ∷ f ∷ l) (group_by_path (e ∷ f ∷ l))
unfolding group_by_path
group_by_path-joins e f l members groups made ordered h = elim (Bool-cases (e.0 == f.0)) [
  | inl same ↦
      rw (group_by_path, made, same)
        (joins_group e f l members groups same (subst (AreGroupsOf (f ∷ l)) made h))
  | inr other ↦
      rw (group_by_path, made, other)
        (new_group e f l members groups other ordered (subst (AreGroupsOf (f ∷ l)) made h))
]

group_by_path-AreGroupsOf :
    (l : List (String × PyreError)) → AreOrdered l → AreGroupsOf l (group_by_path l)
unfolding group_by_path values_of
group_by_path-AreGroupsOf [] h = record { apart = tt; values = λ key. refl }
group_by_path-AreGroupsOf (e ∷ []) h = record {
  apart = (refl, tt);
  values =
      λ key. elim (Bool-cases (e.0 == key)) [ inl own ↦ rw own refl | inr other ↦ rw other refl ];
}
group_by_path-AreGroupsOf (e ∷ f ∷ l) h =
    let (members, groups, made) = group_by_path-head f l in
    group_by_path-joins e f l members groups made h (group_by_path-AreGroupsOf (f ∷ l) h.1)

-- A dict is made of entries whose keys are apart.
get_item-dict_of :
    {A : Type 0} (key : String) (entries d : Dict A)
    → AreApart entries
    → get_item key (dict_of entries d)
      ≡ (if has_item key entries then get_item key entries else get_item key d)
unfolding dict_of
get_item-dict_of key [] d h = refl
get_item-dict_of key (entry ∷ entries) d (alone, apart) =
    get_item-dict_of key entries (set_item entry.0 entry.1 d) apart
    ∙ elim (Bool-cases (entry.0 == key)) [
      | inl same ↦
          let absent : has_item key entries ≡ false =
            subst (λ k. has_item k entries ≡ false) ((eq_iff entry.0 key).0 same) alone in
          rw (same, absent) (rw same at (get_item-set_item entry.0 key entry.1 d))
      | inr other ↦ rw other (
          ap (λ found. if has_item key entries then get_item key entries else found)
            (rw other at (get_item-set_item entry.0 key entry.1 d)))
    ]

get_item-of_apart :
    {A : Type 0} (key : String) (d : Dict A)
    → (if has_item key d then get_item key d else none) ≡ get_item key d
get_item-of_apart key d = elim (Bool-cases (has_item key d)) [
  | inl there ↦ rw there refl
  | inr missing ↦ rw missing (sym (get_item-missing key d missing))
]

values_of-map :
    (path : String) (errors : List PyreError)
    → values_of path (map (λ (e : PyreError). (e.path, e)) errors)
      ≡ keep (λ (e : PyreError). e.path == path) errors
unfolding values_of
values_of-map path [] = refl
values_of-map path (e ∷ errors) =
    ap (λ later. if e.path == path then e ∷ later else later) (values_of-map path errors)

pub get_item-paths_to_errors :
    (path : String) (errors : List PyreError)
    → get_item path (paths_to_errors errors) ≡ own_errors path errors
unfolding paths_to_errors
get_item-paths_to_errors path errors =
    let entries = map (λ (e : PyreError). (e.path, e)) errors in
    let groups = group_by_path-AreGroupsOf (sort_items entries) (sort_items-AreOrdered entries) in
    get_item-dict_of path (group_by_path (sort_items entries)) [] groups.apart
    ∙ get_item-of_apart path (group_by_path (sort_items entries))
    ∙ groups.values path
    ∙ ap unless_empty (values_of-sort_items path entries ∙ values_of-map path errors)
