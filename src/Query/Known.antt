-- ===== src/Query/Known.antt =====
-- When the class hierarchy can be turned around: the classes that are named are classes of the dump.
use pyre_check.Json.{Json, null, bool, int, float, array, string, dict}
use pyre_check.Query.Answers.{iterate}
use pyre_check.Query.Hierarchy.{
  append_subclass, append_subclasses, get_or_empty, no_subclasses, reverse_entries,
  reverse_hierarchy,
}
use pyre_check.Base.{
  Dict, List, [], ◌∷◌, ◌++◌, ok, if◌then◌else◌, String, ◌≡◌, refl, ◌∙◌, ap, sym, arith, ◌==◌,
  eq_iff, Bool, true, Bool-cases, inl, inr, ◌>>=◌, has_item, set_item, has_item-set_item, >>=-eq-ok,
  ◌↔◌, All,
}

-- The value is a name that is known.
abbrev pub IsKnown : (String → Bool) → Json → Type 0
IsKnown known value = (name : String) × (value ≡ string name) × (known name ≡ true)

append_subclass_iff :
    (value : Json) (key : String) (d : Dict (List String))
    → ((e : Dict (List String)) × (append_subclass value key d ≡ ok e))
      ↔ IsKnown (λ name. has_item name d) value
unfolding append_subclass
append_subclass_iff (string value) key d = elim (Bool-cases (has_item value d)) [
  | inl there ↦ rw there (λ h. (value, refl, there), λ h. (_, refl))
  | inr missing ↦
      rw missing (λ h. cc (h.1), λ h. let (name, same, known) = h in cc (missing, same, known))
]
append_subclass_iff null key d = (λ h. cc (h.1), λ h. cc (h.1))
append_subclass_iff (bool _) key d = (λ h. cc (h.1), λ h. cc (h.1))
append_subclass_iff (int _) key d = (λ h. cc (h.1), λ h. cc (h.1))
append_subclass_iff (float _) key d = (λ h. cc (h.1), λ h. cc (h.1))
append_subclass_iff (array _) key d = (λ h. cc (h.1), λ h. cc (h.1))
append_subclass_iff (dict _) key d = (λ h. cc (h.1), λ h. cc (h.1))

append_subclass-has_item :
    (value : Json) (key name : String) (d e : Dict (List String))
    → append_subclass value key d ≡ ok e
    → has_item name e ≡ has_item name d
unfolding append_subclass
append_subclass-has_item (string value) key name d e h = elim (Bool-cases (has_item value d)) [
  | inl there ↦
      let list = get_or_empty value d ++ (key ∷ []) in
      let same : set_item value list d ≡ e = cc (rw there at h) in
      ap (has_item name) (sym same)
      ∙ has_item-set_item value name list d
      ∙ ground (arith, eq_iff value name, there)
  | inr missing ↦ cc (rw missing at h)
]
append_subclass-has_item null key name d e h = cc (h)
append_subclass-has_item (bool _) key name d e h = cc (h)
append_subclass-has_item (int _) key name d e h = cc (h)
append_subclass-has_item (float _) key name d e h = cc (h)
append_subclass-has_item (array _) key name d e h = cc (h)
append_subclass-has_item (dict _) key name d e h = cc (h)

append_subclasses-has_item :
    (values : List Json) (key name : String) (d e : Dict (List String))
    → append_subclasses values key d ≡ ok e
    → has_item name e ≡ has_item name d
unfolding append_subclasses
append_subclasses-has_item [] key name d e h =
    let same : d ≡ e = cc (h) in ap (has_item name) (sym same)
append_subclasses-has_item (value ∷ values) key name d e h =
    let (between, first, later) =
      >>=-eq-ok (append_subclass value key d) (append_subclasses values key) h in
    append_subclasses-has_item values key name between e later
    ∙ append_subclass-has_item value key name d between first

-- The same names are known.
IsKnown-same :
    (known others : String → Bool) (value : Json)
    → ((name : String) → known name ≡ others name)
    → IsKnown known value
    → IsKnown others value
IsKnown-same known others value h k =
    let (name, same, there) = k in (name, same, sym (h name) ∙ there)

append_subclasses_iff :
    (known : String → Bool) (values : List Json) (key : String) (d : Dict (List String))
    → ((name : String) → has_item name d ≡ known name)
    → ((e : Dict (List String)) × (append_subclasses values key d ≡ ok e))
      ↔ All (IsKnown known) values
unfolding append_subclasses
append_subclasses_iff known [] key d same = (λ h. tt, λ h. (d, refl))
append_subclasses_iff known (value ∷ values) key d same = (
  λ h.
      let (between, first, later) =
        >>=-eq-ok (append_subclass value key d) (append_subclasses values key) h.1 in
      let kept =
        λ (name : String). append_subclass-has_item value key name d between first ∙ same name in
      (
        IsKnown-same (λ name. has_item name d) known value same
            ((append_subclass_iff value key d).0 (between, first)),
        (append_subclasses_iff known values key between kept).0 (h.0, later),
      ),
  λ h.
      let (between, first) =
        (append_subclass_iff value key d).1
          (IsKnown-same known (λ name. has_item name d) value (λ name. sym (same name)) h.0) in
      let kept =
        λ (name : String). append_subclass-has_item value key name d between first ∙ same name in
      let (last, later) = (append_subclasses_iff known values key between kept).1 h.1 in
      (last, ap (λ r. r >>= append_subclasses values key) first ∙ later),
)

-- The superclasses of an entry can be gone through, and are known.
abbrev pub HasKnown : (String → Bool) → String × Json → Type 0
HasKnown known entry =
    (values : List Json) × (iterate entry.1 ≡ ok values) × All (IsKnown known) values

reverse_entries_iff :
    (known : String → Bool) (hierarchy : Dict Json) (d : Dict (List String))
    → ((name : String) → has_item name d ≡ known name)
    → ((e : Dict (List String)) × (reverse_entries hierarchy d ≡ ok e))
      ↔ All (HasKnown known) hierarchy
unfolding reverse_entries
reverse_entries_iff known [] d same = (λ h. tt, λ h. (d, refl))
reverse_entries_iff known (entry ∷ hierarchy) d same = (
  λ h.
      let (between, first, later) =
        >>=-eq-ok (iterate entry.1 >>= λ values. append_subclasses values entry.0 d)
          (reverse_entries hierarchy) h.1 in
      let (values, went, all) =
        >>=-eq-ok (iterate entry.1) (λ values. append_subclasses values entry.0 d) first in
      let kept = λ (name : String).
        append_subclasses-has_item values entry.0 name d between all ∙ same name in
      (
        (values, went, (append_subclasses_iff known values entry.0 d same).0 (between, all)),
        (reverse_entries_iff known hierarchy between kept).0 (h.0, later),
      ),
  λ h.
      let (values, went, listed) = h.0 in
      let (between, all) = (append_subclasses_iff known values entry.0 d same).1 listed in
      let kept = λ (name : String).
        append_subclasses-has_item values entry.0 name d between all ∙ same name in
      let (last, later) = (reverse_entries_iff known hierarchy between kept).1 h.1 in
      (
        last,
        ap (λ r. (r >>= λ values. append_subclasses values entry.0 d) >>= reverse_entries hierarchy)
              went
            ∙ ap (λ r. r >>= reverse_entries hierarchy) all
            ∙ later,
      ),
)

has_item-no_subclasses :
    (name : String) (hierarchy : Dict Json)
    → has_item name (no_subclasses hierarchy) ≡ has_item name hierarchy
unfolding no_subclasses
has_item-no_subclasses name [] = refl
has_item-no_subclasses name (entry ∷ hierarchy) =
    ap (λ b. if entry.0 == name then true else b) (has_item-no_subclasses name hierarchy)

-- The hierarchy is turned around without an error exactly when the superclasses of every class are a
-- value that a loop goes through, and each of them is the name of a class of the hierarchy.
pub reverse_hierarchy_iff :
    (hierarchy : Dict Json)
    → ((reversed : Dict (List String)) × (reverse_hierarchy hierarchy ≡ ok reversed))
      ↔ All (HasKnown (λ name. has_item name hierarchy)) hierarchy
unfolding reverse_hierarchy
reverse_hierarchy_iff hierarchy =
    reverse_entries_iff (λ name. has_item name hierarchy) hierarchy (no_subclasses hierarchy)
      (λ name. has_item-no_subclasses name hierarchy)
