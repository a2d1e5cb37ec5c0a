-- ===== src/Query/Reversed.antt =====
-- The mapping that the class hierarchy is turned into, by the classes that name each class.
use pyre_check.Json.{Json, null, bool, int, float, array, string, dict}
use pyre_check.Query.Answers.{Queried, iterate, is_name}
use pyre_check.Query.Hierarchy.{append_subclass, append_subclasses, get_or_empty, reverse_entries}
use pyre_check.Base.{
  Dict, List, [], ◌∷◌, ◌++◌, ok, err, if◌then◌else◌, String, ◌≡◌, refl, ◌∙◌, ap, sym, arith, ◌==◌,
  eq_iff, Bool-cases, inl, inr, append-nil, append_assoc, ◌>>=◌, has_item, set_item, >>=-eq-ok,
}

get_or_empty-set_item :
    (key other : String) (value : List String) (d : Dict (List String))
    → get_or_empty other (set_item key value d)
      ≡ (if key == other then value else get_or_empty other d)
unfolding get_or_empty
get_or_empty-set_item key other value [] = refl
get_or_empty-set_item key other value (entry ∷ d) = ground (
  arith,
  get_or_empty-set_item key other value d,
  eq_iff entry.0 key,
  eq_iff entry.0 other,
  eq_iff key other,
)

-- `key`, once for each of the values that is the class.
unfoldable pub occurrences : String → String → List Json → List String
unfolding is_name
occurrences class_name key [] = []
occurrences class_name key (value ∷ values) =
    (if is_name class_name value then key ∷ [] else []) ++ occurrences class_name key values

-- What a class has after its list is written again.
appended :
    (value class_name key : String) (d : Dict (List String))
    → get_or_empty class_name (set_item value (get_or_empty value d ++ (key ∷ [])) d)
      ≡ get_or_empty class_name d ++ (if value == class_name then key ∷ [] else [])
appended value class_name key d = elim (Bool-cases (value == class_name)) [
  | inl same ↦
      get_or_empty-set_item value class_name (get_or_empty value d ++ (key ∷ [])) d
      ∙ rw same (ap (λ c. get_or_empty c d ++ (key ∷ [])) ((eq_iff value class_name).0 same))
  | inr apart ↦
      get_or_empty-set_item value class_name (get_or_empty value d ++ (key ∷ [])) d
      ∙ rw apart (sym (append-nil (get_or_empty class_name d)))
]

append_subclass-get_or_empty :
    (value : Json) (key class_name : String) (d e : Dict (List String))
    → append_subclass value key d ≡ ok e
    → get_or_empty class_name e
      ≡ get_or_empty class_name d ++ (if is_name class_name value then key ∷ [] else [])
unfolding append_subclass is_name
append_subclass-get_or_empty (string value) key class_name d e h =
    elim (Bool-cases (has_item value d)) [
      | inl there ↦
          let same : set_item value (get_or_empty value d ++ (key ∷ [])) d ≡ e =
            cc (rw there at h) in
          ap (get_or_empty class_name) (sym same) ∙ appended value class_name key d
      | inr missing ↦ cc (rw missing at h)
    ]
append_subclass-get_or_empty null key class_name d e h = cc (h)
append_subclass-get_or_empty (bool _) key class_name d e h = cc (h)
append_subclass-get_or_empty (int _) key class_name d e h = cc (h)
append_subclass-get_or_empty (float _) key class_name d e h = cc (h)
append_subclass-get_or_empty (array _) key class_name d e h = cc (h)
append_subclass-get_or_empty (dict _) key class_name d e h = cc (h)

append_subclasses-get_or_empty :
    (values : List Json) (key class_name : String) (d e : Dict (List String))
    → append_subclasses values key d ≡ ok e
    → get_or_empty class_name e ≡ get_or_empty class_name d ++ occurrences class_name key values
unfolding append_subclasses occurrences
append_subclasses-get_or_empty [] key class_name d e h =
    let same : d ≡ e = cc (h) in
    ap (get_or_empty class_name) (sym same) ∙ sym (append-nil (get_or_empty class_name d))
append_subclasses-get_or_empty (value ∷ values) key class_name d e h =
    let (between, first, later) =
      >>=-eq-ok (append_subclass value key d) (append_subclasses values key) h in
    append_subclasses-get_or_empty values key class_name between e later
    ∙ ap (λ l. l ++ occurrences class_name key values)
        (append_subclass-get_or_empty value key class_name d between first)
    ∙ append_assoc (get_or_empty class_name d) (if is_name class_name value then key ∷ [] else [])
        (occurrences class_name key values)

-- The superclasses that an entry of the dump lists; none where they cannot be gone through.
unfoldable pub values_of : Queried (List Json) → List Json
values_of (ok values) = values
values_of (err raised) = []

-- The classes whose superclasses name the class, in the order of the dump.
unfoldable pub named_by : String → Dict Json → List String
unfolding occurrences values_of iterate
named_by class_name [] = []
named_by class_name (entry ∷ hierarchy) =
    occurrences class_name entry.0 (values_of (iterate entry.1)) ++ named_by class_name hierarchy

pub reverse_entries-get_or_empty :
    (hierarchy : Dict Json) (class_name : String) (d e : Dict (List String))
    → reverse_entries hierarchy d ≡ ok e
    → get_or_empty class_name e ≡ get_or_empty class_name d ++ named_by class_name hierarchy
unfolding reverse_entries named_by values_of
reverse_entries-get_or_empty [] class_name d e h =
    let same : d ≡ e = cc (h) in
    ap (get_or_empty class_name) (sym same) ∙ sym (append-nil (get_or_empty class_name d))
reverse_entries-get_or_empty (entry ∷ hierarchy) class_name d e h =
    let (between, first, later) =
      >>=-eq-ok (iterate entry.1 >>= λ values. append_subclasses values entry.0 d)
        (reverse_entries hierarchy) h in
    let (values, went, appended) =
      >>=-eq-ok (iterate entry.1) (λ values. append_subclasses values entry.0 d) first in
    reverse_entries-get_or_empty hierarchy class_name between e later
    ∙ ap (λ l. l ++ named_by class_name hierarchy)
        (append_subclasses-get_or_empty values entry.0 class_name d between appended)
    ∙ append_assoc (get_or_empty class_name d) (occurrences class_name entry.0 values)
        (named_by class_name hierarchy)
    ∙ ap
        (λ r.
          get_or_empty class_name d
          ++ (occurrences class_name entry.0 (values_of r) ++ named_by class_name hierarchy))
        (sym went)
