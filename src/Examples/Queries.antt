-- ===== src/Examples/Queries.antt =====
-- Queries of the API on concrete answers.
use mathlib.Core.List.{Nodup-nil}
use pyre_check.Json.{elements, Json, string, array, cons, nil}
use pyre_check.Query.Answers.{iterate, Queried, key_error, query_failed}
use pyre_check.Query.Hierarchy.{subclasses, reverse_hierarchy}
use pyre_check.Query.Known.{HasKnown, reverse_hierarchy_iff}
use pyre_check.Query.Subclasses.{listed_superclasses, subclasses_iff_superclasses}
use pyre_check.Query.Defines.{concat, defines, query_defines}
use pyre_check.Query.Batches.{IsBatch, defines_batches}
use pyre_check.Base.{
  Dict, has_item, IsDict, IsDict-cons, List, [], ◌∷◌, ◌≡◌, ◌↔◌, refl, ok, err, String, Listed, All,
  some, pos, map_ok, ◌>>=◌,
}

abbrev classes : Dict Json
classes = ("Base", array nil) ∷ ("Derived", array (cons (string "Base") nil)) ∷ []

classes-IsDict : IsDict classes
classes-IsDict =
    IsDict-cons ("Base", array nil) (("Derived", array (cons (string "Base") nil)) ∷ []) refl
      (IsDict-cons ("Derived", array (cons (string "Base") nil)) [] refl Nodup-nil)

subclasses_test : subclasses classes "Base" ≡ ok ("Derived" ∷ [])
unfolding subclasses iterate elements
subclasses_test = refl

-- A class that the server does not know and a class without subclasses are told alike.
unknown_class_test : subclasses classes "Unknown" ≡ subclasses classes "Derived"
unfolding subclasses iterate elements
unknown_class_test = refl

unknown_superclass_test :
    reverse_hierarchy (("Derived", array (cons (string "Base") nil)) ∷ []) ≡ err key_error
unfolding reverse_hierarchy iterate elements
unknown_superclass_test = refl

subclasses_iff_superclasses_example :
    Listed {A = String} "Derived" ("Derived" ∷ [])
    ↔ Listed (string "Base") (listed_superclasses classes "Derived")
subclasses_iff_superclasses_example =
    subclasses_iff_superclasses classes "Base" "Derived" ("Derived" ∷ []) classes-IsDict
      subclasses_test

reverse_hierarchy_iff_example :
    ((reversed : Dict (List String)) × (reverse_hierarchy classes ≡ ok reversed))
    ↔ All (HasKnown (λ name. has_item name classes)) classes
reverse_hierarchy_iff_example = reverse_hierarchy_iff classes

abbrev unanswered : String → Queried Json
unanswered query = err (query_failed (string query))

defines_batches_example :
    (batches : List (List String)) × (concat batches ≡ "a" ∷ "b" ∷ "c" ∷ [])
    × All (IsBatch 2) batches
    × (defines unanswered ("a" ∷ "b" ∷ "c" ∷ []) (some (pos 2))
        ≡ (map_ok (query_defines unanswered) batches >>= λ found. ok (concat found)))
defines_batches_example = defines_batches unanswered ("a" ∷ "b" ∷ "c" ∷ []) 1
