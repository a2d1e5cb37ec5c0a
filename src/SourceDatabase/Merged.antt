-- ===== src/SourceDatabase/Merged.antt =====
use mathlib.Core.List.Permᴰ.{Permᴰ}
use pyre_check.SourceDatabase.{
  SourceDatabase, add_sources, is_linked, add_databases, merge_source_databases,
}
use pyre_check.Base.{
  first_of, first_of_assoc, first_of-none, get_item-append, get_item-set_default-first_of, [], ◌∷◌,
  ◌++◌, refl, ◌≡◌, some, none, Option, true, false, String, ◌==◌, ap, inl, inr, Dict, get_item,
  Bool-cases, set_default, if◌then◌else◌, sym, eq_iff, ◌∙◌, IsDict, sort_items, sort_items-perm,
}

linked_item : String → Dict String → Option String
linked_item key d = if is_linked key then get_item key d else none

linked_item-nil : (key : String) → linked_item key [] ≡ none
unfolding linked_item
linked_item-nil key = elim (Bool-cases (is_linked key)) [ inl h ↦ rw h refl | inr h ↦ rw h refl ]

linked_item-append :
    (key : String) (d e : Dict String)
    → linked_item key (d ++ e) ≡ first_of (linked_item key d) (linked_item key e)
unfolding linked_item first_of
linked_item-append key d e = elim (Bool-cases (is_linked key)) [
  | inl h ↦ rw h (get_item-append key d e)
  | inr h ↦ rw h refl
]

linked_item-linked :
    (key : String) (entry : String × String) (entries : Dict String)
    → is_linked entry.0 ≡ true
    → first_of (if entry.0 == key then some entry.1 else none) (linked_item key entries)
      ≡ linked_item key (entry ∷ entries)
unfolding linked_item first_of
linked_item-linked key entry entries h = elim (Bool-cases (entry.0 == key)) [
  | inl same ↦ rw (same, ap is_linked (sym ((eq_iff entry.0 key).0 same)) ∙ h) refl
  | inr apart ↦ rw apart refl
]

linked_item-skipped :
    (key : String) (entry : String × String) (entries : Dict String)
    → is_linked entry.0 ≡ false
    → linked_item key entries ≡ linked_item key (entry ∷ entries)
unfolding linked_item
linked_item-skipped key entry entries h = elim (Bool-cases (entry.0 == key)) [
  | inl same ↦ rw (ap is_linked (sym ((eq_iff entry.0 key).0 same)) ∙ h) refl
  | inr apart ↦ rw apart refl
]

get_item-add_sources :
    (key : String) (m entries : Dict String)
    → get_item key (add_sources m entries) ≡ first_of (get_item key m) (linked_item key entries)
unfolding add_sources
get_item-add_sources key m [] =
    sym (ap (first_of (get_item key m)) (linked_item-nil key) ∙ first_of-none (get_item key m))
get_item-add_sources key m (entry ∷ entries) = elim (Bool-cases (is_linked entry.0)) [
  | inl h ↦ rw h (
      get_item-add_sources key (set_default entry.0 entry.1 m) entries
      ∙ ap (λ a. first_of a (linked_item key entries))
          (get_item-set_default-first_of entry.0 key entry.1 m)
      ∙ first_of_assoc (get_item key m) (if entry.0 == key then some entry.1 else none)
          (linked_item key entries)
      ∙ ap (first_of (get_item key m)) (linked_item-linked key entry entries h))
  | inr h ↦ rw h (
      get_item-add_sources key m entries
      ∙ ap (first_of (get_item key m)) (linked_item-skipped key entry entries h))
]

-- What the databases name, each one's own sources before its dependencies.
unfoldable pub all_items : Dict SourceDatabase → Dict String
all_items [] = []
all_items (entry ∷ databases) = (entry.1.sources ++ entry.1.dependencies) ++ all_items databases

get_item-add_databases :
    (key : String) (m : Dict String) (databases : Dict SourceDatabase)
    → get_item key (add_databases m databases)
      ≡ first_of (get_item key m) (linked_item key (all_items databases))
unfolding add_databases all_items
get_item-add_databases key m [] =
    sym (ap (first_of (get_item key m)) (linked_item-nil key) ∙ first_of-none (get_item key m))
get_item-add_databases key m (entry ∷ databases) =
    let items = entry.1.sources ++ entry.1.dependencies in
    get_item-add_databases key (add_sources m items) databases
    ∙ ap (λ a. first_of a (linked_item key (all_items databases)))
        (get_item-add_sources key m items)
    ∙ first_of_assoc (get_item key m) (linked_item key items)
        (linked_item key (all_items databases))
    ∙ ap (first_of (get_item key m)) (sym (linked_item-append key items (all_items databases)))

-- A link stands at exactly the destinations that are linked and that some database of the targets
-- names; it leads to the source that the first database names there, in the order of the targets' names
-- and within a database its own sources before its dependencies.
pub get_item-merge_source_databases :
    (destination : String) (databases : Dict SourceDatabase)
    → get_item destination (merge_source_databases databases) ≡ (
        if is_linked destination
        then get_item destination (all_items (sort_items databases))
        else none)
unfolding merge_source_databases linked_item first_of
get_item-merge_source_databases destination databases =
    get_item-add_databases destination [] (sort_items databases)

-- The links do not depend on the order in which the databases were loaded, for databases of targets
-- whose names differ.
pub merge_source_databases-perm :
    (databases others : Dict SourceDatabase)
    → IsDict databases
    → Permᴰ databases others
    → merge_source_databases databases ≡ merge_source_databases others
unfolding merge_source_databases
merge_source_databases-perm databases others h p = ap (add_databases []) (sort_items-perm h p)
