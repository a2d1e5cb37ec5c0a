-- ===== src/Query/Subclasses.antt =====
-- The subclasses of a class against the superclasses of every class.
use pyre_check.Json.{elements, Json, null, bool, int, float, array, string, dict}
use pyre_check.Query.Answers.{iterate, is_name}
use pyre_check.Query.Hierarchy.{
  get_or_empty, reverse_entries, no_subclasses, subclasses, superclasses, reverse_hierarchy,
}
use mathlib.Core.List.{Mem, Nodup-cons, mem-cons_self, mem-cons_of_mem}
use pyre_check.Query.Reversed.{occurrences, values_of, named_by, reverse_entries-get_or_empty}
use pyre_check.Base.{
  IsDict, item_keys, subst, Dict, List, [], ◌∷◌, ◌++◌, ok, String, ◌≡◌, refl, ◌∙◌, ap, sym, ◌==◌,
  eq_iff, Bool-cases, inl, inr, >>=-eq-ok, Listed, true, AnyOf-append, ◌↔◌,
}

no_subclasses-get_or_empty :
    (hierarchy : Dict Json) (class_name : String)
    → get_or_empty class_name (no_subclasses hierarchy) ≡ []
unfolding no_subclasses get_or_empty
no_subclasses-get_or_empty [] class_name = refl
no_subclasses-get_or_empty (entry ∷ hierarchy) class_name =
    elim (Bool-cases (entry.0 == class_name)) [
      | inl same ↦ rw same refl
      | inr apart ↦ rw apart (no_subclasses-get_or_empty hierarchy class_name)
    ]

subclasses-named_by :
    (hierarchy : Dict Json) (class_name : String) (found : List String)
    → subclasses hierarchy class_name ≡ ok found
    → found ≡ named_by class_name hierarchy
unfolding subclasses reverse_hierarchy
subclasses-named_by hierarchy class_name found h =
    let (mapping, reversed, read) =
      >>=-eq-ok (reverse_entries hierarchy (no_subclasses hierarchy))
        (λ mapping. ok (get_or_empty class_name mapping)) h in
    let same : get_or_empty class_name mapping ≡ found = cc (read) in
    sym same
    ∙ reverse_entries-get_or_empty hierarchy class_name (no_subclasses hierarchy) mapping reversed
    ∙ ap (λ l. l ++ named_by class_name hierarchy) (no_subclasses-get_or_empty hierarchy class_name)

is_name_iff :
    (class_name : String) (value : Json)
    → (is_name class_name value ≡ true) ↔ (value ≡ string class_name)
unfolding is_name
is_name_iff class_name (string text) =
    (λ h. ap string ((eq_iff text class_name).0 h), λ h. (eq_iff text class_name).1 (cc (h)))
is_name_iff class_name null = (λ h. cc (h), λ h. cc (h))
is_name_iff class_name (bool _) = (λ h. cc (h), λ h. cc (h))
is_name_iff class_name (int _) = (λ h. cc (h), λ h. cc (h))
is_name_iff class_name (float _) = (λ h. cc (h), λ h. cc (h))
is_name_iff class_name (array _) = (λ h. cc (h), λ h. cc (h))
is_name_iff class_name (dict _) = (λ h. cc (h), λ h. cc (h))

occurrences_iff :
    (key other class_name : String) (values : List Json)
    → Listed other (occurrences class_name key values)
      ↔ ((key ≡ other) × Listed (string class_name) values)
unfolding occurrences
occurrences_iff key other class_name [] = (λ h. absurd h, λ h. absurd h.1)
occurrences_iff key other class_name (value ∷ values) =
    elim (Bool-cases (is_name class_name value)) [
      | inl named ↦ rw named (
        λ h. elim h [
          | inl same ↦ (same, inl ((is_name_iff class_name value).0 named))
          | inr later ↦
              let (same, listed) = (occurrences_iff key other class_name values).0 later in
              (same, inr listed)
        ],
        λ h. inl h.0,
      )
      | inr apart ↦ rw apart (
        λ h.
            let (same, listed) = (occurrences_iff key other class_name values).0 h in
            (same, inr listed),
        λ h. elim ((AnyOf-append (λ q. q ≡ string class_name) (value ∷ []) values).0 h.1) [
          | inl (inl here) ↦ cc (sym apart ∙ (is_name_iff class_name value).1 here)
          | inl (inr nothing) ↦ absurd nothing
          | inr listed ↦ (occurrences_iff key other class_name values).1 (h.0, listed)
        ],
      )
    ]

named_by-keys :
    (hierarchy : Dict Json) (class_name other : String)
    → Listed other (named_by class_name hierarchy)
    → Mem other (item_keys hierarchy)
unfolding named_by
named_by-keys [] class_name other h = absurd h
named_by-keys (entry ∷ hierarchy) class_name other h =
    let named = occurrences class_name entry.0 (values_of (iterate entry.1)) in
    elim ((AnyOf-append (λ q. q ≡ other) named (named_by class_name hierarchy)).0 h) [
      | inl here ↦
          let (same, _) =
            (occurrences_iff entry.0 other class_name (values_of (iterate entry.1))).0 here in
          subst (λ k. Mem k (item_keys (entry ∷ hierarchy))) same mem-cons_self
      | inr later ↦ mem-cons_of_mem entry.0 (named_by-keys hierarchy class_name other later)
    ]

-- The superclasses of a class, as the code goes through them.
unfoldable pub listed_superclasses : Dict Json → String → List Json
unfolding superclasses values_of iterate
listed_superclasses hierarchy class_name = values_of (iterate (superclasses hierarchy class_name))

named_by_iff :
    (hierarchy : Dict Json) (class_name other : String)
    → IsDict hierarchy
    → Listed other (named_by class_name hierarchy)
      ↔ Listed (string class_name) (listed_superclasses hierarchy other)
unfolding named_by listed_superclasses superclasses elements
named_by_iff [] class_name other h = (λ h. absurd h, λ h. absurd h)
named_by_iff (entry ∷ hierarchy) class_name other h =
    let named = occurrences class_name entry.0 (values_of (iterate entry.1)) in
    let append = AnyOf-append (λ q. q ≡ other) named (named_by class_name hierarchy) in
    let here = occurrences_iff entry.0 other class_name (values_of (iterate entry.1)) in
    let later = named_by_iff hierarchy class_name other (Nodup-cons.0 h).1 in
    elim (Bool-cases (entry.0 == other)) [
      | inl same ↦ rw same (
        λ l. elim (append.0 l) [
          | inl first ↦ (here.0 first).1
          | inr rest ↦ absurd (
              (Nodup-cons.0 h).0 (
                subst (λ k. Mem k (item_keys hierarchy)) (sym ((eq_iff entry.0 other).0 same))
                  (named_by-keys hierarchy class_name other rest)))
        ],
        λ l. append.1 (inl (here.1 ((eq_iff entry.0 other).0 same, l))),
      )
      | inr apart ↦ rw apart (
        λ l. elim (append.0 l) [
          | inl first ↦ cc (sym apart ∙ (eq_iff entry.0 other).1 (here.0 first).0)
          | inr rest ↦ later.0 rest
        ],
        λ l. append.1 (inr (later.1 l)),
      )
    ]

-- In a dump of classes whose names differ, and that the code turns around without an error: a class is
-- among the subclasses of another exactly when the other is among its superclasses.
pub subclasses_iff_superclasses :
    (hierarchy : Dict Json) (class_name other : String) (found : List String)
    → IsDict hierarchy
    → subclasses hierarchy class_name ≡ ok found
    → Listed other found ↔ Listed (string class_name) (listed_superclasses hierarchy other)
subclasses_iff_superclasses hierarchy class_name other found unique h =
    subst (λ l. Listed other l ↔ Listed (string class_name) (listed_superclasses hierarchy other))
      (sym (subclasses-named_by hierarchy class_name found h))
      (named_by_iff hierarchy class_name other unique)
