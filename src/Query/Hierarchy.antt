-- ===== src/Query/Hierarchy.antt =====
-- The class hierarchy of api/query.py: the superclasses of each class as the server dumps them, and the
-- subclasses that are read off them.
use pyre_check.Json.{Json, string, array, dict, nil}
use pyre_check.Query.Answers.{Queried, item, iterate, items, key_error, type_error}
use pyre_check.Query.Defines.{update, concat}
use pyre_check.Base.{
  Dict, List, [], ◌∷◌, ◌++◌, ok, err, ◌>>=◌, map_ok, if◌then◌else◌, String, map, has_item, set_item,
  ◌==◌,
}

unfoldable pub get_class_hierarchy : (String → Queried Json) → Queried (Dict Json)
unfolding item iterate items
get_class_hierarchy query = do
  answer ← query "dump_class_hierarchy()" >>= item "response" >>= iterate
  hierarchy ← map_ok items answer
  ok (update [] (concat hierarchy))

-- `mapping.get(class_name, [])`
unfoldable pub get_or_empty : String → Dict (List String) → List String
get_or_empty class_name [] = []
get_or_empty class_name (entry ∷ mapping) =
    let later = get_or_empty class_name mapping in if entry.0 == class_name then entry.1 else later

-- `reversed_mapping[value].append(key)`; a list or a dict is no key of a dict.
unfoldable pub append_subclass : Json → String → Dict (List String) → Queried (Dict (List String))
unfolding get_or_empty
append_subclass (string value) key mapping =
    if has_item value mapping
    then ok (set_item value (get_or_empty value mapping ++ (key ∷ [])) mapping)
    else err key_error
append_subclass (array items) key mapping = err type_error
append_subclass (dict fields) key mapping = err type_error
append_subclass _ key mapping = err key_error

unfoldable pub append_subclasses :
    List Json → String → Dict (List String) → Queried (Dict (List String))
unfolding append_subclass
append_subclasses [] key mapping = ok mapping
append_subclasses (value ∷ values) key mapping =
    append_subclass value key mapping >>= append_subclasses values key

unfoldable pub reverse_entries : Dict Json → Dict (List String) → Queried (Dict (List String))
unfolding append_subclasses
reverse_entries [] mapping = ok mapping
reverse_entries (entry ∷ hierarchy) mapping =
    iterate entry.1
    >>= (λ values. append_subclasses values entry.0 mapping)
    >>= reverse_entries hierarchy

unfoldable pub no_subclasses : Dict Json → Dict (List String)
no_subclasses hierarchy = map (λ entry. (entry.0, [])) hierarchy

unfoldable pub reverse_hierarchy : Dict Json → Queried (Dict (List String))
unfolding reverse_entries no_subclasses
reverse_hierarchy hierarchy = reverse_entries hierarchy (no_subclasses hierarchy)

unfoldable pub subclasses : Dict Json → String → Queried (List String)
unfolding reverse_hierarchy get_or_empty
subclasses hierarchy class_name =
    reverse_hierarchy hierarchy >>= λ mapping. ok (get_or_empty class_name mapping)

unfoldable pub superclasses : Dict Json → String → Json
superclasses [] class_name = array nil
superclasses (entry ∷ hierarchy) class_name =
    let later = superclasses hierarchy class_name in
    if entry.0 == class_name then entry.1 else later
