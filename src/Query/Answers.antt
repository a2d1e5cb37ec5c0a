-- ===== src/Query/Answers.antt =====
-- The answers to queries as JSON values, api/connection.py, and what Python's operations on such values
-- return or raise.
use pyre_check.Texts
use pyre_check.Texts.{codes}
use pyre_check.Json.{
  Json, array, dict, string, contains, get, elements, keys, end, field, nil, cons,
}
use pyre_check.Base.{
  Dict, List, [], ◌∷◌, Option, some, none, ok, err, Result, ◌>>=◌, any, map, if◌then◌else◌, ◌==◌,
  false, Bool, String,
}

-- PyreQueryError with its argument, and what Python raises on a value of another shape.
pub data QueryError : Type 0 where
  query_failed : Json → QueryError
  key_error type_error index_error value_error attribute_error : QueryError

abbrev pub Queried {ℓ} : Type ℓ → Type ℓ
Queried A = Result QueryError A

-- `value[name]`
unfoldable pub item : String → Json → Queried Json
item name (dict fields) = if contains name fields then ok (get name fields) else err key_error
item name _ = err type_error

letters : String → List Json
letters String.[] = []
letters (String.◌∷◌ c text) = string (String.◌∷◌ c String.[]) ∷ letters text

-- What a `for` over the value goes through.
unfoldable pub iterate : Json → Queried (List Json)
unfolding letters
iterate (array items) = ok (elements items)
iterate (dict fields) = ok (map string (keys fields))
iterate (string text) = ok (letters text)
iterate _ = err type_error

-- `value[0]`
unfoldable pub first_item : Json → Queried Json
unfolding letters
first_item (array nil) = err index_error
first_item (array (cons value rest)) = ok value
first_item (dict fields) = err key_error
first_item (string String.[]) = err index_error
first_item (string (String.◌∷◌ c text)) = ok (string (String.◌∷◌ c String.[]))
first_item _ = err type_error

-- `value == name` for a name.
unfoldable pub is_name : String → Json → Bool
is_name name (string text) = text == name
is_name name _ = false

-- `name in value`
unfoldable pub is_in : String → Json → Queried Bool
unfolding is_name
is_in name (dict fields) = ok (contains name fields)
is_in name (array items) = ok (any (is_name name) (elements items))
is_in name (string text) = ok (Texts.contains (codes name) (codes text))
is_in name _ = err type_error

-- `value.items()`
unfoldable pub items : Json → Queried (Dict Json)
items (dict end) = ok []
items (dict (field name value fields)) = items (dict fields) >>= λ rest. ok ((name, value) ∷ rest)
items _ = err attribute_error

unfoldable pub validate_query_response : Option Json → Queried Json
unfolding is_in item
validate_query_response none = err (query_failed (string "not valid JSON"))
validate_query_response (some response) = is_in "error" response >>= λ failed.
    is_in "response" response >>= λ answered.
    if failed
    then item "error" response >>= (λ message. err (query_failed message))
    else if answered
    then ok response
    else err (query_failed (string "invalid response"))
