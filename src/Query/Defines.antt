-- ===== src/Query/Defines.antt =====
-- The queries of api/query.py that are sent in batches: the defines of modules, and the attributes of
-- classes.
use Prim.Native.String
use pyre_check.Json.{Json}
use pyre_check.Query.Answers.{Queried, item, iterate, value_error}
use pyre_check.Query.Parsed.{Define, Attributes, parse_define, parse_attributes}
use pyre_check.Base.{
  Dict, List, [], ◌∷◌, ◌++◌, ok, err, ◌>>=◌, map_ok, String, ℕ, zero, suc, ℤ, pos, negsuc, Option,
  some, none, take, map, length, set_item,
}

-- `separator.join(texts)`
unfoldable pub join_names : String → List String → String
join_names separator [] = ""
join_names separator (name ∷ []) = name
join_names separator (name ∷ next ∷ names) =
    String.◌++◌ name (String.◌++◌ separator (join_names separator (next ∷ names)))

abbrev pub skip {ℓ} : {A : Type ℓ} → ℕ → List A → List A
skip zero xs = xs
skip (suc n) [] = []
skip (suc n) (x ∷ xs) = skip n xs

-- The slices of `size`, one behind the other, at most `fuel` of them.
unfoldable pub slices {ℓ} : {A : Type ℓ} → ℕ → ℕ → List A → List (List A)
slices zero size xs = []
slices (suc fuel) size [] = []
slices (suc fuel) size (x ∷ xs) = take size (x ∷ xs) ∷ slices fuel size (skip size (x ∷ xs))

-- Each slice takes an element at least.
unfoldable pub chunks {ℓ} : {A : Type ℓ} → ℕ → List A → List (List A)
unfolding slices
chunks size xs = slices (length xs) size xs

abbrev pub concat {ℓ} : {A : Type ℓ} → List (List A) → List A
concat [] = []
concat (x ∷ xs) = x ++ concat xs

-- The batches of `_get_batch`.
unfoldable pub get_batch : List String → Option ℤ → Queried (List (List String))
unfolding chunks
get_batch names none = ok (names ∷ [])
get_batch names (some (pos zero)) = ok (names ∷ [])
get_batch names (some (pos (suc n))) = ok (chunks (suc n) names)
get_batch names (some (negsuc n)) = err value_error

-- The names with the answers for them, as far as both go.
pairs : List String → List Json → Dict Json
pairs (name ∷ names) (response ∷ responses) = (name, response) ∷ pairs names responses
pairs _ _ = []

abbrev pub update {ℓ} : {A : Type ℓ} → Dict A → Dict A → Dict A
update d [] = d
update d (entry ∷ entries) = update (set_item entry.0 entry.1 d) entries

module _ (query : String → Queried Json) where
  -- `_defines`
  unfoldable pub query_defines : List String → Queried (List Define)
  unfolding join_names item iterate parse_define
  query_defines modules =
      query (String.◌++◌ "defines(" (String.◌++◌ (join_names "," modules) ")"))
      >>= item "response"
      >>= iterate
      >>= map_ok parse_define

  unfoldable pub defines : List String → Option ℤ → Queried (List Define)
  unfolding query_defines chunks
  defines modules none = query_defines modules
  defines modules (some (pos (suc n))) =
      map_ok query_defines (chunks (suc n) modules) >>= λ found. ok (concat found)
  defines modules (some _) = err value_error

  batch_attributes : List String → Queried (Dict (List Attributes))
  unfolding join_names item iterate pairs parse_attributes
  batch_attributes batch = do
    let attributes = map (λ name. String.◌++◌ "attributes(" (String.◌++◌ name ")")) batch
    responses ←
        query (String.◌++◌ "batch(" (String.◌++◌ (join_names ", " attributes) ")"))
        >>= item "response"
        >>= iterate
    map_ok
        (λ (entry : String × Json). do
          found ← item "response" entry.1 >>= item "attributes" >>= parse_attributes
          ok (entry.0, found))
        (pairs batch responses)

  unfoldable pub get_attributes : List String → Option ℤ → Queried (Dict (List Attributes))
  unfolding get_batch batch_attributes
  get_attributes class_names batch_size = do
    batches ← get_batch class_names batch_size
    responses ← map_ok batch_attributes batches
    ok (update [] (concat responses))
