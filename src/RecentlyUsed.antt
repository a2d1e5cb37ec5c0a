-- ===== src/RecentlyUsed.antt =====
-- client/recently_used_configurations.py: the cache of local roots, and the prompt for one of them.
-- The items are texts, as everywhere in the client. `loads` is json.loads on the text of the file, or
-- None for JSONDecodeError, and `dumps` is json.dumps; a file with JSON of another shape is not
-- modelled.
pub mod History
pub mod Kept
pub mod Prompt
use pyre_check.Base.{
  [], ◌∷◌, ◌++◌, List, refl, ◌≡◌, some, none, Option, true, false, Bool, arith, String, ◌==◌, ap,
  ok, err, Result, inl, inr, ◌>>=◌, ◌>>◌, if◌then◌else◌, keep, take, ℕ, ℤ, ◌||◌, not, pos, suc,
  ◌&&◌, negsuc, zero, ltb, length, ◌-◌,
}

abbrev pub maximum_recent_items : ℕ
maximum_recent_items = 10

-- `[item for item in existing_items if item != new_item]`
abbrev pub without : String → List String → List String
without item items = keep (λ other. not (other == item)) items

unfoldable pub add_recent_item : String → List String → List String
add_recent_item new_item existing_items =
    take maximum_recent_items (new_item ∷ without new_item existing_items)

-- The cache directory, the two files in it, and whether another process holds the lock.
pub record CacheFiles : Type 0 where
  pub has_directory : Bool
  pub has_lock_file : Bool
  pub is_held : Bool
  pub items_file : Option String

-- What acquire_lock gives to the body, without blocking: the lock, no lock for want of a directory,
-- or OSError.
pub data Lock : Type 0 where
  acquired unlocked refused : Lock

unfoldable pub acquire_lock : CacheFiles → Lock
acquire_lock c = if not c.has_directory then unlocked else if c.is_held then refused else acquired

-- Opening the lock file creates it.
abbrev pub opened : CacheFiles → CacheFiles
opened c = record c { has_lock_file = c.has_directory || c.has_lock_file }

module _ (loads : String → Option (List String)) where
  -- A file that is missing and one that is no JSON have no items.
  unfoldable pub items_of : Option String → List String
  items_of none = []
  items_of (some text) = elim (loads text) [ none ↦ [] | some items ↦ items ]

  unfoldable pub load_items_from_file : CacheFiles → List String
  unfolding items_of
  load_items_from_file c = items_of c.items_file

  items_under : Lock → CacheFiles → List String × CacheFiles
  unfolding load_items_from_file
  items_under refused c = ([], opened c)
  items_under _ c = (load_items_from_file c, opened c)

  unfoldable pub get_all_items : CacheFiles → List String × CacheFiles
  unfolding acquire_lock items_under
  get_all_items c = items_under (acquire_lock c) c

  module _ (dumps : List String → String) where
    -- Without the directory, writing the file is the OSError that `put` passes over.
    pub put_under : Lock → String → CacheFiles → CacheFiles
    unfolding load_items_from_file
    put_under acquired new_item c = record (opened c) {
      items_file = some (dumps (add_recent_item new_item (load_items_from_file c)));
    }
    put_under unlocked new_item c = c
    put_under refused new_item c = opened c

    unfoldable pub put : String → CacheFiles → CacheFiles
    unfolding acquire_lock put_under
    put new_item c = put_under (acquire_lock c) new_item c

-- Where the lock file cannot be removed, the items stay. A lock on the removed file is of no use.
unfoldable pub delete : CacheFiles → CacheFiles
delete c =
    if c.has_directory && c.has_lock_file
    then record c { has_lock_file = false; is_held = false; items_file = none }
    else c

-- `local_roots[index]`, whose negative indices count from the end.
unfoldable pub get_elem? {ℓ} : {A : Type ℓ} → List A → ℕ → Option A
get_elem? [] n = none
get_elem? (x ∷ xs) zero = some x
get_elem? (x ∷ xs) (suc n) = get_elem? xs n

unfoldable pub python_index {ℓ} : {A : Type ℓ} → List A → ℤ → Option A
unfolding get_elem?
python_index xs (pos n) = get_elem? xs n
python_index xs (negsuc n) = if ltb n (length xs) then get_elem? xs (length xs - suc n) else none

-- What the user does at the prompt; `interrupted` is EOFError or KeyboardInterrupt.
pub data UserInput : Type 0 where
  entered : String → UserInput
  interrupted : UserInput

-- `int` of a text is the number, or None for ValueError.
module _ (parse_int : String → Option ℤ) where
  index_of : String → Option ℤ
  index_of text = if text == "" then some (pos 0) else parse_int text

  chosen : List String → Option ℤ → Option String
  chosen local_roots none = none
  chosen local_roots (some index) = python_index local_roots index

  answer : List String → UserInput → Option String
  unfolding index_of chosen
  answer local_roots interrupted = none
  answer local_roots (entered text) = chosen local_roots (index_of text)

  unfoldable pub prompt_user_for_local_root : Bool → UserInput → List String → Option String
  unfolding answer
  prompt_user_for_local_root is_capable input local_roots =
      if not is_capable then none else answer local_roots input
