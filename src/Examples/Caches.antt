-- ===== src/Examples/Caches.antt =====
-- A cache of recently used local roots. A stand-in for JSON writes a mark before each character of an
-- item, and another mark behind the item.
use Prim.Native.Char.{Char, code}
use pyre_check.PathLib.{prepend}
use pyre_check.RecentlyUsed.{
  CacheFiles, prompt_user_for_local_root, entered, get_all_items, load_items_from_file,
  python_index,
}
use pyre_check.RecentlyUsed.Kept.{
  puts, gets, deletes, locks, unlocks, IsKept, Use, after_all, after_all-IsKept,
}
use pyre_check.Base.{
  [], ◌∷◌, List, refl, ◌≡◌, some, none, Option, true, false, arith, String, ◌==◌, ap, if◌then◌else◌,
  ℤ, ◌∙◌, eqb, negsuc, take,
}
use pyre_check.RecentlyUsed.History.{put_all, latest_puts, get_all_items-put_all}
use pyre_check.Specification.{items_of}

abbrev character_mark : Char
character_mark = "x"

abbrev item_mark : Char
item_mark = "y"

write_item : String → String → String
write_item String.[] rest = String.◌∷◌ item_mark rest
write_item (String.◌∷◌ c s) rest = String.◌∷◌ character_mark (String.◌∷◌ c (write_item s rest))

dumps : List String → String
dumps [] = ""
dumps (item ∷ items) = write_item item (dumps items)

parse : String → List String
parse String.[] = []
parse (String.◌∷◌ mark String.[]) = "" ∷ []
parse (String.◌∷◌ mark (String.◌∷◌ c s)) =
    if eqb (code mark) b'y' then "" ∷ parse (String.◌∷◌ c s) else prepend c (parse s)

parse-item_mark : (s : String) → parse (String.◌∷◌ item_mark s) ≡ "" ∷ parse s
unfolding parse
parse-item_mark String.[] = refl
parse-item_mark (String.◌∷◌ c s) = refl

parse-write_item : (item rest : String) → parse (write_item item rest) ≡ item ∷ parse rest
unfolding parse write_item prepend
parse-write_item String.[] rest = parse-item_mark rest
parse-write_item (String.◌∷◌ c s) rest = rw (parse-write_item s rest)

parse-dumps : (items : List String) → parse (dumps items) ≡ items
unfolding parse dumps
parse-dumps [] = refl
parse-dumps (item ∷ items) =
    parse-write_item item (dumps items) ∙ ap (λ l. item ∷ l) (parse-dumps items)

loads : String → Option (List String)
loads text = some (parse text)

loads-dumps : (items : List String) → loads (dumps items) ≡ some items
unfolding loads
loads-dumps items = ap some (parse-dumps items)

abbrev new_cache : CacheFiles
new_cache = record {
  has_directory = true;
  has_lock_file = false;
  is_held = false;
  items_file = none;
}

nothing-IsKept : IsKept (load_items_from_file loads new_cache)
unfolding load_items_from_file items_of
nothing-IsKept = (tt, omega arith)

abbrev some_uses : List Use
some_uses = puts "a" ∷ locks ∷ puts "b" ∷ unlocks ∷ puts "c" ∷ gets ∷ deletes ∷ puts "a" ∷ []

after_all-IsKept_example :
    IsKept (load_items_from_file loads (after_all loads dumps some_uses new_cache))
after_all-IsKept_example =
    after_all-IsKept loads dumps loads-dumps some_uses new_cache nothing-IsKept

get_all_items-put_all_example :
    (get_all_items loads (put_all loads dumps ("b" ∷ "a" ∷ "b" ∷ []) new_cache)).0
    ≡ take 10 (latest_puts [] ("b" ∷ "a" ∷ "b" ∷ []))
get_all_items-put_all_example =
    get_all_items-put_all loads dumps loads-dumps ("b" ∷ "a" ∷ "b" ∷ []) new_cache refl refl refl

abbrev minus_one : String → Option ℤ
minus_one text = if text == "-1" then some (negsuc 0) else none

chooses_last : prompt_user_for_local_root minus_one true (entered "-1") ("a" ∷ "b" ∷ []) ≡ some "b"
unfolding prompt_user_for_local_root python_index
chooses_last = refl
