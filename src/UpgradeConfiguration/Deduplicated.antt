-- ===== src/UpgradeConfiguration/Deduplicated.antt =====
-- deduplicate_targets: the targets that others expand to are left out. `buck_query` is the output of
-- `buck query`, none for CalledProcessError.
use mathlib.Core.Option
use pyre_check.Json.{Json, array, string, Items, nil, cons}
use pyre_check.UpgradeConfiguration.{Configuration, Unusable, unusable, is_truthy, text_items}
use pyre_check.Upgrade.Suppress.Lines.{lines_behind}
use pyre_check.Texts.{Bytes, codes, ends_with, same_bytes, strip}
use pyre_check.Base.{
  sort_by, List, [], ◌∷◌, ◌++◌, Option, some, none, Bool, not, ◌||◌, String, ◌==◌, if◌then◌else◌,
  any, all, keep, ℕ, ◌+◌, Dict, set_item, sort_items, item_keys, Result, err, ok,
}

unfoldable pub is_glob : String → Bool
unfolding ends_with
is_glob target = ends_with (codes "/...") (codes target)

unfoldable pub is_queried : String → Bool
unfolding is_glob ends_with
is_queried target = is_glob target || ends_with (codes ":") (codes target)

unfoldable pub as_dict : List String → Dict (Unit {0})
as_dict [] = []
as_dict (target ∷ targets) = set_item target tt (as_dict targets)

-- `sorted(set(targets))`
unfoldable pub sorted_set : List String → List String
unfolding as_dict sort_items
sorted_set targets = item_keys (sort_items (as_dict targets))

-- `buck query` printed this for a target.
unfoldable pub expanded_targets : Bytes → List Bytes
unfolding lines_behind strip
expanded_targets output = lines_behind [] (strip output)

abbrev pub is_among : List Bytes → Bytes → Bool
is_among expanded target = any (same_bytes target) expanded

-- `targets.index(target)` of a target that is there.
unfoldable pub index : List String → String → ℕ
index [] target = 0
index (t ∷ targets) target =
    let later = index targets target in if t == target then 0 else later + 1

unfoldable pub strings_of : Items → Option (List String)
strings_of nil = some []
strings_of (cons (string text) items) = Option.map (◌∷◌ text) (strings_of items)
strings_of (cons _ items) = none

unfoldable pub characters : String → List String
characters String.[] = []
characters (String.◌∷◌ c text) = String.◌∷◌ c String.[] ∷ characters text

unfoldable pub texts_of : Json → Option (List String)
unfolding strings_of characters
texts_of (array items) = strings_of items
texts_of (string text) = some (characters text)
texts_of _ = none

module _ (buck_query : String → Option Bytes) where
  -- The targets that are kept of those from here on.
  unfoldable pub keep_unexpanded : List String → List Bytes → List String
  unfolding is_queried expanded_targets
  keep_unexpanded [] expanded = []
  keep_unexpanded (target ∷ targets) expanded =
      if is_queried target
      then elim (buck_query target) [
        | none ↦ target ∷ keep_unexpanded targets expanded
        | some output ↦
            let names = expanded_targets output in
            let skipped = keep_unexpanded targets expanded in
            let kept = target ∷ keep_unexpanded targets (expanded ++ names) in
            if all (is_among expanded) names then skipped else kept
      ]
      else (let skipped = keep_unexpanded targets expanded in
          let kept = target ∷ keep_unexpanded targets (codes target ∷ expanded) in
          if is_among expanded (codes target) then skipped else kept)

  unfoldable pub deduplicated : List String → List String
  unfolding keep_unexpanded sorted_set is_glob sort_by index
  deduplicated targets = sort_by (index targets) (
      keep_unexpanded
        (sorted_set (keep is_glob targets) ++ sorted_set (keep (λ t. not (is_glob t)) targets)) [])

  -- A text is gone through by its characters, and what is no text has no `endswith`.
  unfoldable pub deduplicate_targets :
      (String → Bool) → Configuration → Result Unusable Configuration
  unfolding deduplicated is_truthy texts_of
  deduplicate_targets is_zero c =
      if is_truthy is_zero c.targets
      then elim (texts_of c.targets) [
        | none ↦ err unusable
        | some targets ↦ ok (record c { targets = array (text_items (deduplicated targets)) })
      ]
      else ok c
