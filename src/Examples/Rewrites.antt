-- ===== src/Examples/Rewrites.antt =====
-- Configurations that the upgrade tool rewrites, on concrete inputs.
use pyre_check.Json.{contains, Fields, field, end, string, get, array, cons, nil, remove}
use pyre_check.PathLib.{PurePath}
use pyre_check.Texts.{Bytes, codes}
use pyre_check.UpgradeConfiguration.{
  configuration_of, get_contents, add_targets, set_key, extended, append_items, text_items,
  is_truthy,
}
use pyre_check.UpgradeConfiguration.Contents.{get_contents-configuration_of}
use pyre_check.UpgradeConfiguration.Deduplicated.{deduplicated}
use pyre_check.UpgradeConfiguration.Expansions.{Expands, deduplicated-Expands}
use pyre_check.SourceDatabase.{last_name}
use pyre_check.Base.{
  text_lt, List, [], ◌∷◌, ◌++◌, ◌≡◌, ◌↔◌, refl, ok, String, Option, some, none, false,
  if◌then◌else◌, ◌==◌, ◌>>=◌,
}

-- The query of one pattern fails.
abbrev answers : String → Option Bytes
answers target = if target == "//a/..." then some (codes "//a:x" ++ (10 ∷ codes "//a:y")) else none

abbrev wanted : List String
wanted = "//a:y" ∷ "//b/..." ∷ "//a/..." ∷ "//a:z" ∷ []

deduplicated_test : deduplicated answers wanted ≡ "//b/..." ∷ "//a/..." ∷ "//a:z" ∷ []
unfolding deduplicated text_lt
deduplicated_test = refl

deduplicated-Expands_example :
    Expands answers (codes "//a:y") (deduplicated answers wanted)
    ↔ Expands answers (codes "//a:y") wanted
deduplicated-Expands_example = deduplicated-Expands answers wanted (codes "//a:y")

abbrev project : PurePath
project = record { root = "/"; parts = "p" ∷ ".pyre_configuration" ∷ [] }

-- The strictness is of a type that nothing checks.
abbrev project_contents : Fields
project_contents =
    field "version" (string "1.0")
      (field "strict" (string "yes") (field "targets" (array (cons (string "//a:x") nil)) end))

get_contents-configuration_of_example :
    get "targets" (get_contents (configuration_of project project_contents))
    ≡ get "targets" project_contents
get_contents-configuration_of_example =
    get_contents-configuration_of project project_contents "targets"

added_test :
    (add_targets (λ literal. false) ("//b:y" ∷ []) (configuration_of project project_contents)
      >>= λ c. ok (get "targets" (get_contents c)))
    ≡ ok (array (cons (string "//a:x") (cons (string "//b:y") nil)))
unfolding add_targets get_contents set_key configuration_of last_name get contains extended
    append_items text_items remove is_truthy
added_test = refl
