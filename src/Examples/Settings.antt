-- ===== src/Examples/Settings.antt =====
-- Configurations at concrete inputs.
use pyre_check.Configuration.Partial.{unset, PartialConfiguration}
use pyre_check.Json.{field, end, string, bool, Fields}
use pyre_check.Base.{
  [], ◌∷◌, refl, ◌≡◌, some, none, true, false, String, ok, err, ◌>>=◌, ◌↔◌, AnyOf, Listed,
}
use pyre_check.Configuration.Elements.{Checked}
use pyre_check.Configuration.Merge.{merge_partial_configurations}
use pyre_check.Configuration.Merge.Laws.{SameOutcome, merge_assoc}
use pyre_check.Configuration.Resolved.{
  Configuration, Machine, from_partial_configuration, get_existent_ignore_all_errors_paths,
}
use pyre_check.PathLib.{path, root_of, segments, is_absolute}
use pyre_check.Configuration.Resolved.Queries.{StandsFor, get_existent_ignore_all_errors_paths_iff}

abbrev pub home : String → String
home user = "/root"

homes : (user : String) → is_absolute (path (home user)) ≡ true
unfolding path root_of segments
homes user = refl

rooted : is_absolute (path "/proj") ≡ true
unfolding path root_of segments
rooted = refl

abbrev pub document : Fields
document =
    field "binary" (string "pyre") (field "oncall" (string "me") (field "strictt" (bool true) end))

abbrev partial_of : Checked PartialConfiguration → PartialConfiguration
partial_of (ok partial) = partial
partial_of (err e) = unset

abbrev pub machine : Machine
machine = record {
  home = home;
  exists = λ p. true;
  expand_glob = λ p. p ∷ [];
  binary_in_path = λ name. none;
  script_directory = "/bin";
  processors = some 2;
  version_override = none;
  found_typeshed = none;
  typeshed_paths = λ root. [];
  in_virtual_environment = false;
  site_roots = [];
}

abbrev small : PartialConfiguration
small = record unset { binary = some "pyre"; excludes = "a" ∷ [] }

abbrev large : PartialConfiguration
large = record unset { binary = some "pyre.bin"; excludes = "b" ∷ [] }

abbrev aims : PartialConfiguration
aims = record unset { targets = some ("//a" ∷ []); ignore_all_errors = "x" ∷ [] }

abbrev pub configuration : Configuration
configuration =
    from_partial_configuration machine (record { root = "/"; parts = "proj" ∷ [] }) none aims

merge_assoc_example :
    SameOutcome
      (merge_partial_configurations small aims >>= λ ab. merge_partial_configurations ab large)
      (merge_partial_configurations aims large >>= λ bc. merge_partial_configurations small bc)
merge_assoc_example = merge_assoc small aims large

get_existent_ignore_all_errors_paths_iff_example :
    Listed "x" (get_existent_ignore_all_errors_paths machine configuration)
    ↔ ((true ≡ true) × AnyOf (StandsFor machine configuration.project_root "x") ("x" ∷ []))
unfolding from_partial_configuration
get_existent_ignore_all_errors_paths_iff_example =
    get_existent_ignore_all_errors_paths_iff machine configuration "x"
