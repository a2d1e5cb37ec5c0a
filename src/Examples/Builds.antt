-- ===== src/Examples/Builds.antt =====
-- The links of merged source databases on concrete inputs.
use mathlib.Core.List.Permᴰ.{Permᴰ}
use mathlib.Core.List.{Nodup-nil}
use pyre_check.Texts.{Bytes}
use pyre_check.SourceDatabase.Tree.{link, build_links}
use pyre_check.SourceDatabase.{
  Built, Decoded, decoded, build, query_targets, build_targets, load_source_databases,
  SourceDatabase, merge_source_databases, is_linked,
}
use pyre_check.SourceDatabase.Merged.{
  all_items, get_item-merge_source_databases, merge_source_databases-perm,
}
use pyre_check.PathLib.{PurePath, path, ◌/◌}
use pyre_check.Base.{
  map_ok, ok, map, All, Bool, true, text_lt, Dict, get_item, sort_items, IsDict, IsDict-cons, [],
  ◌∷◌, ◌≡◌, refl, none, if◌then◌else◌, List, String,
}

abbrev library : SourceDatabase
library = record {
  sources = ("a.py", "lib/a.py") ∷ ("data.txt", "lib/data.txt") ∷ [];
  dependencies = [];
}

abbrev binary : SourceDatabase
binary = record {
  sources = ("b.py", "bin/b.py") ∷ ("__manifest__.py", "gen/m.py") ∷ [];
  dependencies = ("a.py", "other/a.py") ∷ [];
}

abbrev databases : Dict SourceDatabase
databases = ("//x:lib", library) ∷ ("//x:bin", binary) ∷ []

databases-IsDict : IsDict databases
databases-IsDict =
    IsDict-cons ("//x:lib", library) (("//x:bin", binary) ∷ []) refl
      (IsDict-cons ("//x:bin", binary) [] refl Nodup-nil)

get_item-merge_source_databases_example :
    get_item "a.py" (merge_source_databases databases)
    ≡ (if is_linked "a.py" then get_item "a.py" (all_items (sort_items databases)) else none)
get_item-merge_source_databases_example = get_item-merge_source_databases "a.py" databases

merge_source_databases-perm_example :
    merge_source_databases databases
    ≡ merge_source_databases (("//x:bin", binary) ∷ ("//x:lib", library) ∷ [])
merge_source_databases-perm_example =
    merge_source_databases-perm databases (("//x:bin", binary) ∷ ("//x:lib", library) ∷ [])
      databases-IsDict (Permᴰ.swap refl refl)

merged_test : merge_source_databases databases ≡ ("b.py", "bin/b.py") ∷ ("a.py", "other/a.py") ∷ []
unfolding merge_source_databases text_lt path
merged_test = refl

abbrev run_buck : Bytes → List String → Built Bytes
run_buck arguments_file command = ok []

abbrev decoded_targets : Bytes → Decoded (Dict (List String))
decoded_targets output = decoded (("//x:lib", "//x:lib" ∷ "//x:lib-mypy_ini" ∷ []) ∷ [])

abbrev decoded_paths : Bytes → Decoded (Dict String)
decoded_paths output = decoded (("//x:lib#source-db", "db.json") ∷ [])

abbrev read_library : String → Built SourceDatabase
read_library file = ok library

abbrev everything : PurePath → Bool
everything p = true

abbrev out : PurePath
out = record { root = "/"; parts = "out" ∷ [] }

abbrev root_of_buck : PurePath
root_of_buck = record { root = "/"; parts = "repo" ∷ [] }

abbrev built_links : List (PurePath × PurePath)
built_links =
    (
      record { root = "/"; parts = "out" ∷ "a.py" ∷ [] },
      record { root = "/"; parts = "repo" ∷ "lib" ∷ "a.py" ∷ [] },
    )
    ∷ []

build_test :
    build run_buck decoded_targets decoded_paths read_library everything
      ("x:" ∷ [])
      out
      root_of_buck
      none
      none
    ≡ ok built_links
unfolding build map_ok path ◌/◌
build_test = refl

build_links_example :
    (targets : List String) × (target_paths : Dict String) × (loaded : Dict SourceDatabase)
    × (query_targets run_buck decoded_targets decoded_paths read_library ("x:" ∷ []) none none
        ≡ ok targets)
    × (build_targets run_buck decoded_targets decoded_paths read_library targets none
        ≡ ok target_paths)
    × (load_source_databases run_buck decoded_targets decoded_paths read_library target_paths
        ≡ ok loaded)
    × (built_links ≡ map (link out root_of_buck) (merge_source_databases loaded))
    × All
        (λ (entry : String × String). everything (root_of_buck / path entry.1) ≡ true)
        (merge_source_databases loaded)
build_links_example =
    build_links run_buck decoded_targets decoded_paths read_library everything ("x:" ∷ []) out
      root_of_buck none none built_links build_test
