-- ===== src/SourceDatabase.antt =====
-- client/source_database_buck_builder.py: what is asked of buck, and how the source databases of its
-- targets are merged into one tree of links. `run` runs a command, with what it finds in the file of
-- arguments; `read` reads and decodes the database at a path.
pub mod Merged
pub mod Tree
use Prim.Native.String
use pyre_check.Base.{
  [], ◌∷◌, ◌++◌, List, some, none, Option, true, false, Bool, String, ok, err, Result, ◌>>=◌,
  if◌then◌else◌, ℕ, ◌-◌, ◌&&◌, ◌||◌, not, keep, map, any, take, Dict, get_item, has_item,
  set_default, set_item, sort_items, ◌==◌, map_ok,
}
use pyre_check.Texts.{Bytes, codes, contains, ends_with, same_bytes}
use pyre_check.Texts.Lines.{split_lines}
use pyre_check.Upgrade.Suppress.Lines.{join_lines}
use pyre_check.PathLib.{PurePath, path, path_text, ◌/◌}

-- TypedDict SourceDatabase.
pub record SourceDatabase : Type 0 where
  pub sources : Dict String
  pub dependencies : Dict String

-- CalledProcessError, JSONDecodeError, what reading a database raises, AssertionError for a source
-- that is not there, and the errors of a link whose place is taken.
pub data BuildError : Type 0 where
  command_failed invalid_json unreadable_database missing_source link_conflict : BuildError

abbrev pub Built {ℓ} : Type ℓ → Type ℓ
Built A = Result BuildError A

isolation_prefix_arguments : Option String → List String
isolation_prefix_arguments none = []
isolation_prefix_arguments (some prefix) = "--isolation_prefix" ∷ prefix ∷ []

unfoldable pub buck_command : List String → Option String → List String
unfolding isolation_prefix_arguments
buck_command arguments isolation_prefix =
    "buck"
    ∷ (isolation_prefix_arguments isolation_prefix
        ++ (arguments ++ ("--config" ∷ "client.id=pyre" ∷ [])))

mode_sublist : Option String → List String
mode_sublist none = []
mode_sublist (some mode) = String.◌++◌ "@mode/" mode ∷ []

unfoldable pub get_buck_query_arguments : List String → Option String → List String
unfolding mode_sublist
get_buck_query_arguments specifications mode =
    "query"
    ∷ "--json"
    ∷ (mode_sublist mode
        ++ ("kind(\"python_binary|python_library|python_test\", %s) - attrfilter(labels, generated, %s) + attrfilter(labels, unittest-library, %s) - attrfilter(labels, no_pyre, %s)"
            ∷ specifications))

unfoldable pub normalize_specification : String → String
unfolding contains
normalize_specification specification =
    if contains (codes "//") (codes specification)
    then specification
    else String.◌++◌ "//" specification

unfoldable pub ignore_target : String → Bool
unfolding ends_with
ignore_target target =
    ends_with (codes "-mypy_ini") (codes target)
    || ends_with (codes "-testmodules-lib") (codes target)

-- What json.loads makes of a text: a value, JSONDecodeError for data behind a value, with the line on
-- which it begins, from 1, or another JSONDecodeError.
pub data Decoded (A : Type 0) : Type 0 where
  decoded : A → Decoded A
  extra_data : ℕ → Decoded A
  malformed : Decoded A

only_decoded : {A : Type 0} → Decoded A → Built A
only_decoded (decoded a) = ok a
only_decoded _ = err invalid_json

retried : {A : Type 0} → (Bytes → Decoded A) → Bytes → Decoded A → Built A
unfolding only_decoded split_lines join_lines
retried loads source (decoded a) = ok a
retried loads source malformed = err invalid_json
retried loads source (extra_data line_number) =
    only_decoded (loads (join_lines (take (line_number - 1) (split_lines source))))

unfoldable pub load_json_ignoring_extra_data : {A : Type 0} → (Bytes → Decoded A) → Bytes → Built A
unfolding retried
load_json_ignoring_extra_data loads source = retried loads source (loads source)

unfoldable pub get_buck_build_arguments : List String → List String
get_buck_build_arguments targets =
    "--show-full-json-output" ∷ map (λ target. String.◌++◌ target "#source-db") targets

abbrev pub flat : {A : Type 0} → List (List A) → List A
flat [] = []
flat (x ∷ xs) = x ++ flat xs

-- The last part of a path.
unfoldable pub last_name : List String → String
last_name [] = ""
last_name (x ∷ []) = x
last_name (x ∷ y ∷ rest) = last_name (y ∷ rest)

-- `Path(destination).suffix in (".py", ".pyi")`: a name that is all suffix has none.
unfoldable pub is_python : String → Bool
unfolding ends_with same_bytes last_name
is_python destination =
    let name = codes (last_name (path destination).parts) in
    (ends_with (codes ".py") name && not (same_bytes name (codes ".py")))
    || (ends_with (codes ".pyi") name && not (same_bytes name (codes ".pyi")))

-- The modules that are linked: the Python files that buck does not generate.
unfoldable pub is_linked : String → Bool
unfolding is_python
is_linked destination =
    is_python destination
    && not (
        (destination == "__manifest__.py")
        || ((destination == "__test_modules__.py") || (destination == "__test_main__.py")))

unfoldable pub add_sources : Dict String → Dict String → Dict String
unfolding is_linked
add_sources link_map [] = link_map
add_sources link_map (entry ∷ entries) =
    add_sources (if is_linked entry.0 then set_default entry.0 entry.1 link_map else link_map)
      entries

unfoldable pub add_databases : Dict String → Dict SourceDatabase → Dict String
unfolding add_sources
add_databases link_map [] = link_map
add_databases link_map (entry ∷ databases) =
    add_databases (add_sources link_map (entry.1.sources ++ entry.1.dependencies)) databases

unfoldable pub merge_source_databases : Dict SourceDatabase → Dict String
unfolding add_databases sort_items
merge_source_databases databases = add_databases [] (sort_items databases)

-- One path lies at or below the other.
is_prefix : List String → List String → Bool
is_prefix [] ys = true
is_prefix (x ∷ xs) [] = false
is_prefix (x ∷ xs) (y ∷ ys) = (x == y) && is_prefix xs ys

unfoldable pub is_taken : PurePath → List (PurePath × PurePath) → Bool
unfolding is_prefix
is_taken p links =
    any (λ (l : PurePath × PurePath). is_prefix p.parts l.0.parts || is_prefix l.0.parts p.parts)
      links

-- The links from an output directory that was emptied.
unfoldable pub build_link_tree :
    (PurePath → Bool)
    → PurePath
    → PurePath
    → Dict String
    → List (PurePath × PurePath)
    → Built (List (PurePath × PurePath))
unfolding is_taken
build_link_tree exists output_directory buck_root [] links = ok links
build_link_tree exists output_directory buck_root (entry ∷ link_map) links =
    let source_path = buck_root / path entry.1 in
    let destination_path = output_directory / path entry.0 in
    let later =
      build_link_tree exists output_directory buck_root link_map
        (links ++ ((destination_path, source_path) ∷ [])) in
    if not (exists source_path)
    then err missing_source
    else if is_taken destination_path links
    then err link_conflict
    else later

module _ (run : Bytes → List String → Built Bytes)
    (load_targets : Bytes → Decoded (Dict (List String)))
    (load_paths : Bytes → Decoded (Dict String)) (read : String → Built SourceDatabase) where
  unfoldable pub query_targets : List String → Option String → Option String → Built (List String)
  unfolding normalize_specification get_buck_query_arguments buck_command ignore_target
      load_json_ignoring_extra_data
  query_targets target_specifications mode isolation_prefix =
      run [] (
        buck_command
          (get_buck_query_arguments (map normalize_specification target_specifications) mode)
          isolation_prefix)
      >>= λ output. load_json_ignoring_extra_data load_targets output >>= λ targets. ok (
          keep (λ target. not (ignore_target target))
            (flat (map (λ (entry : String × List String). entry.1) targets)))

  -- The arguments are in a file, a line each; its name stands for it in the command.
  unfoldable pub build_targets : List String → Option String → Built (Dict String)
  unfolding get_buck_build_arguments buck_command load_json_ignoring_extra_data join_lines
  build_targets targets isolation_prefix =
      run (join_lines (map codes (get_buck_build_arguments targets)))
        (buck_command ("build" ∷ "@arguments" ∷ []) isolation_prefix)
      >>= load_json_ignoring_extra_data load_paths

  unfoldable pub load_source_databases : Dict String → Built (Dict SourceDatabase)
  load_source_databases target_path_dictionary =
      map_ok (λ (entry : String × String). read entry.1 >>= λ database. ok (entry.0, database))
        target_path_dictionary

  unfoldable pub build :
      (PurePath → Bool)
      → List String
      → PurePath
      → PurePath
      → Option String
      → Option String
      → Built (List (PurePath × PurePath))
  unfolding query_targets build_targets load_source_databases merge_source_databases build_link_tree
  build exists target_specifications output_directory buck_root mode isolation_prefix = do
    targets ← query_targets target_specifications mode isolation_prefix
    target_path_dictionary ← build_targets targets isolation_prefix
    source_databases ← load_source_databases target_path_dictionary
    build_link_tree exists output_directory buck_root (merge_source_databases source_databases) []
