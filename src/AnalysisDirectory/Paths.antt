-- ===== src/AnalysisDirectory/Paths.antt =====
-- Dicts of links, and the tests on paths, of client/analysis_directory.py and client/filesystem.py.
use Prim.Native.String
use pyre_check.Base.{
  [], ◌∷◌, ◌++◌, List, some, none, Option, Bool, String, ◌==◌, if◌then◌else◌, leb, eqb, ℕ, ◌+◌,
  ◌&&◌, ◌||◌, not, keep, map, any, length,
}
use pyre_check.Texts.{Bytes, codes, starts_with, ends_with, same_bytes, is_empty}

-- A dict of texts, in the order of its first writing.
abbrev pub Links : Type 0
Links = List (String × String)

abbrev pub lookup_link : String → Links → Option String
lookup_link path [] = none
lookup_link path (entry ∷ links) =
    let later = lookup_link path links in if entry.0 == path then some entry.1 else later

abbrev pub has_link : String → Links → Bool
has_link path links = any (λ (entry : String × String). entry.0 == path) links

-- `links[path] = link`
unfoldable pub set_link : String → String → Links → Links
set_link path link [] = (path, link) ∷ []
set_link path link (entry ∷ links) =
    let later = set_link path link links in
    if entry.0 == path then (path, link) ∷ links else entry ∷ later

-- `links.pop(path, None)`
abbrev pub pop_link : String → Links → Links
pop_link path links = keep (λ (entry : String × String). not (entry.0 == path)) links

abbrev pub paths_of : Links → List String
paths_of links = map (λ (entry : String × String). entry.0) links

abbrev pub is_among : String → List String → Bool
is_among path paths = any (λ other. other == path) paths

-- `text.rstrip("/")`
unfoldable pub strip_separators : Bytes → Bytes
unfolding is_empty
strip_separators [] = []
strip_separators (c ∷ cs) =
    let rest = strip_separators cs in if eqb c b'/' && is_empty rest then [] else c ∷ rest

unfoldable pub is_parent : String → String → Bool
unfolding strip_separators starts_with
is_parent parent child = starts_with (strip_separators (codes parent) ++ (b'/' ∷ [])) (codes child)

-- `Path(path).name` of a path that does not end in a slash, behind a part of a name.
unfoldable pub name_behind : Bytes → Bytes → Bytes
name_behind name [] = name
name_behind name (c ∷ cs) =
    let ended = name_behind [] cs in
    let longer = name_behind (name ++ (c ∷ [])) cs in if eqb c b'/' then ended else longer

-- A name that is all suffix has none.
unfoldable pub is_build_file : String → Bool
unfolding name_behind same_bytes ends_with
is_build_file path =
    let name = name_behind [] (codes path) in
    (ends_with (codes ".thrift") name && not (same_bytes name (codes ".thrift")))
    || same_bytes name (codes "TARGETS")

abbrev pub rebuild_threshold_for_updated_paths : ℕ
rebuild_threshold_for_updated_paths = 50

abbrev pub rebuild_threshold_for_new_or_deleted_paths : ℕ
rebuild_threshold_for_new_or_deleted_paths = 50

unfoldable pub should_rebuild : List String → List String → List String → Bool
unfolding is_build_file
should_rebuild updated_tracked_paths new_paths deleted_paths =
    any is_build_file (updated_tracked_paths ++ (new_paths ++ deleted_paths))
    || (leb rebuild_threshold_for_updated_paths (length updated_tracked_paths)
        || leb rebuild_threshold_for_new_or_deleted_paths (length new_paths + length deleted_paths))

-- `os.path.join(root, relative)`
unfoldable pub join_path : String → String → String
unfolding starts_with ends_with
join_path root relative =
    if starts_with (codes "/") (codes relative)
    then relative
    else if ends_with (codes "/") (codes root)
    then String.◌++◌ root relative
    else String.◌++◌ root (String.◌++◌ "/" relative)
