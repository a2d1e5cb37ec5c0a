-- ===== src/AnalysisDirectory.antt =====
-- SharedAnalysisDirectory of client/analysis_directory.py: the links from the files of a project into
-- the directory that is analysed, and what becomes of them when files change. The links on the disk,
-- the log and the messages to the server are not modelled; a set is in the order of its dict.
pub mod Updates
pub mod Paths
pub mod Merging
use pyre_check.AnalysisDirectory.Paths.{
  Links, lookup_link, has_link, set_link, pop_link, paths_of, is_among, strip_separators, is_parent,
  name_behind, is_build_file, rebuild_threshold_for_updated_paths,
  rebuild_threshold_for_new_or_deleted_paths, should_rebuild, join_path,
}
use Prim.Native.String
use pyre_check.Base.{
  [], ◌∷◌, ◌++◌, List, some, none, Option, true, false, Bool, String, ◌==◌, if◌then◌else◌, leb, eqb,
  ℕ, ◌+◌, ◌&&◌, ◌||◌, not, keep, map, any, length, ok, err, Result, ◌>>=◌,
}
use pyre_check.Texts.{Bytes, codes, starts_with, ends_with, same_bytes, is_empty}

pub record SharedDirectory : Type 0 where
  pub symbolic_links : Links
  pub last_singly_deleted_path_and_link : Option (String × String)

pub record UpdatedPaths : Type 0 where
  pub updated_paths : List String
  pub deleted_paths : List String

pub record ChangedPaths : Type 0 where
  pub new : List String
  pub deleted : List String
  pub tracked : List String

-- KeyError for a deleted path that has no link, and IndexError for a link that went without a path.
-- What an exception leaves half done is not modelled.
pub data LookupError : Type 0 where
  no_link : String → LookupError
  index_error : LookupError

same_paths : List String → List String → Bool
same_paths [] [] = true
same_paths (x ∷ xs) (y ∷ ys) = (x == y) && same_paths xs ys
same_paths _ _ = false

-- _cache_last_deleted_link
unfoldable pub last_deleted_link :
    List String → List String → List String → Result LookupError (Option (String × String))
unfolding same_paths
last_deleted_link [] (scratch ∷ []) tracked =
    if same_paths tracked (scratch ∷ []) then err index_error else ok none
last_deleted_link (path ∷ paths) (scratch ∷ []) tracked =
    ok (if same_paths tracked (scratch ∷ []) then some (path, scratch) else none)
last_deleted_link _ _ _ = ok none

-- _fetch_cached_absolute_link_map
unfoldable pub cached_link_map : Option (String × String) → List String → List String → Option Links
unfolding same_paths
cached_link_map (some (path, link)) new_paths [] =
    if same_paths new_paths (path ∷ []) then some ((path, link) ∷ []) else none
cached_link_map _ _ _ = none

-- The links of the paths, or the KeyError of the first that has none.
unfoldable pub links_of : Links → List String → Result LookupError (List String)
links_of links [] = ok []
links_of links (path ∷ paths) = elim (lookup_link path links) [
  | none ↦ err (no_link path)
  | some link ↦ elim (links_of links paths) [ err e ↦ err e | ok more ↦ ok (link ∷ more) ]
]

unfoldable pub pop_links : List String → Links → Links
pop_links [] links = links
pop_links (path ∷ paths) links = pop_links paths (pop_link path links)

-- _process_deleted_paths
unfoldable pub process_deleted_paths :
    List String → Links → Result LookupError (List String × Links)
unfolding links_of pop_links
process_deleted_paths deleted links =
    links_of links deleted >>= λ scratch. ok (scratch, pop_links deleted links)

-- The directories, the files of the disk, whether add_symbolic_link raises OSError, what buck answers
-- for new paths (nothing for BuckException), the links of a rebuilt directory, and the files that the
-- rebuild has modified.
pub record Surroundings : Type 0 where
  pub root : String
  pub project_root : String
  pub search_path_directories : List String
  pub is_file : String → Bool
  pub link_raises : String → Bool
  pub relative_link_map : List String → Links
  pub rebuilt : Links → Links
  pub is_modified : String → Bool

module _ (s : Surroundings) where
  unfoldable pub is_tracked : String → Bool
  unfolding is_parent
  is_tracked path = any (λ d. is_parent d path) (s.root ∷ s.search_path_directories)

  unfoldable pub is_in_search_path : String → Bool
  unfolding is_parent
  is_in_search_path path = any (λ d. is_parent d path) s.search_path_directories

  unfoldable pub get_new_deleted_and_tracked_paths : Links → List String → ChangedPaths
  unfolding is_tracked is_in_search_path is_parent
  get_new_deleted_and_tracked_paths links paths =
      let deleted = keep (λ p. not (s.is_file p) && (has_link p links || is_tracked p)) paths in
      let new =
        keep
          (λ p.
            not (has_link p links)
            && (not (is_in_search_path p) && (s.is_file p && is_parent s.project_root p)))
          paths in
      record {
        new = new;
        deleted = deleted;
        tracked =
            keep
              (λ p.
                not (is_among p new)
                && (not (is_among p deleted) && (has_link p links || is_tracked p)))
              paths;
      }

  unfoldable pub add_links : Links → Links → Links
  unfolding set_link
  add_links [] links = links
  add_links (entry ∷ entries) links =
      add_links entries (if s.link_raises entry.1 then links else set_link entry.0 entry.1 links)

  queried : List String → Links
  unfolding join_path
  queried new_paths =
      map (λ (entry : String × String). (entry.0, join_path s.root entry.1))
        (s.relative_link_map new_paths)

  unfoldable pub link_map : Option (String × String) → List String → List String → Links
  unfolding cached_link_map queried
  link_map last new_paths deleted_paths = elim (cached_link_map last new_paths deleted_paths) [
    | some links ↦ links
    | none ↦ queried new_paths
  ]

  -- _process_new_paths, which is called where there are new paths.
  unfoldable pub new_links : SharedDirectory → ChangedPaths → Links
  unfolding link_map
  new_links d changed =
      if any (λ _. true) changed.new
      then link_map d.last_singly_deleted_path_and_link changed.new changed.deleted
      else []

  -- The end of _process_updated_files.
  finished :
      Links
      → List String
      → List String
      → List String
      → Result LookupError (UpdatedPaths × SharedDirectory)
  unfolding last_deleted_link
  finished links tracked deleted scratch =
      let updated =
        map (λ p. elim (lookup_link p links) [ none ↦ p | some l ↦ l ]) tracked ++ scratch in
      last_deleted_link deleted scratch updated >>= λ last. ok (
        record { updated_paths = updated; deleted_paths = scratch },
        record { symbolic_links = links; last_singly_deleted_path_and_link = last },
      )

  -- _process_rebuilt_files
  after_rebuild :
      SharedDirectory → ChangedPaths → Result LookupError (UpdatedPaths × SharedDirectory)
  unfolding finished
  after_rebuild d changed =
      let old = d.symbolic_links in
      let links = s.rebuilt old in
      let created = keep (λ p. not (has_link p old)) (paths_of links) in
      let updated = paths_of (keep (λ (entry : String × String). s.is_modified entry.1) links) in
      let gone = keep (λ p. not (has_link p links)) (paths_of old) in
      finished links (changed.tracked ++ (created ++ updated)) changed.deleted
        (map (λ p. elim (lookup_link p old) [ none ↦ p | some l ↦ l ]) gone)

  after_changes :
      SharedDirectory → ChangedPaths → Result LookupError (UpdatedPaths × SharedDirectory)
  unfolding finished new_links add_links process_deleted_paths
  after_changes d changed =
      let added = new_links d changed in
      process_deleted_paths changed.deleted (add_links added d.symbolic_links) >>= λ after.
      finished after.1 (changed.tracked ++ paths_of added) changed.deleted after.0

  unfoldable pub process_updated_files :
      SharedDirectory → List String → Result LookupError (UpdatedPaths × SharedDirectory)
  unfolding after_rebuild after_changes should_rebuild get_new_deleted_and_tracked_paths
  process_updated_files d paths =
      let changed = get_new_deleted_and_tracked_paths d.symbolic_links paths in
      if should_rebuild changed.tracked changed.new changed.deleted
      then after_rebuild d changed
      else after_changes d changed
