-- ===== src/AnalysisDirectory/Merging.antt =====
-- The links that a shared analysis directory is first filled with: _merge and _merge_into_paths of
-- client/analysis_directory.py. `find_python_paths` lists the files of a directory, `relpath` and
-- `realpath` are os.path's; `is_file` and `is_empty` look at the disk, which does not change meanwhile.
use pyre_check.AnalysisDirectory.Paths.{join_path}
use pyre_check.Texts.{codes, ends_with}
use pyre_check.Base.{
  List, [], ◌∷◌, ◌++◌, Bool, not, ◌&&◌, String, ◌==◌, if◌then◌else◌, map, keep, Dict, has_item,
  set_item,
}

module _ (find_python_paths : String → List String) (relpath : String → String → String)
    (realpath : String → String) (is_file is_empty : String → Bool) where
  -- What is merged: no empty `__init__.py`, and nothing that is no file.
  unfoldable pub is_merged : String → String → Bool
  unfolding ends_with
  is_merged source_directory path =
      not (path == "")
      && is_file (realpath path)
      && not (
          ends_with (codes "__init__.py") (codes (relpath path source_directory))
          && is_empty (realpath path))

  unfoldable pub add_paths : String → List String → Dict String → Dict String
  unfolding is_merged
  add_paths source_directory [] all_paths = all_paths
  add_paths source_directory (path ∷ paths) all_paths =
      let relative = relpath path source_directory in
      let skipped = add_paths source_directory paths all_paths in
      let merged = add_paths source_directory paths (set_item relative (realpath path) all_paths) in
      if has_item relative all_paths
      then skipped
      else if is_merged source_directory path
      then merged
      else skipped

  unfoldable pub merge_into_paths : String → Dict String → Dict String
  unfolding add_paths
  merge_into_paths source_directory all_paths =
      add_paths source_directory (find_python_paths source_directory) all_paths

  unfoldable pub merge_directories : List String → Dict String → Dict String
  unfolding merge_into_paths
  merge_directories [] all_paths = all_paths
  merge_directories (source_directory ∷ source_directories) all_paths =
      merge_directories source_directories (merge_into_paths source_directory all_paths)

  -- The links that are made, from the place in the root to the file.
  unfoldable pub merge : String → List String → List (String × String)
  unfolding merge_directories join_path
  merge root source_directories =
      map (λ (entry : String × String). (join_path root entry.0, entry.1))
        (merge_directories source_directories [])

  -- The files of a directory that are merged, by their relative paths.
  unfoldable pub merged_of : String → List String → Dict String
  merged_of source_directory paths =
      map (λ path. (relpath path source_directory, realpath path))
        (keep (is_merged source_directory) paths)

  -- Those of all directories, the first directory's in front.
  unfoldable pub merged_files : List String → Dict String
  unfolding merged_of
  merged_files [] = []
  merged_files (source_directory ∷ source_directories) =
      merged_of source_directory (find_python_paths source_directory)
      ++ merged_files source_directories
