-- ===== src/Examples/Directories.antt =====
-- A shared analysis directory with two linked files.
use pyre_check.Base.{[], ◌∷◌, refl, ◌≡◌, some, none, true, false, ◌==◌, if◌then◌else◌, ok, err}
use pyre_check.AnalysisDirectory.{
  Surroundings, SharedDirectory, UpdatedPaths, no_link, index_error, process_updated_files,
  get_new_deleted_and_tracked_paths, new_links,
}
use pyre_check.AnalysisDirectory.Paths.{lookup_link, is_among, should_rebuild, is_build_file, Links}
use pyre_check.AnalysisDirectory.Updates.{process_updated_files-links}

abbrev project : Surroundings
project = record {
  root = "/s";
  project_root = "/p";
  search_path_directories = "/lib" ∷ [];
  is_file = λ path. path == "/p/b.py";
  link_raises = λ link. false;
  relative_link_map = λ paths. [];
  rebuilt = λ links. [];
  is_modified = λ path. false;
}

abbrev two_links : Links
two_links = ("/p/a.py", "/s/a.py") ∷ ("/p/b.py", "/s/b.py") ∷ []

abbrev linked : SharedDirectory
linked = record { symbolic_links = two_links; last_singly_deleted_path_and_link = none }

abbrev one_left : SharedDirectory
one_left = record {
  symbolic_links = ("/p/b.py", "/s/b.py") ∷ [];
  last_singly_deleted_path_and_link = some ("/p/a.py", "/s/a.py");
}

abbrev deletion : UpdatedPaths
deletion = record { updated_paths = "/s/a.py" ∷ []; deleted_paths = "/s/a.py" ∷ [] }

deletion_test : process_updated_files project linked ("/p/a.py" ∷ []) ≡ ok (deletion, one_left)
unfolding process_updated_files
deletion_test = refl

process_updated_files-links_example : lookup_link "/p/a.py" one_left.symbolic_links ≡ (
    if is_among "/p/a.py"
      (get_new_deleted_and_tracked_paths project two_links ("/p/a.py" ∷ [])).deleted
    then none
    else lookup_link "/p/a.py" two_links)
unfolding new_links should_rebuild get_new_deleted_and_tracked_paths is_build_file
process_updated_files-links_example =
    process_updated_files-links project linked one_left ("/p/a.py" ∷ []) deletion "/p/a.py" refl
      deletion_test refl

-- A file of the search path that is deleted has no link.
search_path_test :
    process_updated_files project linked ("/lib/c.py" ∷ []) ≡ err (no_link "/lib/c.py")
unfolding process_updated_files
search_path_test = refl

-- A rebuild for a new TARGETS file that removes the only link.
abbrev targets : Surroundings
targets = record project { is_file = λ path. true }

rebuild_test : process_updated_files targets one_left ("/p/TARGETS" ∷ []) ≡ err index_error
unfolding process_updated_files
rebuild_test = refl
