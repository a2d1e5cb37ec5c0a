-- ===== src/SourceDatabase/Tree.antt =====
-- The tree of links that a build leaves.
use pyre_check.Texts.{Bytes}
use pyre_check.PathLib.{PurePath, path, ◌/◌}
use pyre_check.SourceDatabase.{
  SourceDatabase, Built, Decoded, query_targets, build_targets, load_source_databases,
  merge_source_databases, build_link_tree, is_taken, build,
}
use pyre_check.Base.{
  List, [], ◌∷◌, ◌++◌, Option, ok, Bool, true, String, Dict, map, ◌≡◌, ◌∙◌, sym, append-nil,
  append_assoc, Bool-cases, inl, inr, All, >>=-eq-ok,
}

-- From the place below the output directory to the source below the root of buck.
abbrev pub link : PurePath → PurePath → String × String → PurePath × PurePath
link output_directory buck_root entry = (output_directory / path entry.0, buck_root / path entry.1)

build_link_tree-links :
    (exists : PurePath → Bool) (output_directory buck_root : PurePath) (link_map : Dict String)
    (links last : List (PurePath × PurePath))
    → build_link_tree exists output_directory buck_root link_map links ≡ ok last
    → (last ≡ links ++ map (link output_directory buck_root) link_map)
      × All (λ (entry : String × String). exists (buck_root / path entry.1) ≡ true) link_map
unfolding build_link_tree
build_link_tree-links exists output_directory buck_root [] links last h =
    let same : links ≡ last = cc (h) in (sym same ∙ sym (append-nil links), tt)
build_link_tree-links exists output_directory buck_root (entry ∷ link_map) links last h =
    elim (Bool-cases (exists (buck_root / path entry.1))) [
      | inr missing ↦ cc (rw missing at h)
      | inl there ↦ elim (Bool-cases (is_taken (output_directory / path entry.0) links)) [
        | inl taken ↦ cc (rw taken at rw there at h)
        | inr free ↦
            let (same, all) =
              build_link_tree-links exists output_directory buck_root link_map
                (links ++ (link output_directory buck_root entry ∷ [])) last
                (rw free at rw there at h) in
            (
              same
                  ∙ append_assoc links (link output_directory buck_root entry ∷ [])
                      (map (link output_directory buck_root) link_map),
              (there, all),
            )
      ]
    ]

module _ (run : Bytes → List String → Built Bytes)
    (load_targets : Bytes → Decoded (Dict (List String)))
    (load_paths : Bytes → Decoded (Dict String)) (read : String → Built SourceDatabase) where
  -- A build that raises nothing has asked buck for targets and built them, and loaded their databases;
  -- its links are those of the merged databases, one for each destination and in their order, and every
  -- source that they lead to exists.
  pub build_links :
      (exists : PurePath → Bool) (target_specifications : List String)
      (output_directory buck_root : PurePath) (mode isolation_prefix : Option String)
      (links : List (PurePath × PurePath))
      → build run load_targets load_paths read exists target_specifications output_directory
          buck_root mode isolation_prefix
        ≡ ok links
      → (targets : List String) × (paths : Dict String) × (databases : Dict SourceDatabase)
        × (query_targets run load_targets load_paths read target_specifications mode
              isolation_prefix
            ≡ ok targets)
        × (build_targets run load_targets load_paths read targets isolation_prefix ≡ ok paths)
        × (load_source_databases run load_targets load_paths read paths ≡ ok databases)
        × (links ≡ map (link output_directory buck_root) (merge_source_databases databases))
        × All
            (λ (entry : String × String). exists (buck_root / path entry.1) ≡ true)
            (merge_source_databases databases)
  unfolding build
  build_links exists target_specifications output_directory buck_root mode isolation_prefix links
        h =
      let (targets, queried, h1) =
        >>=-eq-ok
          (query_targets run load_targets load_paths read target_specifications mode
            isolation_prefix)
          _ h in
      let (paths, built, h2) =
        >>=-eq-ok (build_targets run load_targets load_paths read targets isolation_prefix) _ h1 in
      let (databases, loaded, h3) =
        >>=-eq-ok (load_source_databases run load_targets load_paths read paths) _ h2 in
      let (same, all) =
        build_link_tree-links exists output_directory buck_root (merge_source_databases databases)
          [] links h3 in
      (targets, paths, databases, queried, built, loaded, same, all)
