-- ===== src/AnalysisDirectory/Updates.antt =====
-- About the links after an update (client/analysis_directory.py).
use pyre_check.Base.{
  eq_iff, >>=-eq-ok, ap, sym, ◌∙◌, Bool-cases, inl, inr, List, refl, ok, [], ◌∷◌, ◌≡◌, none, true,
  false, String, ◌==◌, if◌then◌else◌, arith, ◌++◌,
}
use pyre_check.AnalysisDirectory.{
  process_deleted_paths, process_updated_files, after_changes, new_links,
  get_new_deleted_and_tracked_paths, finished, links_of, Surroundings, SharedDirectory,
  UpdatedPaths, last_deleted_link, add_links, pop_links,
}
use pyre_check.AnalysisDirectory.Paths.{
  paths_of, should_rebuild, has_link, Links, lookup_link, set_link, pop_link, is_among,
}

same_test : (a b q : String) → (a == b) ≡ true → (a == q) ≡ (b == q)
same_test a b q h = ap (λ c. c == q) ((eq_iff a b).0 h)

apart_test : (a b q : String) → (a == b) ≡ false → (b == q) ≡ true → (a == q) ≡ false
apart_test a b q h k = let same : b ≡ q = (eq_iff b q).0 k in ap (λ c. a == c) (sym same) ∙ h

lookup_link-pop_link :
    (q path : String) (links : Links)
    → lookup_link q (pop_link path links) ≡ (if path == q then none else lookup_link q links)
lookup_link-pop_link q path [] = elim (Bool-cases (path == q)) [
  | inl e ↦ rw e refl
  | inr e ↦ rw e refl
]
lookup_link-pop_link q path (entry ∷ links) = elim (Bool-cases (entry.0 == path)) [
  | inl e ↦ elim (Bool-cases (path == q)) [
    | inl f ↦ rw (e, f, lookup_link-pop_link q path links, f) refl
    | inr f ↦ rw (e, f, lookup_link-pop_link q path links, same_test entry.0 path q e, f) refl
  ]
  | inr e ↦ elim (Bool-cases (path == q)) [
    | inl f ↦ rw (e, f, apart_test entry.0 path q e f, lookup_link-pop_link q path links, f) refl
    | inr f ↦ rw (e, f, lookup_link-pop_link q path links, f) refl
  ]
]

lookup_link-pop_links :
    (q : String) (paths : List String) (links : Links)
    → lookup_link q (pop_links paths links)
      ≡ (if is_among q paths then none else lookup_link q links)
unfolding pop_links
lookup_link-pop_links q [] links = refl
lookup_link-pop_links q (path ∷ paths) links =
    rw (lookup_link-pop_links q paths (pop_link path links), lookup_link-pop_link q path links)
      (elim (Bool-cases (path == q)) [
        | inl e ↦ elim (Bool-cases (is_among q paths)) [
          | inl f ↦ rw (e, f) refl
          | inr f ↦ rw (e, f) refl
        ]
        | inr e ↦ rw e refl
      ])

lookup_link-set_link :
    (q path link : String) (links : Links)
    → (path == q) ≡ false
    → lookup_link q (set_link path link links) ≡ lookup_link q links
unfolding set_link
lookup_link-set_link q path link [] h = rw h refl
lookup_link-set_link q path link (entry ∷ links) h = elim (Bool-cases (entry.0 == path)) [
  | inl e ↦ rw (e, h, same_test entry.0 path q e, h) refl
  | inr e ↦ rw (e, lookup_link-set_link q path link links h) refl
]

module _ (s : Surroundings) where
  lookup_link-add_links :
      (q : String) (added links : Links)
      → has_link q added ≡ false
      → lookup_link q (add_links s added links) ≡ lookup_link q links
  unfolding add_links
  lookup_link-add_links q [] links h = refl
  lookup_link-add_links q (entry ∷ added) links h =
      let other : (entry.0 == q) ≡ false = ground (arith, h) in
      let later : has_link q added ≡ false = ground (arith, h) in
      elim (Bool-cases (s.link_raises entry.1)) [
        | inl e ↦ rw e (lookup_link-add_links q added links later)
        | inr e ↦ rw e (
            lookup_link-add_links q added (set_link entry.0 entry.1 links) later
            ∙ lookup_link-set_link q entry.0 entry.1 links other)
      ]

  finished-links :
      (links : Links) (tracked deleted scratch : List String) (o : UpdatedPaths)
      (d : SharedDirectory)
      → finished s links tracked deleted scratch ≡ ok (o, d)
      → d.symbolic_links ≡ links
  unfolding finished
  finished-links links tracked deleted scratch o d h =
      let (last, known, shown) = >>=-eq-ok (last_deleted_link deleted scratch _) _ h in cc (shown)

  process_deleted_paths-links :
      (deleted : List String) (links after : Links) (scratch : List String)
      → process_deleted_paths deleted links ≡ ok (scratch, after)
      → after ≡ pop_links deleted links
  unfolding process_deleted_paths
  process_deleted_paths-links deleted links after scratch h =
      let (found, known, shown) = >>=-eq-ok (links_of links deleted) _ h in cc (shown)

  -- Without a rebuild, a successful update takes the link of each deleted path away, and of the other
  -- paths but those that are added it leaves each with the link it had, or with none.
  pub process_updated_files-links :
      (d d' : SharedDirectory) (paths : List String) (o : UpdatedPaths) (q : String)
      → let changed = get_new_deleted_and_tracked_paths s d.symbolic_links paths in
        should_rebuild changed.tracked changed.new changed.deleted ≡ false
        → process_updated_files s d paths ≡ ok (o, d')
        → has_link q (new_links s d changed) ≡ false
        → lookup_link q d'.symbolic_links
          ≡ (if is_among q changed.deleted then none else lookup_link q d.symbolic_links)
  unfolding process_updated_files after_changes
  process_updated_files-links d d' paths o q kept returned not_added =
      let changed = get_new_deleted_and_tracked_paths s d.symbolic_links paths in
      let added = add_links s (new_links s d changed) d.symbolic_links in
      let run = rw kept at returned in
      let (after, popped, ends) = >>=-eq-ok (process_deleted_paths changed.deleted added) _ run in
      let links =
        finished-links after.1 (changed.tracked ++ paths_of (new_links s d changed)) changed.deleted
          after.0 o d' ends in
      let left = process_deleted_paths-links changed.deleted added after.1 after.0 popped in
      rw
        (
          links,
          left,
          lookup_link-pop_links q changed.deleted added,
          lookup_link-add_links q (new_links s d changed) d.symbolic_links not_added,
        )
        refl
