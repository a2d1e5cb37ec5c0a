-- ===== src/Start/Created.antt =====
-- About create_server_arguments and get_saved_state_action (client/commands/v2/start.py).
use mathlib.Core.Option
use pyre_check.Start.{
  load_from_file, load_from_project, get_saved_state_action, project_action, StartArguments,
  Arguments, SavedStateAction, arguments_of, create_server_arguments, with_sources, StartError,
  replace_slashes, no_source_directories,
}
use pyre_check.Base.{
  [], ◌∷◌, ◌++◌, List, refl, ◌≡◌, some, none, Option, true, Bool, String, ok, err, Result, inl, inr,
  All, keep, map, Bool-cases, ◌↔◌, ◌≢◌, subst, ◌⊎◌,
}
use pyre_check.Configuration.Elements.{SearchPathElement, element_path}
use pyre_check.Configuration.Resolved.{
  Machine, Configuration, get_existent_source_directories, existent_paths, is_positive,
  get_existent_do_not_ignore_errors_in_paths, get_existent_ignore_all_errors_paths,
  expand_and_get_existent_ignore_all_errors_path,
}
use pyre_check.FindDirectories.{Disk}
use pyre_check.PathLib.{PurePath}
use pyre_check.Configuration.Resolved.Queries.{get_number_of_workers_positive}

-- A saved state is loaded from the file that is given, with the changed files, else from the project
-- that is given, with the relative local root in which slashes are written as dollar signs.
pub get_saved_state_action_iff :
    (start : StartArguments) (relative_local_root : Option String) (action : SavedStateAction)
    → (get_saved_state_action start relative_local_root ≡ some action) ↔ (
        ((f : String) × (start.load_initial_state_from ≡ some f)
          × (action ≡ load_from_file f start.changed_files_path))
        ⊎ ((start.load_initial_state_from ≡ none)
            × ((project : String) × (start.saved_state_project ≡ some project)
                × (action
                    ≡ load_from_project project (Option.map replace_slashes relative_local_root)))))
unfolding get_saved_state_action project_action
get_saved_state_action_iff start relative action =
    by_source start.load_initial_state_from start.saved_state_project
  where
    by_source :
        (from_file from_project : Option String)
        → (elim from_file [
          | none ↦ elim from_project [
            | none ↦ none
            | some project ↦ some (load_from_project project (Option.map replace_slashes relative))
          ]
          | some f ↦ some (load_from_file f start.changed_files_path)
        ]
            ≡ some action)
          ↔ (((f : String) × (from_file ≡ some f)
                × (action ≡ load_from_file f start.changed_files_path))
              ⊎ ((from_file ≡ none)
                  × ((project : String) × (from_project ≡ some project)
                      × (action
                          ≡ load_from_project project (Option.map replace_slashes relative)))))
    by_source (some f) o = (
      λ h. inl (f, refl, cc),
      λ h. elim h [ inl (g, same, e) ↦ cc (same, e) | inr (missing, p) ↦ cc (missing) ],
    )
    by_source none (some p) = (
      λ h. inr (refl, (p, refl, cc)),
      λ h. elim h [ inl (g, same, e) ↦ cc (same) | inr (missing, (q, same, e)) ↦ cc (same, e) ],
    )
    by_source none none = (
      λ h. cc,
      λ h. elim h [ inl (g, same, e) ↦ cc (same) | inr (missing, (q, same, e)) ↦ cc (same) ],
    )

All-keep_test : (test : String → Bool) (xs : List String) → All (λ x. test x ≡ true) (keep test xs)
All-keep_test test [] = tt
All-keep_test test (x ∷ xs) = elim (Bool-cases (test x)) [
  | inl e ↦ rw (e, e) (refl, All-keep_test test xs)
  | inr e ↦ rw e (All-keep_test test xs)
]

existent_elements :
    (test : String → Bool) (xs : List SearchPathElement)
    → All (λ p. test p ≡ true) (map element_path (keep (λ e. test (element_path e)) xs))
existent_elements test [] = tt
existent_elements test (x ∷ xs) = elim (Bool-cases (test (element_path x))) [
  | inl e ↦ rw (e, e) (refl, existent_elements test xs)
  | inr e ↦ rw e (existent_elements test xs)
]

All-append : (P : String → Type 0) (xs ys : List String) → All P xs → All P ys → All P (xs ++ ys)
All-append P [] ys h k = k
All-append P (x ∷ xs) ys h k = (h.0, All-append P xs ys h.1 k)

module _ (machine : Machine) (disk : Disk) (resolve : PurePath → PurePath) where
  pub record IsSound (a : Arguments) : Type 0 where
    pub allowed : All (λ p. machine.exists p ≡ true) a.checked_directory_allowlist
    pub blocked : All (λ p. machine.exists p ≡ true) a.checked_directory_blocklist
    pub some_source : a.source_paths ≢ []
    pub workers : is_positive a.number_of_workers ≡ true

  arguments_of-IsSound :
      (c : Configuration) (start : StartArguments) (ds : List SearchPathElement)
      → ds ≡ get_existent_source_directories machine c
      → ds ≢ []
      → IsSound (arguments_of machine disk resolve c start ds)
  unfolding arguments_of get_existent_source_directories existent_paths
      get_existent_do_not_ignore_errors_in_paths get_existent_ignore_all_errors_paths
      expand_and_get_existent_ignore_all_errors_path
  arguments_of-IsSound c start ds e nonempty = record {
    allowed = rw e (
        All-append _ _ _ (existent_elements machine.exists c.source_directories)
          (All-keep_test machine.exists _));
    blocked = All-keep_test machine.exists _;
    some_source = nonempty;
    workers = get_number_of_workers_positive machine c;
  }

  with_sources-cases :
      (c : Configuration) (start : StartArguments) (ds : List SearchPathElement) (a : Arguments)
      → ds ≡ get_existent_source_directories machine c
      → with_sources machine disk resolve c start ds ≡ ok a
      → IsSound a
  unfolding with_sources
  with_sources-cases c start [] a e h = cc
  with_sources-cases c start (d ∷ ds) a e h =
      let same : arguments_of machine disk resolve c start (d ∷ ds) ≡ a = cc in
      subst IsSound same (arguments_of-IsSound c start (d ∷ ds) e (λ p. cc (p)))

  -- Of the server arguments that `create_server_arguments` returns, the checked and the blocked
  -- directories exist on the machine, there is a source directory, and there is a worker at least.
  pub create_server_arguments-IsSound :
      (c : Configuration) (start : StartArguments) (a : Arguments)
      → create_server_arguments machine disk resolve c start ≡ ok a
      → IsSound a
  unfolding create_server_arguments
  create_server_arguments-IsSound c start a h =
      with_sources-cases c start (get_existent_source_directories machine c) a refl h

  -- Server arguments are made unless no source directory of the configuration exists.
  pub create_server_arguments_fails_iff :
      (c : Configuration) (start : StartArguments) (e : StartError)
      → (create_server_arguments machine disk resolve c start ≡ err e)
        ↔ (get_existent_source_directories machine c ≡ [])
  unfolding create_server_arguments with_sources
  create_server_arguments_fails_iff c start e =
      by_sources (get_existent_source_directories machine c)
    where
      by_sources :
          (ds : List SearchPathElement)
          → (with_sources machine disk resolve c start ds ≡ err e) ↔ (ds ≡ [])
      by_sources [] = (λ h. refl, λ h. only e)
        where
          only :
              (x : StartError)
              → ◌≡◌ {A = Result StartError Arguments} (err no_source_directories) (err x)
          only no_source_directories = refl
      by_sources (d ∷ ds) = (λ h. cc, λ h. cc (h))
