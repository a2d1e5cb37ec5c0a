-- ===== src/Configuration/Resolved/Queries.antt =====
-- About the queries of Configuration (client/configuration.py).
use pyre_check.Base.{
  [], ◌∷◌, List, refl, ◌≡◌, some, none, Option, true, arith, String, inl, inr, AnyOf, ◌⊎◌, ◌↔◌,
  AnyOf-append, Bool-cases, ℕ, if◌then◌else◌, Listed, keep_iff,
}
use pyre_check.Configuration.Resolved.{
  Machine, get_number_of_workers, Configuration, default_number_of_workers, expand_ignored,
  get_existent_ignore_all_errors_paths, globbed, expand_and_get_existent_ignore_all_errors_path,
  is_positive,
}
use pyre_check.Configuration.Elements.{expand_global_root}
use pyre_check.Json.{PythonInt}

default_positive :
    (machine : Machine) (o : Option ℕ) → is_positive (default_number_of_workers machine o) ≡ true
unfolding default_number_of_workers
default_positive machine none = refl
default_positive machine (some n) = ground arith

-- At least one worker is used, whatever number is configured and whatever the machine answers.
pub get_number_of_workers_positive :
    (machine : Machine) (c : Configuration) → is_positive (get_number_of_workers machine c) ≡ true
unfolding get_number_of_workers
get_number_of_workers_positive machine c = by_cases c.number_of_workers machine.processors
  where
    by_cases :
        (workers : Option PythonInt) (o : Option ℕ)
        → is_positive (elim workers [
          | none ↦ default_number_of_workers machine o
          | some w ↦ if is_positive w then w else default_number_of_workers machine o
        ])
          ≡ true
    by_cases none o = default_positive machine o
    by_cases (some w) o = elim (Bool-cases (is_positive w)) [
      | inl e ↦ rw e e
      | inr e ↦ rw e (default_positive machine o)
    ]

module _ (machine : Machine) where
  -- What a pattern of `ignore_all_errors` stands for: the paths that it matches below the project
  -- root, or its own text if it matches none.
  abbrev pub StandsFor : String → String → String → Type 0
  StandsFor project_root p pattern =
      let matches = machine.expand_glob (expand_global_root machine.home pattern project_root) in
      Listed p matches ⊎ (matches ≡ []) × (pattern ≡ p)

  globbed_iff :
      (pattern p : String) (matches : List String)
      → Listed p (globbed machine pattern matches)
        ↔ (Listed p matches ⊎ (matches ≡ []) × (pattern ≡ p))
  unfolding globbed
  globbed_iff pattern p [] = (
    λ h. elim h [ inl same ↦ inr (refl, same) | inr no_more ↦ absurd no_more ],
    λ h. elim h [ inl no_match ↦ absurd no_match | inr own ↦ inl own.1 ],
  )
  globbed_iff pattern p (m ∷ matches) =
      (λ h. inl h, λ h. elim h [ inl listed ↦ listed | inr own ↦ cc (own.0) ])

  expand_ignored_iff :
      (project_root p : String) (patterns : List String)
      → Listed p (expand_ignored machine project_root patterns)
        ↔ AnyOf (StandsFor project_root p) patterns
  unfolding expand_ignored
  expand_ignored_iff project_root p [] = (λ h. h, λ h. h)
  expand_ignored_iff project_root p (pattern ∷ rest) =
      let own =
        globbed_iff pattern p
          (machine.expand_glob (expand_global_root machine.home pattern project_root)) in
      let later = expand_ignored_iff project_root p rest in
      let joined =
        AnyOf-append (λ q. q ≡ p)
          (globbed machine pattern
            (machine.expand_glob (expand_global_root machine.home pattern project_root)))
          (expand_ignored machine project_root rest) in
      (
        λ h. elim (joined.0 h) [ inl a ↦ inl (own.0 a) | inr b ↦ inr (later.0 b) ],
        λ h. elim h [ inl a ↦ joined.1 (inl (own.1 a)) | inr b ↦ joined.1 (inr (later.1 b)) ],
      )

  -- A path is one of those whose errors are ignored exactly when it exists and one of the patterns
  -- of the configuration stands for it.
  pub get_existent_ignore_all_errors_paths_iff :
      (c : Configuration) (p : String)
      → Listed p (get_existent_ignore_all_errors_paths machine c)
        ↔ ((machine.exists p ≡ true) × AnyOf (StandsFor c.project_root p) c.ignore_all_errors)
  unfolding get_existent_ignore_all_errors_paths expand_and_get_existent_ignore_all_errors_path
  get_existent_ignore_all_errors_paths_iff c p =
      let kept =
        keep_iff machine.exists p (expand_ignored machine c.project_root c.ignore_all_errors) in
      let stands = expand_ignored_iff c.project_root p c.ignore_all_errors in
      (λ h. let (e, l) = kept.0 h in (e, stands.0 l), λ h. kept.1 (h.0, stands.1 h.1))
