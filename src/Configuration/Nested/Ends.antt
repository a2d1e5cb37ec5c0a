-- ===== src/Configuration/Nested/Ends.antt =====
-- About the loop of check_nested_local_configuration (client/configuration.py).
use pyre_check.Base.{
  [], ◌∷◌, refl, ◌≡◌, some, none, Option, true, arith, String, ok, err, inl, inr, ℕ, suc, zero, ◌≢◌,
  length, ◌<◌, ◌≤◌,
}
use pyre_check.Configuration.Create.{Sources, expanded_from_file}
use pyre_check.FindDirectories.{
  Directory, above, find_global_and_local_root, local_configuration_file, Access, present,
  FoundRoot, find_global_and_local_root, local_configuration_file,
}
use pyre_check.Configuration.Nested.{
  nested_loop, nesting_round, check_nesting, ignored_by, local_round, after_round,
  check_nested_local_configuration, local_root_path_of,
}
use pyre_check.Configuration.Partial.{PartialConfiguration}
use pyre_check.FindDirectories.Roots.{
  IsAtOrAbove, IsAtOrAbove-refl, Roots, find_global_and_local_root-Roots, LocalRoot,
  Nearest-IsAtOrAbove,
}
use pyre_check.FindDirectories.Nearest.{Nearest, stop, top, climb}
use pyre_check.Configuration.Elements.{Checked}
use pyre_check.Configuration.Resolved.{Configuration, local_root}

module _ (sources : Sources) (local_root_path : Directory) where
  open sources use {disk}

  -- With both configuration files in "/", and a path in the `ignore_all_errors` of the local one that
  -- is the checked local root or above it, the loop never ends once it is in "/": no fuel is enough.
  pub nested_loop_diverges :
      (nesting : PartialConfiguration)
      → find_global_and_local_root disk []
        ≡ some (record { global_root = []; local_root = some [] })
      → expanded_from_file sources [] local_configuration_file ≡ ok nesting
      → ignored_by sources local_root_path [] nesting ≡ true
      → (fuel : ℕ) → nested_loop sources fuel local_root_path [] ≡ none
  unfolding nested_loop nesting_round check_nesting above local_round
  nested_loop_diverges nesting found_root file ignored zero = refl
  nested_loop_diverges nesting found_root file ignored (suc fuel) =
      rw (nested_loop, nesting_round, check_nesting, found_root, file, ignored)
        (nested_loop_diverges nesting found_root file ignored fuel)

IsAtOrAbove-trans :
    (d e base : Directory) → IsAtOrAbove d e → IsAtOrAbove e base → IsAtOrAbove d base
IsAtOrAbove-trans d e [] p q = rw q at p
IsAtOrAbove-trans d e (name ∷ base) p (inl q) = rw q at p
IsAtOrAbove-trans d e (name ∷ base) p (inr q) = inr (IsAtOrAbove-trans d e base p q)

IsAtOrAbove-above : (d : Directory) → IsAtOrAbove (above d) d
unfolding above
IsAtOrAbove-above [] = refl
IsAtOrAbove-above (name ∷ d) = inr (IsAtOrAbove-refl d)

length-le_of_above : (d base : Directory) → IsAtOrAbove d base → length d ≤ length base
length-le_of_above d [] h = rw h (omega arith)
length-le_of_above d (name ∷ base) (inl e) = rw e (omega arith)
length-le_of_above d (name ∷ base) (inr h) = omega (arith, length-le_of_above d base h)

Nearest-present :
    {predicate : Directory → Access} {base d : Directory} {answer : Option Directory}
    → Nearest predicate base answer
    → answer ≡ some d
    → predicate d ≡ present
Nearest-present {predicate} (stop p) e = cc
Nearest-present (top p) e = cc
Nearest-present (climb p n) e = Nearest-present n e

length-above : (d : Directory) → d ≢ [] → length (above d) < length d
unfolding above
length-above [] h = absurd (h refl)
length-above (name ∷ d) h = omega arith

length-above_lt : (d : Directory) (fuel : ℕ) → length d ≤ fuel → 0 < fuel → length (above d) < fuel
unfolding above
length-above_lt [] fuel h k = k
length-above_lt (name ∷ d) fuel h k = omega arith

module _ (sources : Sources) (local_root_path : Directory)
    (resolved : (d : Directory) → IsAtOrAbove d local_root_path → sources.disk.resolve d ≡ d)
    (no_local_at_top : sources.disk.is_file [] local_configuration_file ≢ present) where
  open sources use {disk}

  check_nesting_next :
      (global_root l next : Directory)
      → check_nesting sources local_root_path global_root l ≡ ok (some next)
      → next ≡ above l
  unfolding check_nesting
  check_nesting_next global_root l next h = ground arith

  local_next :
      (current next g : Directory) (found_local : Option Directory)
      → LocalRoot disk current g found_local
      → local_round sources local_root_path g found_local ≡ ok (some next)
      → (l : Directory) × Nearest
          (λ d. disk.is_file d local_configuration_file)
          (disk.resolve current)
          (some l)
        × (next ≡ above l)
  unfolding local_round
  local_next current next g none spec h = cc
  local_next current next g (some l) spec h = (l, spec.0, check_nesting_next g l next h)

  -- A round that goes on has found a local configuration, and goes on above it.
  round_next :
      (current next : Directory) (found_root : Option FoundRoot)
      → Roots disk current found_root
      → nesting_round sources local_root_path found_root ≡ ok (some next)
      → (l : Directory) × Nearest
          (λ d. disk.is_file d local_configuration_file)
          (disk.resolve current)
          (some l)
        × (next ≡ above l)
  unfolding nesting_round
  round_next current next none spec h = cc
  round_next current next (some roots) spec h =
      local_next current next roots.global_root roots.local_root spec.1 h

  round_is_higher :
      (current next : Directory)
      → IsAtOrAbove current local_root_path
      → nesting_round sources local_root_path (find_global_and_local_root disk current)
        ≡ ok (some next)
      → (length next < length current) × IsAtOrAbove next local_root_path
  round_is_higher current next below h =
      let (l, nearest, is_next) =
        round_next current next _ (find_global_and_local_root-Roots disk current) h in
      let at_current : IsAtOrAbove l current =
        rw (resolved current below) at (Nearest-IsAtOrAbove nearest refl) in
      let not_top : l ≢ [] = λ e. no_local_at_top (rw e at (Nearest-present nearest refl)) in
      (
        rw is_next (omega (arith, length-above l not_top, length-le_of_above l current at_current)),
        rw is_next (
            IsAtOrAbove-trans (above l) current local_root_path
              (IsAtOrAbove-trans (above l) l current (IsAtOrAbove-above l) at_current) below),
      )

  after_round_ends :
      (r : Checked (Option Directory)) (go_on : Directory → Option (Checked (Unit {0})))
      → ((next : Directory) → r ≡ ok (some next) → go_on next ≢ none)
      → after_round r go_on ≢ none
  unfolding after_round
  after_round_ends (err e) go_on h = λ p. cc
  after_round_ends (ok none) go_on h = λ p. cc
  after_round_ends (ok (some next)) go_on h = h next refl

  nested_loop_ends :
      (fuel : ℕ) (current : Directory)
      → IsAtOrAbove current local_root_path
      → length current < fuel
      → nested_loop sources fuel local_root_path current ≢ none
  unfolding nested_loop
  nested_loop_ends zero current below h = elim h [ ]
  nested_loop_ends (suc fuel) current below h =
      after_round_ends _ (nested_loop sources fuel local_root_path) λ next e.
        let (shorter, still_below) = round_is_higher current next below e in
        nested_loop_ends fuel next still_below (omega arith)

  -- The check of a local root ends within as many rounds as there are directories above it, or within
  -- one round where it is "/" itself, if no directory at or above it is a symbolic link and there is no
  -- local configuration in "/".
  pub check_nested_local_configuration_ends :
      (c : Configuration) (p : String) (fuel : ℕ)
      → local_root sources.machine c ≡ some p
      → local_root_path_of sources p ≡ local_root_path
      → length local_root_path ≤ fuel
      → 0 < fuel
      → check_nested_local_configuration sources fuel c ≢ none
  unfolding check_nested_local_configuration
  check_nested_local_configuration_ends c p fuel e is_path enough some_round =
      rw (check_nested_local_configuration, e, is_path)
        (nested_loop_ends fuel (above local_root_path) (IsAtOrAbove-above local_root_path)
          (length-above_lt local_root_path fuel enough some_round))
