-- ===== src/Configuration/Relative/Laws.antt =====
-- About PartialConfiguration.expand_relative_paths (client/configuration.py).
use mathlib.Core.Option
use pyre_check.Base.{
  [], ◌∷◌, List, refl, ◌≡◌, some, none, Option, true, String, ap, inl, inr, map, Option-cases,
}
use pyre_check.PathLib.{is_absolute, path}
use pyre_check.Configuration.Elements.{
  expand_relative_root, unless_below, below_global, with_root, SearchPathElement, simple,
  subdirectory, site_package,
}
use pyre_check.Filesystem.{expand_relative_path}
use pyre_check.Filesystem.Expand.{expand_relative_path_idem}
use pyre_check.Configuration.Relative.{expand_relative_paths}
use pyre_check.Configuration.Partial.{PartialConfiguration}

module _ {ℓ} {A : Type ℓ} (f g : A → A) (settles : (a : A) → g (f a) ≡ f a) where
  map_settles : (xs : List A) → map g (map f xs) ≡ map f xs
  map_settles [] = refl
  map_settles (x ∷ xs) = rw (settles x, map_settles xs)

  option_settles : (o : Option A) → Option.map g (Option.map f o) ≡ Option.map f o
  option_settles none = refl
  option_settles (some a) = rw (settles a)

module _ (home : String → String) (homes : (user : String) → is_absolute (path (home user)) ≡ true)
    (root other : String) (rooted : is_absolute (path root) ≡ true) where
  abbrev once : String → String
  once = expand_relative_path home root

  abbrev again : String → String
  again = expand_relative_path home other

  abbrev once_root : String → String
  once_root p = expand_relative_root home p root

  abbrev again_root : String → String
  again_root p = expand_relative_root home p other

  once_settles : (p : String) → again (once p) ≡ once p
  once_settles p = expand_relative_path_idem home homes root other p rooted

  unless_below-once : (p : String) (o : Option String) → unless_below home other (once p) o ≡ once p
  unfolding unless_below
  unless_below-once p none = once_settles p
  unless_below-once p (some _) = refl

  again_root-once_root : (p : String) → again_root (once_root p) ≡ once_root p
  unfolding expand_relative_root
  again_root-once_root p = elim (Option-cases (below_global p)) [
    | inl e ↦ rw e (unless_below-once p (below_global (once p)))
    | inr (rest, e) ↦ rw (e, e)
  ]

  with_root_settles :
      (e : SearchPathElement) → with_root again_root (with_root once_root e) ≡ with_root once_root e
  unfolding with_root
  with_root_settles (simple r) = ap simple (again_root-once_root r)
  with_root_settles (subdirectory r name) = ap (λ p. subdirectory p name) (again_root-once_root r)
  with_root_settles (site_package r name) = refl

  -- With absolute home directories and an absolute root, expanding a configuration's paths below the
  -- root, and then below any other, gives what the first expansion gives.
  pub expand_relative_paths_idem :
      (c : PartialConfiguration)
      → expand_relative_paths home other (expand_relative_paths home root c)
        ≡ expand_relative_paths home root c
  unfolding expand_relative_paths
  expand_relative_paths_idem c =
      let elements = with_root_settles in
      simp (
        map_settles once again once_settles,
        option_settles once again once_settles,
        map_settles (with_root once_root) (with_root again_root) elements,
        option_settles (map (with_root once_root)) (map (with_root again_root))
            (map_settles (with_root once_root) (with_root again_root) elements),
      )
