-- ===== src/FindDirectories/Roots.antt =====
-- About find_global_and_local_root and get_relative_local_root (client/find_directories.py).
use mathlib.Core.List.{reverse}
use pyre_check.Base.{
  [], ◌∷◌, List, refl, ◌≡◌, some, none, Option, true, false, arith, String, inl, inr, ◌⊎◌, eq_refl,
  Bool-cases, eq_iff, subst,
}
use pyre_check.FindDirectories.{
  Directory, parents, relative_to, Access, mem_directory, same_directory, Disk, FoundRoot,
  configuration_file, local_configuration_file, pair_roots, find_global_and_local_root,
  get_relative_local_root, find_parent_directory_containing_file, with_global,
}
use pyre_check.FindDirectories.Nearest.{
  Nearest, stop, top, climb, find_parent_directory_containing-Nearest,
}
use pyre_check.PathLib.{path_text}

-- `d` is the directory or stands above it.
abbrev pub IsAtOrAbove : Directory → Directory → Type 0
IsAtOrAbove d [] = d ≡ []
IsAtOrAbove d (name ∷ below) = (d ≡ name ∷ below) ⊎ IsAtOrAbove d below

same_directory_refl : (d : Directory) → same_directory d d ≡ true
same_directory_refl [] = refl
same_directory_refl (name ∷ d) = rw (eq_refl name, same_directory_refl d)

pub IsAtOrAbove-refl : (d : Directory) → IsAtOrAbove d d
IsAtOrAbove-refl [] = refl
IsAtOrAbove-refl (name ∷ d) = inl refl

mem-parents :
    (l base : Directory) → IsAtOrAbove l base → mem_directory l (base ∷ parents base) ≡ true
unfolding parents
mem-parents l [] h = rw h
mem-parents l (name ∷ base) (inl e) = rw (e, same_directory_refl (name ∷ base))
mem-parents l (name ∷ base) (inr h) = ground (arith, mem-parents l base h)

-- Of two directories at or above one base, one is at or above the other.
comparable :
    (base g l : Directory)
    → IsAtOrAbove g base
    → IsAtOrAbove l base
    → IsAtOrAbove g l ⊎ (mem_directory l (parents g) ≡ true)
unfolding parents
comparable [] g l p q = inl (rw q p)
comparable (name ∷ base) g l (inl p) (inl q) = inl (rw (p, q) (IsAtOrAbove-refl (name ∷ base)))
comparable (name ∷ base) g l (inl p) (inr q) = inr (rw p (mem-parents l base q))
comparable (name ∷ base) g l (inr p) (inl q) = inl (rw q (inr p))
comparable (name ∷ base) g l (inr p) (inr q) = comparable base g l p q

at_self : {d d' : Directory} → some d ≡ some d' → IsAtOrAbove d' d
at_self {d} {d'} e = subst (λ x. IsAtOrAbove x d) (cc) (IsAtOrAbove-refl d)

pub Nearest-IsAtOrAbove :
    {predicate : Directory → Access} {base d : Directory} {answer : Option Directory}
    → Nearest predicate base answer
    → answer ≡ some d
    → IsAtOrAbove d base
Nearest-IsAtOrAbove (stop p) e = at_self e
Nearest-IsAtOrAbove (top p) e = cc
Nearest-IsAtOrAbove (climb p n) e = inr (Nearest-IsAtOrAbove n e)

relative_to-some :
    (l g : Directory) → IsAtOrAbove g l → (names : List String) × (relative_to l g ≡ some names)
unfolding relative_to
relative_to-some [] g h = ([], rw h)
relative_to-some (name ∷ l) g h = elim (Bool-cases (same_directory (name ∷ l) g)) [
  | inl e ↦ ([], rw e)
  | inr e ↦ elim h [
    | inl same ↦ absurd (differs same e)
    | inr above ↦ let (names, r) = relative_to-some l g above in (name ∷ names, rw (e, r))
  ]
]
  where
    differs : {d g : Directory} → g ≡ d → same_directory d g ≡ false → ⊥
    differs {d} same e = cc (same_directory_refl d)

same_directory_sound : (d g : Directory) → same_directory d g ≡ true → d ≡ g
same_directory_sound [] [] h = refl
same_directory_sound [] (y ∷ ys) h = cc
same_directory_sound (x ∷ xs) [] h = cc
same_directory_sound (x ∷ xs) (y ∷ ys) h = ground (arith, eq_iff x y, same_directory_sound xs ys)

abbrev pub IsStrictlyAbove : Directory → Directory → Type 0
IsStrictlyAbove d [] = ⊥
IsStrictlyAbove d (name ∷ below) = IsAtOrAbove d below

mem_above : (l g : Directory) → mem_directory l (g ∷ parents g) ≡ true → IsAtOrAbove l g
unfolding parents
mem_above l [] h = same_directory_sound l [] (ground arith)
mem_above l (name ∷ g) h = elim (Bool-cases (same_directory l (name ∷ g))) [
  | inl e ↦ inl (same_directory_sound l (name ∷ g) e)
  | inr e ↦ inr (mem_above l g (ground arith))
]

mem-parents-IsStrictlyAbove :
    (l g : Directory) → mem_directory l (parents g) ≡ true → IsStrictlyAbove l g
unfolding parents
mem-parents-IsStrictlyAbove l [] h = cc
mem-parents-IsStrictlyAbove l (name ∷ g) h = mem_above l g h

module _ (disk : Disk) (base : Directory) where
  abbrev GlobalAt : Option Directory → Type 0
  GlobalAt = Nearest (λ d. disk.is_file d configuration_file) (disk.resolve base)

  abbrev LocalAt : Option Directory → Type 0
  LocalAt = Nearest (λ d. disk.is_file d local_configuration_file) (disk.resolve base)

  -- The local root that goes with a global root: the nearest local configuration, unless it is
  -- strictly above the global root.
  abbrev pub LocalRoot : Directory → Option Directory → Type 0
  LocalRoot g none = LocalAt none ⊎ ((l : Directory) × LocalAt (some l) × IsStrictlyAbove l g)
  LocalRoot g (some l) = LocalAt (some l) × IsAtOrAbove g l

  abbrev pub Roots : Option FoundRoot → Type 0
  Roots none = GlobalAt none
  Roots (some roots) =
      GlobalAt (some roots.global_root) × LocalRoot roots.global_root roots.local_root

  pair_roots-LocalRoot :
      (g : Directory) (l : Option Directory)
      → GlobalAt (some g)
      → LocalAt l
      → LocalRoot (pair_roots g l).global_root (pair_roots g l).local_root
        × ((pair_roots g l).global_root ≡ g)
  unfolding pair_roots
  pair_roots-LocalRoot g none found_global found_local = (inl found_local, refl)
  pair_roots-LocalRoot g (some l) found_global found_local =
      elim (Bool-cases (mem_directory l (parents g))) [
        | inl deeper ↦
            rw deeper (inr (l, found_local, mem-parents-IsStrictlyAbove l g deeper), refl)
        | inr level ↦ rw level ((found_local, settled level), refl)
      ]
    where
      settled : mem_directory l (parents g) ≡ false → IsAtOrAbove g l
      settled level =
          elim (comparable (disk.resolve base) g l (Nearest-IsAtOrAbove found_global refl)
            (Nearest-IsAtOrAbove found_local refl)) [ inl above ↦ above | inr deeper ↦ cc ]

  -- The roots that are found: none without a global configuration at or above the base; else the
  -- nearest directory with one, and with it the nearest directory with a local configuration, which
  -- is the global root or below it, or is left out because it does not exist or is strictly above.
  pub find_global_and_local_root-Roots : Roots (find_global_and_local_root disk base)
  unfolding find_global_and_local_root find_parent_directory_containing_file pair_roots with_global
  find_global_and_local_root-Roots =
      by_answers (find_parent_directory_containing_file disk base configuration_file)
        (find_parent_directory_containing_file disk base local_configuration_file)
        (find_parent_directory_containing-Nearest (disk.resolve base) _)
        (find_parent_directory_containing-Nearest (disk.resolve base) _)
    where
      by_answers : (g l : Option Directory) → GlobalAt g → LocalAt l → Roots (with_global g l)
      by_answers none l found_global found_local = found_global
      by_answers (some g) l found_global found_local =
          let (local, same) = pair_roots-LocalRoot g l found_global found_local in
          (rw same found_global, local)

  -- A local root that is found is below its global root, so it has a relative path.
  pub find_global_and_local_root-relative :
      (roots : FoundRoot) (l : Directory)
      → find_global_and_local_root disk base ≡ some roots
      → roots.local_root ≡ some l
      → (relative : String) × (get_relative_local_root roots.global_root roots.local_root
          ≡ some relative)
  unfolding get_relative_local_root
  find_global_and_local_root-relative roots l e is_local =
      let spec : Roots (some roots) = subst Roots e find_global_and_local_root-Roots in
      let below : IsAtOrAbove roots.global_root l =
        (subst (LocalRoot roots.global_root) is_local spec.1).1 in
      let (names, r) = relative_to-some l roots.global_root below in
      (path_text (record { root = ""; parts = reverse names }), rw (is_local, r))
