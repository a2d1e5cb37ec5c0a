-- ===== src/Filesystem/Expand.antt =====
-- About expand_relative_path (client/filesystem.py).
use pyre_check.Base.{
  [], ◌∷◌, ◌++◌, List, ◌≡◌, some, none, Option, true, false, arith, String, inl, inr, All,
  Bool-cases,
}
use pyre_check.PathLib.{
  PurePath, is_absolute, ◌/◌, path, expand_first, expand_parts, expand_user, path_text, tilde_user,
}
use pyre_check.PathLib.RoundTrip.{
  IsWellFormed, IsName, path-IsWellFormed, path-named, path-path_text,
}
use pyre_check.Filesystem.{expand_relative_path}

All-append {ℓ κ} :
    {A : Type ℓ} (P : A → Type κ) (xs ys : List A) → All P xs → All P ys → All P (xs ++ ys)
All-append P [] ys h k = k
All-append P (x ∷ xs) ys h k = (h.0, All-append P xs ys h.1 k)

extend-IsWellFormed :
    (base : PurePath) (rest : List String)
    → IsWellFormed base
    → All IsName rest
    → IsWellFormed (record base { parts = base.parts ++ rest })
extend-IsWellFormed base rest w names = record {
  from_root = w.from_root;
  named = All-append IsName base.parts rest w.named names;
}

-- `/` of an absolute path and any path that was read.
join-IsWellFormed :
    (base other : PurePath)
    → IsWellFormed base
    → All IsName other.parts
    → (is_absolute other ≡ true → IsWellFormed other)
    → IsWellFormed (base / other)
unfolding ◌/◌
join-IsWellFormed base other w names whole = elim (Bool-cases (is_absolute other)) [
  | inl e ↦ rw e (whole e)
  | inr e ↦ rw e (extend-IsWellFormed base other.parts w names)
]

well_formed_is_absolute : (p : PurePath) → IsWellFormed p → is_absolute p ≡ true
well_formed_is_absolute p w = elim w.from_root [ inl e ↦ rw e | inr e ↦ rw e ]

module _ (home : String → String)
    (homes : (user : String) → is_absolute (path (home user)) ≡ true) where
  expand_first-named :
      (u : Option String) (p : PurePath) (rest : List String)
      → All IsName p.parts
      → All IsName rest
      → All IsName (expand_first home u p rest).parts
  unfolding expand_first
  expand_first-named none p rest h k = h
  expand_first-named (some user) p rest h k =
      All-append IsName (path (home user)).parts rest (path-named (home user)) k

  expand_first-IsWellFormed :
      (u : Option String) (p : PurePath) (rest : List String)
      → (is_absolute p ≡ false)
      → All IsName rest
      → is_absolute (expand_first home u p rest) ≡ true
      → IsWellFormed (expand_first home u p rest)
  unfolding expand_first
  expand_first-IsWellFormed none p rest no_root k h = cc
  expand_first-IsWellFormed (some user) p rest no_root k h =
      extend-IsWellFormed (path (home user)) rest (path-IsWellFormed (home user) (homes user)) k

  expand_parts-named :
      (p : PurePath) (l : List String)
      → All IsName p.parts
      → All IsName l
      → All IsName (expand_parts home p l).parts
  unfolding expand_parts
  expand_parts-named p [] h k = h
  expand_parts-named p (x ∷ rest) h k = expand_first-named (tilde_user x) p rest h k.1

  expand_parts-IsWellFormed :
      (p : PurePath) (l : List String)
      → (is_absolute p ≡ false)
      → All IsName l
      → is_absolute (expand_parts home p l) ≡ true
      → IsWellFormed (expand_parts home p l)
  unfolding expand_parts
  expand_parts-IsWellFormed p [] no_root k h = cc
  expand_parts-IsWellFormed p (x ∷ rest) no_root k h =
      expand_first-IsWellFormed (tilde_user x) p rest no_root k.1 h

  expand_user-named : (s : String) → All IsName (expand_user home (path s)).parts
  unfolding expand_user
  expand_user-named s = elim (Bool-cases (is_absolute (path s))) [
    | inl e ↦ rw e (path-named s)
    | inr e ↦ rw e (expand_parts-named (path s) (path s).parts (path-named s) (path-named s))
  ]

  expand_user-IsWellFormed :
      (s : String)
      → is_absolute (expand_user home (path s)) ≡ true
      → IsWellFormed (expand_user home (path s))
  unfolding expand_user
  expand_user-IsWellFormed s h = elim (Bool-cases (is_absolute (path s))) [
    | inl e ↦ rw e (path-IsWellFormed s e)
    | inr e ↦ rw e (expand_parts-IsWellFormed (path s) (path s).parts e (path-named s) (rw e at h))
  ]

  -- What the expansion of `p` below `root` is the text of.
  abbrev expanded : String → String → PurePath
  expanded root p = path root / expand_user home (path p)

  expand_relative_path-eq :
      (root p : String) → expand_relative_path home root p ≡ path_text (expanded root p)
  unfolding expand_relative_path ◌/◌
  expand_relative_path-eq root p = ground arith

  expanded-IsWellFormed :
      (root p : String) → is_absolute (path root) ≡ true → IsWellFormed (expanded root p)
  expanded-IsWellFormed root p h =
      join-IsWellFormed (path root) (expand_user home (path p)) (path-IsWellFormed root h)
        (expand_user-named p) (expand_user-IsWellFormed p)

  -- With absolute home directories and an absolute root, the expansion of a path below the root is
  -- the text of an absolute path.
  pub expand_relative_path-is_absolute :
      (root p : String)
      → is_absolute (path root) ≡ true
      → is_absolute (path (expand_relative_path home root p)) ≡ true
  expand_relative_path-is_absolute root p h =
      rw
        (
          expand_relative_path-eq root p,
          path-path_text (expanded root p) (expanded-IsWellFormed root p h),
        )
        (well_formed_is_absolute _ (expanded-IsWellFormed root p h))

  expand_absolute :
      (root : String) (q : PurePath)
      → IsWellFormed q
      → expand_relative_path home root (path_text q) ≡ path_text q
  unfolding expand_relative_path expand_user
  expand_absolute root q w =
      rw (path-path_text q w, well_formed_is_absolute q w, well_formed_is_absolute q w)

  -- With absolute home directories and an absolute root, a path that was expanded below that root
  -- stays as it is when it is expanded again, below any root.
  pub expand_relative_path_idem :
      (root other p : String)
      → is_absolute (path root) ≡ true
      → expand_relative_path home other (expand_relative_path home root p)
        ≡ expand_relative_path home root p
  expand_relative_path_idem root other p h =
      rw (expand_relative_path-eq root p)
        (expand_absolute other (expanded root p) (expanded-IsWellFormed root p h))
