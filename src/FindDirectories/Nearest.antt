-- ===== src/FindDirectories/Nearest.antt =====
-- About the upward search of client/find_directories.py.
use pyre_check.Base.{
  [], ◌∷◌, ◌≡◌, some, none, Option, true, false, arith, String, inl, inr, Bool-cases, ◌≢◌,
}
use pyre_check.FindDirectories.{Access, Directory, find_parent_directory_containing, found, present}

-- What a search for the target has to answer at `base`.
pub data Nearest (predicate : Directory → Access) : Directory → Option Directory → Type 0 where
  stop : {d : Directory} → predicate d ≡ present → Nearest predicate d (some d)
  top : predicate [] ≢ present → Nearest predicate [] none
  climb :
      {name : String} {d : Directory} {answer : Option Directory}
      → predicate (name ∷ d) ≢ present
      → Nearest predicate d answer
      → Nearest predicate (name ∷ d) answer

found-true : (a : Access) → found a ≡ true → a ≡ present
found-true a h = ground arith

found-false : (a : Access) → found a ≡ false → a ≢ present
found-false a h = ground arith

-- The search answers the nearest directory, at or above the base, in which the target is present;
-- directories that may not be read are passed over, and None means that there is none up to the root.
pub find_parent_directory_containing-Nearest :
    (base : Directory) (predicate : Directory → Access)
    → Nearest predicate base (find_parent_directory_containing base predicate)
unfolding find_parent_directory_containing
find_parent_directory_containing-Nearest [] predicate = elim (Bool-cases (found (predicate []))) [
  | inl e ↦ rw e (stop (found-true _ e))
  | inr e ↦ rw e (top (found-false _ e))
]
find_parent_directory_containing-Nearest (name ∷ d) predicate =
    elim (Bool-cases (found (predicate (name ∷ d)))) [
      | inl e ↦ rw e (stop (found-true _ e))
      | inr e ↦
          rw e (climb (found-false _ e) (find_parent_directory_containing-Nearest d predicate))
    ]
