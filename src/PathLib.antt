-- ===== src/PathLib.antt =====
-- What the client uses of pathlib: pure POSIX paths, their text, `/`, `is_absolute` and
-- `expanduser`. The home directories are the environment's: `home user` is that of `user`, and
-- `home ""` that of the caller; the RuntimeError for a user without one is not modelled.
pub mod RoundTrip
use Prim.Native.Char.{Char, code}
use pyre_check.Base.{
  ℕ, String, [], ◌∷◌, ◌++◌, List, Bool, if◌then◌else◌, keep, eqb, not, true, ◌==◌, false, ◌&&◌,
  Option, none, some,
}
use Prim.Native.String

pub record PurePath : Type 0 where
  pub root : String
  pub parts : List String

abbrev pub slash : Char
slash = "/"

abbrev pub is_slash : Char → Bool
is_slash c = eqb (code c) b'/'

unfoldable pub prepend : Char → List String → List String
prepend c [] = (String.◌∷◌ c String.[]) ∷ []
prepend c (x ∷ xs) = (String.◌∷◌ c x) ∷ xs

-- `text.split("/")`
unfoldable pub segments : String → List String
unfolding prepend
segments String.[] = String.[] ∷ []
segments (String.◌∷◌ c s) =
    let rest = segments s in if is_slash c then String.[] ∷ rest else prepend c rest

abbrev pub is_part : String → Bool
is_part s = not (s == "") && not (s == ".")

-- One leading slash and three or more are "/", two are "//".
third : String → String
third String.[] = "//"
third (String.◌∷◌ c s) = if is_slash c then "/" else "//"

second : String → String
unfolding third
second String.[] = "/"
second (String.◌∷◌ c s) = if is_slash c then third s else "/"

unfoldable pub root_of : String → String
unfolding second
root_of String.[] = ""
root_of (String.◌∷◌ c s) = if is_slash c then second s else ""

unfoldable pub path : String → PurePath
unfolding segments root_of
path s = record { root = root_of s; parts = keep is_part (segments s) }

unfoldable pub join : List String → String
join [] = ""
join (x ∷ []) = x
join (x ∷ y ∷ rest) = String.◌++◌ x (String.◌∷◌ slash (join (y ∷ rest)))

is_nil : List String → Bool
is_nil [] = true
is_nil (_ ∷ _) = false

-- `str(path)`
unfoldable pub path_text : PurePath → String
unfolding join is_nil
path_text p = if p.root == "" && is_nil p.parts then "." else String.◌++◌ p.root (join p.parts)

abbrev pub is_absolute : PurePath → Bool
is_absolute p = not (p.root == "")

-- `base / other`
infixl 70 ◌/◌
unfoldable pub ◌/◌ : PurePath → PurePath → PurePath
◌/◌ base other =
    if is_absolute other then other else record base { parts = base.parts ++ other.parts }

-- `name[:1] == "~"`, with the user that is named behind it.
unfoldable pub tilde_user : String → Option String
tilde_user String.[] = none
tilde_user (String.◌∷◌ c user) = if eqb (code c) b'~' then some user else none

module _ (home : String → String) where
  unfoldable pub expand_first : Option String → PurePath → List String → PurePath
  expand_first none p rest = p
  expand_first (some user) p rest =
      let base = path (home user) in record base { parts = base.parts ++ rest }

  unfoldable pub expand_parts : PurePath → List String → PurePath
  unfolding expand_first tilde_user
  expand_parts p [] = p
  expand_parts p (x ∷ rest) = expand_first (tilde_user x) p rest

  -- `path.expanduser()`
  unfoldable pub expand_user : PurePath → PurePath
  unfolding expand_parts
  expand_user p = if is_absolute p then p else expand_parts p p.parts
