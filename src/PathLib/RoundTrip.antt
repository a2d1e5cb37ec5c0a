-- ===== src/PathLib/RoundTrip.antt =====
-- About the text of an absolute path (pathlib).
use Prim.Native.String
use Prim.Native.Char.{Char}
use package.text.Mathlib.TextLemmas.{nil-append, cons-append}
use pyre_check.Base.{
  String, [], ◌∷◌, List, refl, ◌≡◌, All, false, keep, true, ◌∙◌, ap, ap₂, Bool-cases, if◌then◌else◌,
  inl, ◌⊎◌, inr, arith, ◌==◌, eq_iff, subst, sym,
}
use pyre_check.PathLib.{
  PurePath, is_part, is_slash, join, path, segments, second, slash, path_text, root_of, is_absolute,
  third, prepend,
}

abbrev pub HasNoSlash : String → Type 0
HasNoSlash String.[] = Unit
HasNoSlash (String.◌∷◌ c s) = (is_slash c ≡ false) × HasNoSlash s

-- A name between two slashes: no slash, and neither empty nor ".".
pub record IsName (s : String) : Type 0 where
  pub plain : HasNoSlash s
  pub kept : is_part s ≡ true

segments-name : (s : String) → HasNoSlash s → segments s ≡ s ∷ []
unfolding segments
segments-name String.[] h = refl
segments-name (String.◌∷◌ c s) (h, rest) = rw (h, segments-name s rest)

segments-append :
    (s t : String) → HasNoSlash s → segments (String.◌++◌ s (String.◌∷◌ slash t)) ≡ s ∷ segments t
unfolding segments
segments-append String.[] t h = rw nil-append
segments-append (String.◌∷◌ c s) t (h, rest) = rw (cons-append, h, segments-append s t rest)

segments-join :
    (x : String) (xs : List String) → All IsName (x ∷ xs) → segments (join (x ∷ xs)) ≡ x ∷ xs
unfolding join
segments-join x [] h = segments-name x h.0.plain
segments-join x (y ∷ ys) h =
    segments-append x (join (y ∷ ys)) h.0.plain ∙ ap (λ l. x ∷ l) (segments-join y ys h.1)

keep-names : (xs : List String) → All IsName xs → keep is_part xs ≡ xs
keep-names [] h = refl
keep-names (x ∷ xs) h = rw (h.0.kept, keep-names xs h.1)

keep-segments-join : (xs : List String) → All IsName xs → keep is_part (segments (join xs)) ≡ xs
unfolding join segments
keep-segments-join [] h = refl
keep-segments-join (x ∷ xs) h = rw (segments-join x xs h) (keep-names (x ∷ xs) h)

-- A path that begins with a root and whose parts are names.
pub record IsWellFormed (p : PurePath) : Type 0 where
  pub from_root : (p.root ≡ "/") ⊎ (p.root ≡ "//")
  pub named : All IsName p.parts

abbrev HeadIsPlain : String → Type 0
HeadIsPlain String.[] = Unit
HeadIsPlain (String.◌∷◌ c s) = is_slash c ≡ false

HeadIsPlain-append :
    (c : Char) (s t : String) → is_slash c ≡ false → HeadIsPlain (String.◌++◌ (String.◌∷◌ c s) t)
HeadIsPlain-append c s t h = rw cons-append h

HeadIsPlain-join : (xs : List String) → All IsName xs → HeadIsPlain (join xs)
unfolding join
HeadIsPlain-join [] h = tt
HeadIsPlain-join (String.[] ∷ xs) h = cc (h.0.kept)
HeadIsPlain-join (String.◌∷◌ c s ∷ []) h = h.0.plain.0
HeadIsPlain-join (String.◌∷◌ c s ∷ y ∷ ys) h = HeadIsPlain-append c s _ h.0.plain.0

second_plain : (s : String) → HeadIsPlain s → second s ≡ "/"
unfolding second
second_plain String.[] h = refl
second_plain (String.◌∷◌ c s) h = rw h

third_plain : (s : String) → HeadIsPlain s → third s ≡ "//"
unfolding third
third_plain String.[] h = refl
third_plain (String.◌∷◌ c s) h = rw h

path-one :
    (names : List String)
    → All IsName names
    → path (String.◌++◌ "/" (join names)) ≡ record { root = "/"; parts = names }
unfolding path root_of segments
path-one names h =
    rw (cons-append, nil-append)
      (ap₂ (λ r l. record { root = r; parts = l })
        (second_plain (join names) (HeadIsPlain-join names h)) (keep-segments-join names h))

path-two :
    (names : List String)
    → All IsName names
    → path (String.◌++◌ "//" (join names)) ≡ record { root = "//"; parts = names }
unfolding path root_of second segments
path-two names h =
    rw (cons-append, cons-append, nil-append)
      (ap₂ (λ r l. record { root = r; parts = l })
        (third_plain (join names) (HeadIsPlain-join names h)) (keep-segments-join names h))

-- The text of a well-formed path is read back as that path.
pub path-path_text : (p : PurePath) → IsWellFormed p → path (path_text p) ≡ p
unfolding path_text
path-path_text p w = elim w.from_root [
  | inl one ↦ rw one (path-one p.parts w.named)
  | inr two ↦ rw two (path-two p.parts w.named)
]

-- What `path` reads has a known root, and its parts are names.
segments-HasNoSlash : (s : String) → All HasNoSlash (segments s)
unfolding segments
segments-HasNoSlash String.[] = (tt, tt)
segments-HasNoSlash (String.◌∷◌ c s) = prepended c (segments s) (segments-HasNoSlash s)
  where
    prepended :
        (c : Char) (l : List String)
        → All HasNoSlash l
        → All HasNoSlash (if is_slash c then String.[] ∷ l else prepend c l)
    prepended c [] h = ground arith
    prepended c (x ∷ xs) h = ground arith

keep-IsName : (xs : List String) → All HasNoSlash xs → All IsName (keep is_part xs)
keep-IsName [] h = tt
keep-IsName (x ∷ xs) (h, hs) = elim (Bool-cases (is_part x)) [
  | inl yes_part ↦ rw yes_part (record { plain = h; kept = yes_part }, keep-IsName xs hs)
  | inr no_part ↦ rw no_part (keep-IsName xs hs)
]

pub path-named : (s : String) → All IsName (path s).parts
unfolding path
path-named s = keep-IsName (segments s) (segments-HasNoSlash s)

third_cases : (s : String) → (third s ≡ "/") ⊎ (third s ≡ "//")
unfolding third
third_cases String.[] = inr refl
third_cases (String.◌∷◌ c s) = elim (Bool-cases (is_slash c)) [
  | inl e ↦ inl (rw e)
  | inr e ↦ inr (rw e)
]

second_cases : (s : String) → (second s ≡ "/") ⊎ (second s ≡ "//")
unfolding second
second_cases String.[] = inl refl
second_cases (String.◌∷◌ c s) = elim (Bool-cases (is_slash c)) [
  | inl e ↦ rw e (third_cases s)
  | inr e ↦ inl (rw e)
]

root_of_cases : (s : String) → (root_of s == "") ≡ false → (root_of s ≡ "/") ⊎ (root_of s ≡ "//")
unfolding root_of
root_of_cases String.[] h = cc
root_of_cases (String.◌∷◌ c s) h = elim (Bool-cases (is_slash c)) [
  | inl e ↦ rw e (second_cases s)
  | inr e ↦ absurd (false_of c s e h)
]
  where
    false_of :
        (c : Char) (s : String)
        → is_slash c ≡ false
        → ((if is_slash c then second s else "") == "") ≡ false
        → ⊥
    false_of c s e h = cc (rw e at h)

pub path-IsWellFormed : (s : String) → is_absolute (path s) ≡ true → IsWellFormed (path s)
unfolding path
path-IsWellFormed s h = record { from_root = root_of_cases s (ground arith); named = path-named s }

relative_root : (s : String) → HeadIsPlain s → root_of s ≡ ""
unfolding root_of
relative_root String.[] h = refl
relative_root (String.◌∷◌ c s) h = rw h

path-relative :
    (names : List String)
    → All IsName names
    → path (path_text (record { root = ""; parts = names })) ≡ record { root = ""; parts = names }
unfolding path path_text root_of segments
path-relative [] h = refl
path-relative (x ∷ names) h = rw nil-append (
    ap₂ (λ r l. record { root = r; parts = l })
      (relative_root (join (x ∷ names)) (HeadIsPlain-join (x ∷ names) h))
      (keep-segments-join (x ∷ names) h))

path-rootless : (p : PurePath) → p.root ≡ "" → All IsName p.parts → path (path_text p) ≡ p
path-rootless p r h =
    subst (λ q. path (path_text q) ≡ q) (ap (λ t. record { root = t; parts = p.parts }) (sym r))
      (path-relative p.parts h)

-- A path that was read from a text is read back from its own text.
pub path-path_text-path : (s : String) → path (path_text (path s)) ≡ path s
path-path_text-path s = elim (Bool-cases (is_absolute (path s))) [
  | inl e ↦ path-path_text (path s) (path-IsWellFormed s e)
  | inr e ↦ path-rootless (path s) (is_rootless e) (path-named s)
]
  where
    is_rootless : is_absolute (path s) ≡ false → (path s).root ≡ ""
    is_rootless e = (eq_iff (path s).root "").0 (ground arith)
