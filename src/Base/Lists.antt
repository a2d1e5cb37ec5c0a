-- ===== src/Base/Lists.antt =====
-- Lists with Boolean tests, and predicates on lists by recursion.
use Prim.Native.Nat.{ℕ, zero, suc}
use mathlib.Core.Bool.{Bool, true, false, ◌&&◌, ◌||◌}
use mathlib.Core.Logic.{◌⊎◌, ◌↔◌, inl, inr}
use mathlib.Core.List.{List, [], ◌∷◌, ◌++◌}
use pyre_check.Base.Tests.{if◌then◌else◌, Bool-cases}
use mathlib.Core.Path.{◌≡◌}

module _ {ℓ} {A : Type ℓ} where
  abbrev pub length : List A → ℕ
  length [] = 0
  length (x ∷ xs) = suc (length xs)

  abbrev pub take : ℕ → List A → List A
  take zero xs = []
  take (suc n) [] = []
  take (suc n) (x ∷ xs) = x ∷ take n xs

  -- `[x for x in xs if test(x)]`
  abbrev pub keep : (A → Bool) → List A → List A
  keep test [] = []
  keep test (x ∷ xs) = let rest = keep test xs in if test x then x ∷ rest else rest

  abbrev pub any : (A → Bool) → List A → Bool
  any test [] = false
  any test (x ∷ xs) = test x || any test xs

  abbrev pub all : (A → Bool) → List A → Bool
  all test [] = true
  all test (x ∷ xs) = test x && all test xs

  abbrev pub All {κ} : (A → Type κ) → List A → Type κ
  All P [] = Unit
  All P (x ∷ xs) = P x × All P xs

  -- Some element satisfies `P`.
  abbrev pub AnyOf : (A → Type 0) → List A → Type 0
  AnyOf P [] = ⊥
  AnyOf P (x ∷ xs) = P x ⊎ AnyOf P xs

  pub AnyOf-append :
      (P : A → Type 0) (xs ys : List A) → AnyOf P (xs ++ ys) ↔ (AnyOf P xs ⊎ AnyOf P ys)
  AnyOf-append P [] ys = (inr, λ h. elim h [ inl no_element ↦ absurd no_element | inr h ↦ h ])
  AnyOf-append P (x ∷ xs) ys = (
    λ h. elim h [
      | inl p ↦ inl (inl p)
      | inr h ↦ elim ((AnyOf-append P xs ys).0 h) [ inl q ↦ inl (inr q) | inr q ↦ inr q ]
    ],
    λ h. elim h [
      | inl (inl p) ↦ inl p
      | inl (inr q) ↦ inr ((AnyOf-append P xs ys).1 (inl q))
      | inr q ↦ inr ((AnyOf-append P xs ys).1 (inr q))
    ],
  )

module _ {A : Type 0} where
  -- `x` is one of the elements.
  abbrev pub Listed : A → List A → Type 0
  Listed p = AnyOf (λ q. q ≡ p)

  split : (p : A) (x : A) (xs : List A) → Listed p (x ∷ xs) → (x ≡ p) ⊎ Listed p xs
  split p x xs h = h

  pub keep_iff :
      (test : A → Bool) (p : A) (xs : List A)
      → Listed p (keep test xs) ↔ ((test p ≡ true) × Listed p xs)
  keep_iff test p [] = (λ h. absurd h, λ h. absurd h.1)
  keep_iff test p (x ∷ xs) = elim (Bool-cases (test x)) [
    | inl e ↦ rw e (
      λ h. elim h [
        | inl same ↦ (rw same at e, inl same)
        | inr later ↦ let (kept, listed) = (keep_iff test p xs).0 later in (kept, inr listed)
      ],
      λ h. elim (split p x xs h.1) [
        | inl same ↦ inl same
        | inr later ↦ inr ((keep_iff test p xs).1 (h.0, later))
      ],
    )
    | inr e ↦ rw e (
      λ h. let (kept, listed) = (keep_iff test p xs).0 h in (kept, inr listed),
      λ h. elim (split p x xs h.1) [
        | inl same ↦ cc (h.0)
        | inr later ↦ (keep_iff test p xs).1 (h.0, later)
      ],
    )
  ]
