-- ===== src/Query/Batches.antt =====
-- The batches of modules and class names.
use pyre_check.Json.{Json}
use pyre_check.Query.Answers.{Queried}
use pyre_check.Query.Defines.{chunks, concat, defines, query_defines, skip, slices}
use pyre_check.Base.{
  List, [], ◌∷◌, ◌++◌, ok, ◌>>=◌, map_ok, String, ◌≡◌, refl, ◌∙◌, ap, arith, All, take, length, ℕ,
  zero, suc, some, pos, ◌≤◌,
}

take-skip : {A : Type 0} (n : ℕ) (xs : List A) → take n xs ++ skip n xs ≡ xs
take-skip zero xs = refl
take-skip (suc n) [] = refl
take-skip (suc n) (x ∷ xs) = ap (◌∷◌ x) (take-skip n xs)

length-skip : {A : Type 0} (n : ℕ) (xs : List A) → length (skip n xs) ≤ length xs
length-skip zero xs = omega arith
length-skip (suc n) [] = omega arith
length-skip (suc n) (x ∷ xs) = let h = length-skip n xs in omega arith

length-take : {A : Type 0} (n : ℕ) (xs : List A) → length (take n xs) ≤ n
length-take zero xs = omega arith
length-take (suc n) [] = omega arith
length-take (suc n) (x ∷ xs) = let h = length-take n xs in omega arith

-- From one element to `size` of them.
abbrev pub IsBatch : ℕ → List String → Type 0
IsBatch size batch = (1 ≤ length batch) × (length batch ≤ size)

concat-slices :
    (fuel n : ℕ) (xs : List String) → length xs ≤ fuel → concat (slices fuel (suc n) xs) ≡ xs
unfolding slices
concat-slices zero n [] h = refl
concat-slices zero n (x ∷ xs) h = absurd (omega arith)
concat-slices (suc fuel) n [] h = refl
concat-slices (suc fuel) n (x ∷ xs) h =
    let shorter = length-skip n xs in
    ap (λ rest. x ∷ (take n xs ++ rest)) (concat-slices fuel n (skip n xs) (omega arith))
    ∙ ap (◌∷◌ x) (take-skip n xs)

slices-IsBatch : (fuel n : ℕ) (xs : List String) → All (IsBatch (suc n)) (slices fuel (suc n) xs)
unfolding slices
slices-IsBatch zero n xs = tt
slices-IsBatch (suc fuel) n [] = tt
slices-IsBatch (suc fuel) n (x ∷ xs) =
    let bound = length-take n xs in ((omega arith, omega arith), slices-IsBatch fuel n (skip n xs))

-- With a batch size from one up, the defines of the modules are those of batches, asked for one behind
-- the other, whose concatenation is the modules as given and of which each is of one module to the
-- batch size.
pub defines_batches :
    (query : String → Queried Json) (modules : List String) (n : ℕ)
    → (batches : List (List String)) × (concat batches ≡ modules)
      × All (IsBatch (suc n)) batches
      × (defines query modules (some (pos (suc n)))
          ≡ (map_ok (query_defines query) batches >>= λ found. ok (concat found)))
unfolding defines chunks
defines_batches query modules n = (
  chunks (suc n) modules,
  concat-slices (length modules) n modules (omega arith),
  slices-IsBatch (length modules) n modules,
  refl,
)
