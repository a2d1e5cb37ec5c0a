-- ===== src/RecentlyUsed/Kept.antt =====
-- What every operation of the cache keeps (client/recently_used_configurations.py).
use pyre_check.RecentlyUsed.{
  add_recent_item, without, CacheFiles, put, get_all_items, delete, maximum_recent_items, opened,
  items_of, acquire_lock, load_items_from_file, items_under, put_under, Lock, acquired, unlocked,
  refused,
}
use pyre_check.Base.{
  [], ◌∷◌, List, refl, ◌≡◌, some, Option, true, false, arith, String, ◌==◌, inl, inr, All,
  Bool-cases, length, ℕ, take, ◌≤◌, suc, zero, ◌&&◌,
}

-- No item is there twice.
abbrev pub Distinct : List String → Type 0
Distinct [] = Unit
Distinct (x ∷ xs) = All (λ y. (y == x) ≡ false) xs × Distinct xs

pub All-without :
    (P : String → Type 0) (x : String) (xs : List String) → All P xs → All P (without x xs)
All-without P x [] h = tt
All-without P x (y ∷ ys) h = elim (Bool-cases (y == x)) [
  | inl e ↦ rw e (All-without P x ys h.1)
  | inr e ↦ rw e (h.0, All-without P x ys h.1)
]

pub Distinct-without : (x : String) (xs : List String) → Distinct xs → Distinct (without x xs)
Distinct-without x [] h = tt
Distinct-without x (y ∷ ys) h = elim (Bool-cases (y == x)) [
  | inl e ↦ rw e (Distinct-without x ys h.1)
  | inr e ↦ rw e (All-without _ x ys h.0, Distinct-without x ys h.1)
]

pub without_is_absent : (x : String) (xs : List String) → All (λ y. (y == x) ≡ false) (without x xs)
without_is_absent x [] = tt
without_is_absent x (y ∷ ys) = elim (Bool-cases (y == x)) [
  | inl e ↦ rw e (without_is_absent x ys)
  | inr e ↦ rw (e, e) (refl, without_is_absent x ys)
]

pub All-take : (P : String → Type 0) (n : ℕ) (xs : List String) → All P xs → All P (take n xs)
All-take P zero xs h = tt
All-take P (suc n) [] h = tt
All-take P (suc n) (x ∷ xs) h = (h.0, All-take P n xs h.1)

Distinct-take : (n : ℕ) (xs : List String) → Distinct xs → Distinct (take n xs)
Distinct-take zero xs h = tt
Distinct-take (suc n) [] h = tt
Distinct-take (suc n) (x ∷ xs) h = (All-take _ n xs h.0, Distinct-take n xs h.1)

length-take-le : (n : ℕ) (xs : List String) → length (take n xs) ≤ n
length-take-le zero xs = omega arith
length-take-le (suc n) [] = omega arith
length-take-le (suc n) (x ∷ xs) = omega (arith, length-take-le n xs)

-- At most ten items, no two of them equal.
abbrev pub IsKept : List String → Type 0
IsKept items = Distinct items × (length items ≤ maximum_recent_items)

add_recent_item-IsKept :
    (item : String) (items : List String) → IsKept items → IsKept (add_recent_item item items)
unfolding add_recent_item
add_recent_item-IsKept item items h =
    let distinct : Distinct (item ∷ without item items) =
      (without_is_absent item items, Distinct-without item items h.0) in
    (
      Distinct-take 10 (item ∷ without item items) distinct,
      length-take-le 10 (item ∷ without item items),
    )

-- What a process may do with the cache, and another with the lock.
pub data Use : Type 0 where
  puts : String → Use
  gets deletes locks unlocks : Use

module _ (loads : String → Option (List String)) (dumps : List String → String) where
  pub after : Use → CacheFiles → CacheFiles
  after (puts item) c = put loads dumps item c
  after gets c = (get_all_items loads c).1
  after deletes c = delete c
  after locks c = record c { is_held = true }
  after unlocks c = record c { is_held = false }

  pub after_all : List Use → CacheFiles → CacheFiles
  after_all [] c = c
  after_all (u ∷ rest) c = after_all rest (after u c)

  module _ (round_trip : (items : List String) → loads (dumps items) ≡ some items) where
    put_under-IsKept :
        (lock : Lock) (item : String) (c : CacheFiles)
        → IsKept (load_items_from_file loads c)
        → IsKept (load_items_from_file loads (put_under loads dumps lock item c))
    unfolding put_under load_items_from_file items_of
    put_under-IsKept acquired item c h =
        rw (items_of, round_trip) (add_recent_item-IsKept item (load_items_from_file loads c) h)
    put_under-IsKept unlocked item c h = h
    put_under-IsKept refused item c h = h

    get_under-files : (lock : Lock) (c : CacheFiles) → (items_under loads lock c).1 ≡ opened c
    unfolding items_under
    get_under-files acquired c = refl
    get_under-files unlocked c = refl
    get_under-files refused c = refl

    after-IsKept :
        (u : Use) (c : CacheFiles)
        → IsKept (load_items_from_file loads c)
        → IsKept (load_items_from_file loads (after u c))
    unfolding after put delete get_all_items load_items_from_file items_of
    after-IsKept (puts item) c h = put_under-IsKept (acquire_lock c) item c h
    after-IsKept gets c h = rw (get_under-files (acquire_lock c) c) h
    after-IsKept deletes c h = elim (Bool-cases (c.has_directory && c.has_lock_file)) [
      | inl e ↦ rw e (tt, omega arith)
      | inr e ↦ rw e h
    ]
    after-IsKept locks c h = h
    after-IsKept unlocks c h = h

    -- Where `json.loads` reads back what `json.dumps` writes, and the cache file has at most ten
    -- items with no two equal, it has so after any puts, reads and deletions, whatever another
    -- process does with the lock.
    pub after_all-IsKept :
        (uses : List Use) (c : CacheFiles)
        → IsKept (load_items_from_file loads c)
        → IsKept (load_items_from_file loads (after_all uses c))
    unfolding after_all
    after_all-IsKept [] c h = h
    after_all-IsKept (u ∷ rest) c h = after_all-IsKept rest (after u c) (after-IsKept u c h)
