-- ===== src/RecentlyUsed/History.antt =====
-- About the items that the cache has after some puts (client/recently_used_configurations.py).
use pyre_check.RecentlyUsed.{
  add_recent_item, without, CacheFiles, put, get_all_items, acquire_lock, put_under, acquired,
  items_under, load_items_from_file, items_of, maximum_recent_items,
}
use pyre_check.Base.{
  [], ◌∷◌, List, refl, ◌≡◌, some, none, Option, true, false, arith, String, ◌==◌, ap, inl, inr, All,
  ℕ, take, suc, Bool-cases, zero, eq_iff, subst, ◌∙◌, Bool, if◌then◌else◌, sym, any,
}
use pyre_check.RecentlyUsed.Kept.{Distinct, without_is_absent, Distinct-without, All-take}

abbrev pub among : String → List String → Bool
among item seen = any (λ other. other == item) seen

-- The items of a history, the latest put first, at their latest puts alone: a put of an item that was
-- put again later is passed over. `seen` are the items of the later puts.
abbrev pub latest_puts : List String → List String → List String
latest_puts seen [] = []
latest_puts seen (item ∷ earlier) =
    let next = latest_puts (item ∷ seen) earlier in
    if among item seen then latest_puts seen earlier else item ∷ next

-- The same, by removing what was put again.
recent_items : List String → List String
recent_items [] = []
recent_items (item ∷ earlier) = item ∷ without item (recent_items earlier)

without_absent :
    (x : String) (xs : List String) → All (λ y. (y == x) ≡ false) xs → without x xs ≡ xs
without_absent x [] h = refl
without_absent x (y ∷ ys) h = rw (h.0) (ap (λ l. y ∷ l) (without_absent x ys h.1))

take-take : (n : ℕ) (xs : List String) → take n (take n xs) ≡ take n xs
take-take zero xs = refl
take-take (suc n) [] = refl
take-take (suc n) (x ∷ xs) = ap (λ l. x ∷ l) (take-take n xs)

-- An item that is there once leaves one place.
take-without :
    (n : ℕ) (x : String) (xs : List String)
    → Distinct xs
    → take n (without x (take (suc n) xs)) ≡ take n (without x xs)
take-without zero x xs h = refl
take-without (suc n) x [] h = refl
take-without (suc n) x (y ∷ ys) h = elim (Bool-cases (y == x)) [
  | inl e ↦
      let same : y ≡ x = (eq_iff y x).0 e in
      let absent : All (λ z. (z == x) ≡ false) ys =
        subst (λ t. All (λ z. (z == t) ≡ false) ys) same h.0 in
      rw
        (
          e,
          without_absent x (take (suc n) ys) (All-take (λ z. (z == x) ≡ false) (suc n) ys absent),
          without_absent x ys absent,
        )
        (take-take (suc n) ys)
  | inr e ↦ rw e (ap (λ l. y ∷ l) (take-without n x ys h.1))
]

without_twice : (x : String) (xs : List String) → without x (without x xs) ≡ without x xs
without_twice x xs = without_absent x (without x xs) (without_is_absent x xs)

without-without :
    (x y : String) (xs : List String) → without x (without y xs) ≡ without y (without x xs)
without-without x y [] = refl
without-without x y (z ∷ zs) = ground (arith, without-without x y zs)

-- One more item that is seen leaves it out.
latest_puts-seen :
    (x : String) (seen history : List String)
    → latest_puts (x ∷ seen) history ≡ without x (latest_puts seen history)
latest_puts-seen x seen [] = refl
latest_puts-seen x seen (item ∷ earlier) = elim (Bool-cases (among item seen)) [
  | inl found ↦ ground (arith, found, latest_puts-seen x seen earlier)
  | inr new ↦ elim (Bool-cases (x == item)) [
    | inl same ↦
        let equal : x ≡ item = (eq_iff x item).0 same in
        ground (
          arith,
          new,
          same,
          (eq_iff item x).1 (sym equal),
          latest_puts-seen x seen earlier,
          without_twice x (latest_puts seen earlier),
          ap (λ y. without x (latest_puts (y ∷ seen) earlier)) equal,
        )
    | inr other ↦ ground (
      arith,
      new,
      other,
      eq_iff x item,
      eq_iff item x,
      latest_puts-seen item (x ∷ seen) earlier,
      latest_puts-seen x seen earlier,
      ap (without x) (latest_puts-seen item seen earlier),
      without-without item x (latest_puts seen earlier),
      ap (without item) (latest_puts-seen x seen earlier),
    )
  ]
]

latest_puts-recent_items : (history : List String) → latest_puts [] history ≡ recent_items history
unfolding recent_items
latest_puts-recent_items [] = refl
latest_puts-recent_items (item ∷ earlier) =
    ap (λ l. item ∷ l)
      (latest_puts-seen item [] earlier ∙ ap (without item) (latest_puts-recent_items earlier))

recent_items-Distinct : (history : List String) → Distinct (recent_items history)
unfolding recent_items
recent_items-Distinct [] = tt
recent_items-Distinct (x ∷ earlier) = (
  without_is_absent x (recent_items earlier),
  Distinct-without x _ (recent_items-Distinct earlier),
)

module _ (loads : String → Option (List String)) (dumps : List String → String) where
  -- The puts of a history, the latest first.
  pub put_all : List String → CacheFiles → CacheFiles
  put_all [] c = c
  put_all (item ∷ earlier) c = put loads dumps item (put_all earlier c)

  module _ (round_trip : (items : List String) → loads (dumps items) ≡ some items) where
    record IsReady (c : CacheFiles) : Type 0 where
      in_place : c.has_directory ≡ true
      free : c.is_held ≡ false

    acquires : (c : CacheFiles) → IsReady c → acquire_lock c ≡ acquired
    unfolding acquire_lock
    acquires c r = ground arith

    -- A put on a ready cache leaves it ready, with the item added.
    put-IsReady :
        (item : String) (c : CacheFiles)
        → IsReady c
        → IsReady (put loads dumps item c)
          × (load_items_from_file loads (put loads dumps item c)
              ≡ add_recent_item item (load_items_from_file loads c))
    unfolding put put_under load_items_from_file items_of
    put-IsReady item c r =
        rw (put, acquires c r)
          (record { in_place = r.in_place; free = r.free }, rw (items_of, round_trip))

    put_all_items :
        (history : List String) (c : CacheFiles)
        → IsReady c
        → load_items_from_file loads c ≡ []
        → IsReady (put_all history c)
          × (load_items_from_file loads (put_all history c)
              ≡ take maximum_recent_items (recent_items history))
    unfolding put_all recent_items add_recent_item
    put_all_items [] c r e = (r, e)
    put_all_items (item ∷ earlier) c r e =
        let (ready, items) = put_all_items earlier c r e in
        let (still_ready, added) = put-IsReady item (put_all earlier c) ready in
        (
          still_ready,
          added
              ∙ ap (add_recent_item item) items
              ∙ ap (λ l. item ∷ l)
                  (take-without 9 item (recent_items earlier) (recent_items-Distinct earlier)),
        )

    get_all_items-ready :
        (c : CacheFiles) → IsReady c → (get_all_items loads c).0 ≡ load_items_from_file loads c
    unfolding get_all_items items_under
    get_all_items-ready c r = rw (get_all_items, acquires c r)

    -- After a history of puts into a new cache, whose directory exists and whose lock is free, the
    -- cache answers the items of the whole history, each once, in the order of their latest puts, the
    -- latest first, cut to ten, where `json.loads` reads back what `json.dumps` writes.
    pub get_all_items-put_all :
        (history : List String) (c : CacheFiles)
        → c.has_directory ≡ true
        → c.is_held ≡ false
        → c.items_file ≡ none
        → (get_all_items loads (put_all history c)).0
          ≡ take maximum_recent_items (latest_puts [] history)
    unfolding load_items_from_file items_of
    get_all_items-put_all history c in_place free missing =
        let ready : IsReady c = record { in_place = in_place; free = free } in
        let (still_ready, items) = put_all_items history c ready (rw missing) in
        get_all_items-ready (put_all history c) still_ready
        ∙ items
        ∙ ap (take maximum_recent_items) (sym (latest_puts-recent_items history))
