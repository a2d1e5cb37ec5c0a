-- ===== src/UpgradeConfiguration/Members.antt =====
-- Membership in the lists that deduplicate_targets makes of the targets.
use pyre_check.UpgradeConfiguration.Deduplicated.{is_glob, as_dict, sorted_set, is_among}
use pyre_check.Texts.{Bytes, same_bytes}
use pyre_check.Base.{
  insert_by, sort_by, List, [], ◌∷◌, ◌++◌, not, true, Bool, ℕ, ◌≡◌, refl, sym, ◌⊎◌, ◌↔◌, inl, inr,
  AnyOf, AnyOf-append, Listed, String, ◌==◌, all, keep, leb, Dict, set_item, sort_items, item_keys,
  ap₂, subst, insert_entry, text_lt, Bool-cases, eq_iff, arith,
}

same_bytes-eq : (xs ys : Bytes) → same_bytes xs ys ≡ true → xs ≡ ys
unfolding same_bytes
same_bytes-eq [] [] h = refl
same_bytes-eq [] (y ∷ ys) h = cc (h)
same_bytes-eq (x ∷ xs) [] h = cc (h)
same_bytes-eq (x ∷ xs) (y ∷ ys) h = ap₂ ◌∷◌ (ground arith) (same_bytes-eq xs ys (ground arith))

pub is_among-Listed :
    (expanded : List Bytes) (target : Bytes)
    → is_among expanded target ≡ true
    → Listed target expanded
is_among-Listed [] target h = cc (h)
is_among-Listed (e ∷ expanded) target h = elim (Bool-cases (same_bytes target e)) [
  | inl same ↦ inl (sym (same_bytes-eq target e same))
  | inr apart ↦ inr (is_among-Listed expanded target (rw apart at h))
]

pub all-is_among :
    (expanded names : List Bytes) (x : Bytes)
    → all (is_among expanded) names ≡ true
    → Listed x names
    → Listed x expanded
all-is_among expanded [] x h k = absurd k
all-is_among expanded (name ∷ names) x h (inl same) =
    subst (λ n. Listed n expanded) same (is_among-Listed expanded name (ground arith))
all-is_among expanded (name ∷ names) x h (inr later) =
    all-is_among expanded names x (ground arith) later

-- What is put behind the head.
behind_head : {A B C X : Type 0} → X ↔ (A ⊎ C) → (B ⊎ X) ↔ (A ⊎ (B ⊎ C))
behind_head h = (
  λ k. elim k [
    | inl b ↦ inr (inl b)
    | inr x ↦ elim (h.0 x) [ inl a ↦ inl a | inr c ↦ inr (inr c) ]
  ],
  λ k. elim k [ inl a ↦ inr (h.1 (inl a)) | inr (inl b) ↦ inl b | inr (inr c) ↦ inr (h.1 (inr c)) ],
)

both_sides : {A B C X : Type 0} → X ↔ (A ⊎ B) → B ↔ C → X ↔ (A ⊎ C)
both_sides h k = (
  λ x. elim (h.0 x) [ inl a ↦ inl a | inr b ↦ inr (k.0 b) ],
  λ s. h.1 (elim s [ inl a ↦ inl a | inr c ↦ inr (k.1 c) ]),
)

module _ (P : String → Type 0) where
  AnyOf-insert_by :
      (key : String → ℕ) (t : String) (ts : List String)
      → AnyOf P (insert_by key t ts) ↔ (P t ⊎ AnyOf P ts)
  unfolding insert_by
  AnyOf-insert_by key t [] = (λ h. h, λ h. h)
  AnyOf-insert_by key t (u ∷ ts) = elim (Bool-cases (leb (key t) (key u))) [
    | inl first ↦ rw first (λ h. h, λ h. h)
    | inr later ↦ rw later (behind_head (AnyOf-insert_by key t ts))
  ]

  pub AnyOf-sort_by : (key : String → ℕ) (ts : List String) → AnyOf P (sort_by key ts) ↔ AnyOf P ts
  unfolding sort_by
  AnyOf-sort_by key [] = (λ h. h, λ h. h)
  AnyOf-sort_by key (t ∷ ts) =
      both_sides (AnyOf-insert_by key t (sort_by key ts)) (AnyOf-sort_by key ts)

  AnyOf-keep :
      (test : String → Bool) (ts : List String)
      → (AnyOf P (keep test ts) ⊎ AnyOf P (keep (λ t. not (test t)) ts)) ↔ AnyOf P ts
  AnyOf-keep test [] = (λ h. elim h [ inl p ↦ p | inr p ↦ p ], λ h. inl h)
  AnyOf-keep test (t ∷ ts) = elim (Bool-cases (test t)) [
    | inl kept ↦ rw kept (
      λ h. elim h [
        | inl (inl p) ↦ inl p
        | inl (inr p) ↦ inr ((AnyOf-keep test ts).0 (inl p))
        | inr p ↦ inr ((AnyOf-keep test ts).0 (inr p))
      ],
      λ h. elim h [
        | inl p ↦ inl (inl p)
        | inr p ↦ elim ((AnyOf-keep test ts).1 p) [ inl q ↦ inl (inr q) | inr q ↦ inr q ]
      ],
    )
    | inr left ↦ rw left (
      λ h. elim h [
        | inl p ↦ inr ((AnyOf-keep test ts).0 (inl p))
        | inr (inl p) ↦ inl p
        | inr (inr p) ↦ inr ((AnyOf-keep test ts).0 (inr p))
      ],
      λ h. elim h [
        | inl p ↦ inr (inl p)
        | inr p ↦ elim ((AnyOf-keep test ts).1 p) [ inl q ↦ inl q | inr q ↦ inr (inr q) ]
      ],
    )
  ]

  AnyOf-insert_entry :
      (e : String × Unit {0}) (d : Dict (Unit {0}))
      → AnyOf P (item_keys (insert_entry e d)) ↔ (P e.0 ⊎ AnyOf P (item_keys d))
  unfolding insert_entry
  AnyOf-insert_entry e [] = (λ h. h, λ h. h)
  AnyOf-insert_entry e (f ∷ d) = elim (Bool-cases (text_lt f.0 e.0)) [
    | inl below ↦ rw below (behind_head (AnyOf-insert_entry e d))
    | inr here ↦ rw here (λ h. h, λ h. h)
  ]

  AnyOf-set_item :
      (t : String) (d : Dict (Unit {0}))
      → AnyOf P (item_keys (set_item t tt d)) ↔ (P t ⊎ AnyOf P (item_keys d))
  AnyOf-set_item t [] = (λ h. h, λ h. h)
  AnyOf-set_item t (f ∷ d) = elim (Bool-cases (f.0 == t)) [
    | inl same ↦ rw same (
      λ h. inr h,
      λ h. elim h [ inl p ↦ inl (subst P (sym ((eq_iff f.0 t).0 same)) p) | inr q ↦ q ],
    )
    | inr apart ↦ rw apart (behind_head (AnyOf-set_item t d))
  ]

  AnyOf-as_dict : (ts : List String) → AnyOf P (item_keys (as_dict ts)) ↔ AnyOf P ts
  unfolding as_dict
  AnyOf-as_dict [] = (λ h. h, λ h. h)
  AnyOf-as_dict (t ∷ ts) = both_sides (AnyOf-set_item t (as_dict ts)) (AnyOf-as_dict ts)

  AnyOf-sort_items :
      (d : Dict (Unit {0})) → AnyOf P (item_keys (sort_items d)) ↔ AnyOf P (item_keys d)
  unfolding sort_items
  AnyOf-sort_items [] = (λ h. h, λ h. h)
  AnyOf-sort_items (e ∷ d) = both_sides (AnyOf-insert_entry e (sort_items d)) (AnyOf-sort_items d)

  AnyOf-sorted_set : (ts : List String) → AnyOf P (sorted_set ts) ↔ AnyOf P ts
  unfolding sorted_set
  AnyOf-sorted_set ts = (
    λ h. (AnyOf-as_dict ts).0 ((AnyOf-sort_items (as_dict ts)).0 h),
    λ h. (AnyOf-sort_items (as_dict ts)).1 ((AnyOf-as_dict ts).1 h),
  )

  -- The targets in the order in which they are looked at.
  pub AnyOf-in_order :
      (ts : List String)
      → AnyOf P (sorted_set (keep is_glob ts) ++ sorted_set (keep (λ t. not (is_glob t)) ts))
        ↔ AnyOf P ts
  AnyOf-in_order ts =
      let globs = sorted_set (keep is_glob ts) in
      let others = sorted_set (keep (λ t. not (is_glob t)) ts) in
      let parts = AnyOf-append P globs others in
      let first = AnyOf-sorted_set (keep is_glob ts) in
      let second = AnyOf-sorted_set (keep (λ t. not (is_glob t)) ts) in
      (
        λ h.
            (AnyOf-keep is_glob ts).0
              (elim (parts.0 h) [ inl p ↦ inl (first.0 p) | inr q ↦ inr (second.0 q) ]),
        λ h. parts.1 (elim ((AnyOf-keep is_glob ts).1 h) [
          | inl p ↦ inl (first.1 p)
          | inr q ↦ inr (second.1 q)
        ]),
      )
