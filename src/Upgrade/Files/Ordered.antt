-- ===== src/Upgrade/Files/Ordered.antt =====
-- Entries sorted by their keys: the values of each key keep their order, for the groups of a run's
-- errors (tools/upgrade/errors.py).
use pyre_check.Base.{
  [], ◌∷◌, List, refl, ◌≡◌, true, false, arith, String, ◌==◌, ap, inl, inr, All, if◌then◌else◌,
  insert_entry, sort_items, text_lt, Bool-cases, ◌∙◌, eq_iff, subst, text_lt-of_le, text_lt_asymm,
}

pub text_lt_irrefl : (s : String) → text_lt s s ≡ false
text_lt_irrefl s = elim (Bool-cases (text_lt s s)) [ inl h ↦ text_lt_asymm s s h | inr h ↦ h ]

lt-apart : (s t : String) → text_lt s t ≡ true → (s == t) ≡ false
lt-apart s t h = elim (Bool-cases (s == t)) [
  | inl same ↦ cc (rw ((eq_iff s t).0 same, text_lt_irrefl t) at h)
  | inr other ↦ other
]

module _ {A : Type 0} where
  -- The values of a key, in their order.
  unfoldable pub values_of : String → List (String × A) → List A
  values_of key [] = []
  values_of key (e ∷ l) = let later = values_of key l in if e.0 == key then e.1 ∷ later else later

  values_of-insert_entry :
      (key : String) (e : String × A) (l : List (String × A))
      → values_of key (insert_entry e l) ≡ values_of key (e ∷ l)
  unfolding values_of insert_entry
  values_of-insert_entry key e [] = refl
  values_of-insert_entry key e (f ∷ l) = elim (Bool-cases (text_lt f.0 e.0)) [
    | inr h ↦ rw h refl
    | inl h ↦ elim (Bool-cases (f.0 == key)) [
      | inr other ↦ rw (h, other) (values_of-insert_entry key e l)
      | inl same ↦
          let apart : (e.0 == key) ≡ false =
            subst (λ k. (e.0 == k) ≡ false) ((eq_iff f.0 key).0 same)
              (ground (arith, eq_iff e.0 f.0, eq_iff f.0 e.0, lt-apart f.0 e.0 h)) in
          rw (h, same, apart) (ap (◌∷◌ f.1) (values_of-insert_entry key e l ∙ rw apart refl))
    ]
  ]

  pub values_of-sort_items :
      (key : String) (l : List (String × A)) → values_of key (sort_items l) ≡ values_of key l
  unfolding values_of sort_items
  values_of-sort_items key [] = refl
  values_of-sort_items key (e ∷ l) =
      values_of-insert_entry key e (sort_items l)
      ∙ ap (λ later. if e.0 == key then e.1 ∷ later else later) (values_of-sort_items key l)

  -- No key is below one in front of it.
  abbrev pub AreOrdered : List (String × A) → Type 0
  AreOrdered [] = Unit
  AreOrdered (e ∷ l) = All (λ f. text_lt f.0 e.0 ≡ false) l × AreOrdered l

  All-insert_entry :
      (bound : String) (e : String × A) (l : List (String × A))
      → text_lt e.0 bound ≡ false
      → All (λ f. text_lt f.0 bound ≡ false) l
      → All (λ f. text_lt f.0 bound ≡ false) (insert_entry e l)
  unfolding insert_entry
  All-insert_entry bound e [] h k = (h, tt)
  All-insert_entry bound e (f ∷ l) h (here, later) = elim (Bool-cases (text_lt f.0 e.0)) [
    | inl below ↦ rw below (here, All-insert_entry bound e l h later)
    | inr above ↦ rw above (h, (here, later))
  ]

  -- What is not below one is not below what that one is not below.
  not_below :
      (a b : String) (l : List (String × A))
      → text_lt b a ≡ false
      → All (λ f. text_lt f.0 b ≡ false) l
      → All (λ f. text_lt f.0 a ≡ false) l
  not_below a b [] h k = tt
  not_below a b (f ∷ l) h (here, later) = (
    elim (Bool-cases (text_lt f.0 a)) [
      | inl below ↦ cc (text_lt-of_le b f.0 a here below, h)
      | inr above ↦ above
    ],
    not_below a b l h later,
  )

  insert_entry-AreOrdered :
      (e : String × A) (l : List (String × A)) → AreOrdered l → AreOrdered (insert_entry e l)
  unfolding insert_entry
  insert_entry-AreOrdered e [] h = (tt, tt)
  insert_entry-AreOrdered e (f ∷ l) (above, h) = elim (Bool-cases (text_lt f.0 e.0)) [
    | inl below ↦ rw below (
      All-insert_entry f.0 e l (text_lt_asymm f.0 e.0 below) above,
      insert_entry-AreOrdered e l h,
    )
    | inr front ↦ rw front ((front, not_below e.0 f.0 l front above), (above, h))
  ]

  pub sort_items-AreOrdered : (l : List (String × A)) → AreOrdered (sort_items l)
  unfolding sort_items
  sort_items-AreOrdered [] = tt
  sort_items-AreOrdered (e ∷ l) = insert_entry-AreOrdered e (sort_items l) (sort_items-AreOrdered l)

  -- Below everything: it is not there.
  pub values_of-below :
      (key bound : String) (l : List (String × A))
      → text_lt key bound ≡ true
      → All (λ f. text_lt f.0 bound ≡ false) l
      → values_of key l ≡ []
  unfolding values_of
  values_of-below key bound [] h k = refl
  values_of-below key bound (f ∷ l) h (here, later) = elim (Bool-cases (f.0 == key)) [
    | inl same ↦ cc (h, rw ((eq_iff f.0 key).0 same) at here)
    | inr other ↦ rw other (values_of-below key bound l h later)
  ]
