-- ===== src/RecentlyUsed/Prompt.antt =====
-- About prompt_user_for_local_root (client/recently_used_configurations.py).
use pyre_check.RecentlyUsed.{
  prompt_user_for_local_root, UserInput, entered, interrupted, answer, index_of, chosen,
  python_index,
}
use pyre_check.Base.{
  List, refl, ◌≡◌, some, none, Option, true, false, Bool, String, ◌==◌, inl, inr, ℤ, pos, ◌↔◌, ◌⊎◌,
  ◌≢◌, Bool-cases, eq_iff,
}

module _ (parse_int : String → Option ℤ) where
  -- The index that a user's text stands for: 0 if it is empty, else its number.
  abbrev pub Selects : String → ℤ → Type 0
  Selects text index =
      ((text ≡ "") × (index ≡ pos 0)) ⊎ ((text ≢ "") × (parse_int text ≡ some index))

  index_of_iff :
      (text : String) (index : ℤ) → (index_of parse_int text ≡ some index) ↔ Selects text index
  unfolding index_of
  index_of_iff text index = elim (Bool-cases (text == "")) [
    | inl e ↦
        let empty : text ≡ "" = (eq_iff text "").0 e in
        rw e (
          λ h. inl (empty, cc),
          λ h. elim h [ inl first ↦ cc (first.1) | inr typed ↦ absurd (typed.0 empty) ],
        )
    | inr e ↦
        let filled : text ≢ "" = λ p. cc (e, (eq_iff text "").1 p) in
        rw e (
          λ h. inr (filled, h),
          λ h. elim h [ inl first ↦ absurd (filled first.0) | inr typed ↦ typed.1 ],
        )
  ]

  chosen_index :
      (roots : List String) (o : Option ℤ) (root : String)
      → chosen parse_int roots o ≡ some root
      → (index : ℤ) × (o ≡ some index) × (python_index roots index ≡ some root)
  unfolding chosen
  chosen_index roots none root h = cc
  chosen_index roots (some index) root h = (index, refl, h)

  -- A root is chosen exactly when the terminal is capable and the user enters nothing, for the first
  -- root, or a number that indexes the roots as Python does: from 0, or below 0 from the end.
  pub prompt_user_for_local_root_iff :
      (is_capable : Bool) (input : UserInput) (local_roots : List String) (root : String)
      → (prompt_user_for_local_root parse_int is_capable input local_roots ≡ some root) ↔ (
          (is_capable ≡ true)
          × ((text : String) × (index : ℤ) × (input ≡ entered text)
              × Selects text index
              × (python_index local_roots index ≡ some root)))
  unfolding prompt_user_for_local_root answer index_of chosen
  prompt_user_for_local_root_iff false input roots root = (λ h. cc, λ h. cc (h.0))
  prompt_user_for_local_root_iff true interrupted roots root =
      (λ h. cc, λ h. let (c, (text, index, e, means, found)) = h in cc)
  prompt_user_for_local_root_iff true (entered text) roots root = (
    λ h.
        let (index, is_index, found) = chosen_index roots (index_of parse_int text) root h in
        (refl, (text, index, refl, (index_of_iff text index).0 is_index, found)),
    λ h.
        let (c, (typed, index, e, means, found)) = h in
        let same : text ≡ typed = cc (e) in
        rw (same, (index_of_iff typed index).1 means, chosen) found,
  )
