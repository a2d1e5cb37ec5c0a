-- ===== src/UpgradeConfiguration/Expansions.antt =====
-- The targets that a list of targets expands to.
use pyre_check.UpgradeConfiguration.Deduplicated.{
  is_queried, expanded_targets, is_among, index, keep_unexpanded, deduplicated,
}
use pyre_check.UpgradeConfiguration.Members.{
  AnyOf-sort_by, AnyOf-in_order, all-is_among, is_among-Listed,
}
use pyre_check.Texts.{Bytes, codes}
use pyre_check.Base.{
  List, [], ◌∷◌, ◌++◌, Option, some, none, true, false, ◌≡◌, refl, sym, ◌⊎◌, ◌↔◌, inl, inr, AnyOf,
  AnyOf-append, Listed, String, if◌then◌else◌, all, Bool-cases, Option-cases, subst,
}

module _ (buck_query : String → Option Bytes) where
  -- What a target stands for: the targets that `buck query` prints for a pattern, and the target itself
  -- where it is no pattern or the query fails.
  unfoldable pub targets_of : String → List Bytes
  unfolding is_queried expanded_targets
  targets_of target =
      if is_queried target
      then elim (buck_query target) [
        | none ↦ codes target ∷ []
        | some output ↦ expanded_targets output
      ]
      else codes target ∷ []

  -- Some target of the list stands for `x`, among others.
  abbrev pub Expands : Bytes → List String → Type 0
  Expands x targets = AnyOf (λ t. Listed x (targets_of t)) targets

  -- The target is kept, and what counts as expanded from then on is so already or stands for it.
  abbrev IsKept : String → List String → List Bytes → Type 0
  IsKept target targets expanded =
      (further : List Bytes) × (keep_unexpanded buck_query (target ∷ targets) expanded
        ≡ target ∷ keep_unexpanded buck_query targets further)
      × ((x : Bytes) → Listed x further → Listed x expanded ⊎ Listed x (targets_of target))

  -- The target is left out, and all that it stands for counts as expanded.
  abbrev IsLeftOut : String → List String → List Bytes → Type 0
  IsLeftOut target targets expanded =
      (keep_unexpanded buck_query (target ∷ targets) expanded
        ≡ keep_unexpanded buck_query targets expanded)
      × ((x : Bytes) → Listed x (targets_of target) → Listed x expanded)

  queried_step :
      (target : String) (targets : List String) (expanded : List Bytes) (output : Bytes)
      → is_queried target ≡ true
      → buck_query target ≡ some output
      → IsKept target targets expanded ⊎ IsLeftOut target targets expanded
  unfolding keep_unexpanded targets_of
  queried_step target targets expanded output queried answered =
      elim (Bool-cases (all (is_among expanded) (expanded_targets output))) [
        | inl known ↦ inr (
          rw queried (rw answered (rw known refl)),
          λ x. rw queried (rw answered (all-is_among expanded (expanded_targets output) x known)),
        )
        | inr new ↦ inl (
          expanded ++ expanded_targets output,
          rw queried (rw answered (rw new refl)),
          λ x.
              rw queried
                (rw answered ((AnyOf-append (λ q. q ≡ x) expanded (expanded_targets output)).0)),
        )
      ]

  plain_step :
      (target : String) (targets : List String) (expanded : List Bytes)
      → is_queried target ≡ false
      → IsKept target targets expanded ⊎ IsLeftOut target targets expanded
  unfolding keep_unexpanded targets_of
  plain_step target targets expanded plain = elim (Bool-cases (is_among expanded (codes target))) [
    | inl known ↦ inr (
      rw plain (rw known refl),
      λ x. rw plain (λ h. elim h [
        | inl same ↦
            subst (λ n. Listed n expanded) same (is_among-Listed expanded (codes target) known)
        | inr nothing ↦ absurd nothing
      ]),
    )
    | inr new ↦ inl (
      codes target ∷ expanded,
      rw plain (rw new refl),
      λ x. rw plain (λ h. elim h [ inl same ↦ inr (inl same) | inr later ↦ inl later ]),
    )
  ]

  step :
      (target : String) (targets : List String) (expanded : List Bytes)
      → IsKept target targets expanded ⊎ IsLeftOut target targets expanded
  unfolding keep_unexpanded
  step target targets expanded = elim (Bool-cases (is_queried target)) [
    | inl queried ↦ elim (Option-cases (buck_query target)) [
      | inl failed ↦ inl (expanded, rw queried (rw failed refl), λ x h. inl h)
      | inr (output, answered) ↦ queried_step target targets expanded output queried answered
    ]
    | inr plain ↦ plain_step target targets expanded plain
  ]

  keep_unexpanded-Expands :
      (x : Bytes) (targets : List String) (expanded : List Bytes)
      → Expands x targets
      → Expands x (keep_unexpanded buck_query targets expanded) ⊎ Listed x expanded
  keep_unexpanded-Expands x [] expanded h = absurd h
  keep_unexpanded-Expands x (target ∷ targets) expanded h = elim (step target targets expanded) [
    | inl (further, kept, known) ↦
        let stands : Expands x (target ∷ keep_unexpanded buck_query targets further)
            ⊎ Listed x expanded =
          elim h [
            | inl here ↦ inl (inl here)
            | inr later ↦ elim (keep_unexpanded-Expands x targets further later) [
              | inl p ↦ inl (inr p)
              | inr q ↦ elim (known x q) [ inl before ↦ inr before | inr here ↦ inl (inl here) ]
            ]
          ] in
        subst (λ l. Expands x l ⊎ Listed x expanded) (sym kept) stands
    | inr (left_out, known) ↦
        let stands : Expands x (keep_unexpanded buck_query targets expanded) ⊎ Listed x expanded =
          elim h [
            | inl here ↦ inr (known x here)
            | inr later ↦ keep_unexpanded-Expands x targets expanded later
          ] in
        subst (λ l. Expands x l ⊎ Listed x expanded) (sym left_out) stands
  ]

  -- What is kept is there already.
  keep_unexpanded-AnyOf :
      (P : String → Type 0) (targets : List String) (expanded : List Bytes)
      → AnyOf P (keep_unexpanded buck_query targets expanded)
      → AnyOf P targets
  unfolding keep_unexpanded
  keep_unexpanded-AnyOf P [] expanded h = absurd h
  keep_unexpanded-AnyOf P (target ∷ targets) expanded h = elim (step target targets expanded) [
    | inl (further, kept, known) ↦ elim (subst (AnyOf P) kept h) [
      | inl here ↦ inl here
      | inr later ↦ inr (keep_unexpanded-AnyOf P targets further later)
    ]
    | inr (left_out, known) ↦
        inr (keep_unexpanded-AnyOf P targets expanded (subst (AnyOf P) left_out h))
  ]

  -- Every target that is left is one of those that were given.
  pub deduplicated-AnyOf :
      (P : String → Type 0) (targets : List String)
      → AnyOf P (deduplicated buck_query targets)
      → AnyOf P targets
  unfolding deduplicated
  deduplicated-AnyOf P targets h =
      (AnyOf-in_order P targets).0
        (keep_unexpanded-AnyOf P _ [] ((AnyOf-sort_by P (index targets) _).0 h))

  -- The targets that are left stand for exactly the targets that those given stand for: a pattern for
  -- what `buck query` prints for it, and any other target, or a pattern whose query fails, for itself.
  pub deduplicated-Expands :
      (targets : List String) (x : Bytes)
      → Expands x (deduplicated buck_query targets) ↔ Expands x targets
  unfolding deduplicated
  deduplicated-Expands targets x = (
    deduplicated-AnyOf (λ t. Listed x (targets_of t)) targets,
    λ h.
        let looked_at = (AnyOf-in_order (λ t. Listed x (targets_of t)) targets).1 h in
        (AnyOf-sort_by (λ t. Listed x (targets_of t)) (index targets) _).1
          (elim (keep_unexpanded-Expands x _ [] looked_at) [
            | inl p ↦ p
            | inr nothing ↦ absurd nothing
          ]),
  )
