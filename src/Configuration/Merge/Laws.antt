-- ===== src/Configuration/Merge/Laws.antt =====
-- About merge_partial_configurations (client/configuration.py).
use pyre_check.Base.{
  List, refl, ◌≡◌, some, none, Option, String, ok, err, sym, append_assoc, ◌>>=◌, append-nil, inl,
  inr, ◌⊎◌,
}
use pyre_check.Configuration.Merge.{
  merge_fields, merge_partial_configurations, overwrite_base, prepend_base, raise_when_overridden,
}
use pyre_check.Configuration.Partial.{PartialConfiguration, unset}
use pyre_check.Configuration.Elements.{
  SearchPathElement, Checked, ConfigurationError, cannot_override,
}

module _ {ℓ} {A : Type ℓ} where
  overwrite_assoc :
      (a b c : Option A)
      → overwrite_base (overwrite_base a b) c ≡ overwrite_base a (overwrite_base b c)
  overwrite_assoc a b none = refl
  overwrite_assoc a b (some c) = refl

  prepend_assoc :
      (a b c : List A) → prepend_base (prepend_base a b) c ≡ prepend_base a (prepend_base b c)
  prepend_assoc a b c = sym (append_assoc c b a)

merge_fields_assoc :
    (a b c : PartialConfiguration) (s u v : Option (List SearchPathElement))
    (t w x : Option (List String))
    → merge_fields (merge_fields a b s t) c u w ≡ merge_fields a (merge_fields b c v x) u w
unfolding merge_fields
merge_fields_assoc a b c s u v t w x = simp (overwrite_assoc, append_assoc)

-- An option that may not be overridden is set twice.
abbrev pub IsOverride : ConfigurationError → Type 0
IsOverride (cannot_override name) = (name ≡ "source_directories") ⊎ (name ≡ "targets")
IsOverride _ = ⊥

-- Both succeed with one configuration, or both raise because an option is set twice.
abbrev pub SameOutcome : Checked PartialConfiguration → Checked PartialConfiguration → Type 0
SameOutcome (ok c) (ok d) = c ≡ d
SameOutcome (err e) (err f) = IsOverride e × IsOverride f
SameOutcome _ _ = ⊥

module _ {ℓ} {A : Type ℓ} where
  overwrite_unset : (a : Option A) → overwrite_base none a ≡ a
  overwrite_unset none = refl
  overwrite_unset (some a) = refl

  raise_unset : (a : Option A) (name : String) → raise_when_overridden a none name ≡ ok a
  raise_unset none name = refl
  raise_unset (some a) name = refl

-- The configuration with nothing set may stand on either side of a merge, and changes nothing.
pub merge-unset :
    (c : PartialConfiguration)
    → (merge_partial_configurations unset c ≡ ok c) × (merge_partial_configurations c unset ≡ ok c)
unfolding merge_partial_configurations
merge-unset c = (simp (overwrite_unset, append-nil), simp raise_unset)

abbrev twice : ConfigurationError
twice = cannot_override "source_directories"

-- Nothing but an option that is set twice makes it raise.
abbrev RaisesOverride : {A : Type 0} → Checked A → Type 0
RaisesOverride (ok a) = Unit
RaisesOverride (err e) = IsOverride e

-- A merge that is going to raise raises, whatever the targets do first.
fail_both :
    {A B : Type 0} (m : Checked A) (n : Checked B)
    → RaisesOverride m
    → RaisesOverride n
    → SameOutcome (m >>= λ _. err twice) (n >>= λ _. err twice)
fail_both (ok _) (ok _) h k = (inl refl, inl refl)
fail_both (ok _) (err _) h k = (inl refl, k)
fail_both (err _) (ok _) h k = (h, inl refl)
fail_both (err _) (err _) h k = (h, k)

fail_left :
    {A : Type 0} (m : Checked A) → RaisesOverride m → SameOutcome (m >>= λ _. err twice) (err twice)
fail_left (ok _) h = (inl refl, inl refl)
fail_left (err _) h = (h, inl refl)

fail_right :
    {A : Type 0} (m : Checked A) → RaisesOverride m → SameOutcome (err twice) (m >>= λ _. err twice)
fail_right (ok _) h = (inl refl, inl refl)
fail_right (err _) h = (inl refl, h)

abbrev raise_sources :
    Option (List SearchPathElement)
    → Option (List SearchPathElement)
    → Checked (Option (List SearchPathElement))
raise_sources base override = raise_when_overridden base override "source_directories"

abbrev raise_targets : Option (List String) → Option (List String) → Checked (Option (List String))
raise_targets base override = raise_when_overridden base override "targets"

raise_targets-RaisesOverride : (t u : Option (List String)) → RaisesOverride (raise_targets t u)
raise_targets-RaisesOverride none u = tt
raise_targets-RaisesOverride (some t) none = tt
raise_targets-RaisesOverride (some t) (some u) = inr refl

module _ (a b c : PartialConfiguration) where
  -- The two merges once the source directories are settled.
  targets_assoc :
      (s u v : Option (List SearchPathElement)) (t₁ t₂ t₃ : Option (List String))
      → SameOutcome
          (raise_targets t₁ t₂ >>= λ t.
            raise_targets t t₃ >>= λ w. ok (merge_fields (merge_fields a b s t) c u w))
          (raise_targets t₂ t₃ >>= λ x.
            raise_targets t₁ x >>= λ w. ok (merge_fields a (merge_fields b c v x) u w))
  targets_assoc s u v none none none = merge_fields_assoc a b c s u v none none none
  targets_assoc s u v none none (some z) = merge_fields_assoc a b c s u v none (some z) (some z)
  targets_assoc s u v none (some y) none = merge_fields_assoc a b c s u v (some y) (some y) (some y)
  targets_assoc s u v (some x) none none = merge_fields_assoc a b c s u v (some x) (some x) none
  targets_assoc s u v none (some y) (some z) = (inr refl, inr refl)
  targets_assoc s u v (some x) none (some z) = (inr refl, inr refl)
  targets_assoc s u v (some x) (some y) none = (inr refl, inr refl)
  targets_assoc s u v (some x) (some y) (some z) = (inr refl, inr refl)

  sources_assoc :
      (s₁ s₂ s₃ : Option (List SearchPathElement)) (t₁ t₂ t₃ : Option (List String))
      → SameOutcome
          (raise_sources s₁ s₂ >>= λ s. raise_targets t₁ t₂ >>= λ t. raise_sources s s₃ >>= λ u.
            raise_targets t t₃ >>= λ w. ok (merge_fields (merge_fields a b s t) c u w))
          (raise_sources s₂ s₃ >>= λ v. raise_targets t₂ t₃ >>= λ x. raise_sources s₁ v >>= λ u.
            raise_targets t₁ x >>= λ w. ok (merge_fields a (merge_fields b c v x) u w))
  sources_assoc none none none = targets_assoc none none none
  sources_assoc none none (some z) = targets_assoc none (some z) (some z)
  sources_assoc none (some y) none = targets_assoc (some y) (some y) (some y)
  sources_assoc (some x) none none = targets_assoc (some x) (some x) none
  sources_assoc none (some y) (some z) =
      λ t₁ t₂ t₃. fail_left (raise_targets t₁ t₂) (raise_targets-RaisesOverride t₁ t₂)
  sources_assoc (some x) none (some z) = λ t₁ t₂ t₃.
      fail_both (raise_targets t₁ t₂) (raise_targets t₂ t₃) (raise_targets-RaisesOverride t₁ t₂)
        (raise_targets-RaisesOverride t₂ t₃)
  sources_assoc (some x) (some y) none =
      λ t₁ t₂ t₃. fail_right (raise_targets t₂ t₃) (raise_targets-RaisesOverride t₂ t₃)
  sources_assoc (some x) (some y) (some z) = λ t₁ t₂ t₃. (inl refl, inl refl)

bind_assoc :
    {A B C : Type 0} (m : Checked A) (f : A → Checked B) (g : B → Checked C)
    → ((m >>= f) >>= g) ≡ (m >>= λ a. f a >>= g)
bind_assoc (ok a) f g = refl
bind_assoc (err e) f g = refl

-- Merging three configurations succeeds in one grouping exactly when it does in the other, and then
-- with the same configuration. Else both raise because the source directories or the targets are set
-- twice; where both are, the two groupings may raise for different ones.
pub merge_assoc :
    (a b c : PartialConfiguration)
    → SameOutcome
        (merge_partial_configurations a b >>= λ ab. merge_partial_configurations ab c)
        (merge_partial_configurations b c >>= λ bc. merge_partial_configurations a bc)
unfolding merge_partial_configurations
merge_assoc a b c = simp bind_assoc (
    sources_assoc a b c a.source_directories b.source_directories c.source_directories a.targets
      b.targets c.targets)
