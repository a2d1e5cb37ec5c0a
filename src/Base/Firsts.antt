-- ===== src/Base/Firsts.antt =====
-- The first of two values that is there, as dicts give it.
use Prim.Native.String.{String}
use mathlib.Core.List.{[], ◌∷◌, ◌++◌}
use mathlib.Core.Option.{Option, none, some}
use mathlib.Core.Bool.{true}
use mathlib.Core.Logic.{inl, inr}
use mathlib.Core.Path.{◌≡◌, refl, ap, sym, ◌∙◌}
use text.Mathlib.Text.{◌==◌}
use text.Mathlib.TextEquality.{eq_iff}
use pyre_check.Base.Tests.{if◌then◌else◌, Bool-cases}
use pyre_check.Base.Dicts.{
  Dict, get_item, has_item, set_default, get_item-set_item, get_item-missing,
}

-- The first of the two that is there.
unfoldable pub first_of : {A : Type 0} → Option A → Option A → Option A
first_of (some a) other = some a
first_of none other = other

pub first_of_assoc :
    {A : Type 0} (a b c : Option A) → first_of (first_of a b) c ≡ first_of a (first_of b c)
unfolding first_of
first_of_assoc (some a) b c = refl
first_of_assoc none b c = refl

pub get_item-append :
    {A : Type 0} (key : String) (d e : Dict A)
    → get_item key (d ++ e) ≡ first_of (get_item key d) (get_item key e)
unfolding first_of
get_item-append key [] e = refl
get_item-append key (entry ∷ d) e = elim (Bool-cases (entry.0 == key)) [
  | inl h ↦ rw h refl
  | inr h ↦ rw h (get_item-append key d e)
]

has_item-first_of :
    {A : Type 0} (key : String) (d : Dict A) (other : Option A)
    → has_item key d ≡ true
    → first_of (get_item key d) other ≡ get_item key d
unfolding first_of
has_item-first_of key [] other h = cc (h)
has_item-first_of key (entry ∷ d) other h = elim (Bool-cases (entry.0 == key)) [
  | inl e ↦ rw e refl
  | inr e ↦ rw e (has_item-first_of key d other (rw e at h))
]

pub first_of-none : {A : Type 0} (a : Option A) → first_of a none ≡ a
unfolding first_of
first_of-none (some a) = refl
first_of-none none = refl

-- A first writing stands behind what is there.
pub get_item-set_default-first_of :
    {A : Type 0} (key other : String) (value : A) (d : Dict A)
    → get_item other (set_default key value d)
      ≡ first_of (get_item other d) (if key == other then some value else none)
unfolding first_of
get_item-set_default-first_of key other value d = elim (Bool-cases (has_item key d)) [
  | inl there ↦ elim (Bool-cases (key == other)) [
    | inl same ↦
        rw (there, same)
          (sym (
            has_item-first_of other d (some value)
              (ap (λ k. has_item k d) (sym ((eq_iff key other).0 same)) ∙ there)))
    | inr apart ↦ rw (there, apart) (sym (first_of-none (get_item other d)))
  ]
  | inr missing ↦ elim (Bool-cases (key == other)) [
    | inl same ↦ rw missing (
        get_item-set_item key other value d
        ∙ rw
            (
              same,
              ap (λ k. get_item k d) (sym ((eq_iff key other).0 same))
                  ∙ get_item-missing key d missing,
            )
            refl)
    | inr apart ↦
        rw missing
          (get_item-set_item key other value d ∙ rw apart (sym (first_of-none (get_item other d))))
  ]
]
