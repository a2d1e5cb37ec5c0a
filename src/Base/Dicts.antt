-- ===== src/Base/Dicts.antt =====
-- Python's dicts with texts as keys, in the order of their first writing.
use mathlib.Core.List.{List, [], ◌∷◌, map}
use mathlib.Core.Option.{Option, none, some}
use mathlib.Core.Bool.{Bool, true, false}
use mathlib.Core.Path.{◌≡◌, refl}
use Prim.Native.String.{String}
use native.Mathlib.Omega.{arith}
use text.Mathlib.Text.{◌==◌}
use text.Mathlib.TextEquality.{eq_iff}
use pyre_check.Base.Tests.{if◌then◌else◌}

abbrev pub Dict {ℓ} : Type ℓ → Type ℓ
Dict A = List (String × A)

module _ {ℓ} {A : Type ℓ} where
  -- `d.get(key)`
  abbrev pub get_item : String → Dict A → Option A
  get_item key [] = none
  get_item key (entry ∷ d) =
      let later = get_item key d in if entry.0 == key then some entry.1 else later

  -- `key in d`
  abbrev pub has_item : String → Dict A → Bool
  has_item key [] = false
  has_item key (entry ∷ d) = let later = has_item key d in if entry.0 == key then true else later

  -- `d[key] = value`
  abbrev pub set_item : String → A → Dict A → Dict A
  set_item key value [] = (key, value) ∷ []
  set_item key value (entry ∷ d) =
      let later = set_item key value d in
      if entry.0 == key then (entry.0, value) ∷ d else entry ∷ later

  -- `d.setdefault(key, value)`
  abbrev pub set_default : String → A → Dict A → Dict A
  set_default key value d = if has_item key d then d else set_item key value d

  abbrev pub item_keys : Dict A → List String
  item_keys d = map (λ entry. entry.0) d

  pub get_item-set_item :
      (key other : String) (value : A) (d : Dict A)
      → get_item other (set_item key value d)
        ≡ (if key == other then some value else get_item other d)
  get_item-set_item key other value [] = refl
  get_item-set_item key other value (entry ∷ d) = ground (
    arith,
    get_item-set_item key other value d,
    eq_iff entry.0 key,
    eq_iff entry.0 other,
    eq_iff key other,
  )

  pub has_item-set_item :
      (key other : String) (value : A) (d : Dict A)
      → has_item other (set_item key value d) ≡ (if key == other then true else has_item other d)
  has_item-set_item key other value [] = refl
  has_item-set_item key other value (entry ∷ d) = ground (
    arith,
    has_item-set_item key other value d,
    eq_iff entry.0 key,
    eq_iff entry.0 other,
    eq_iff key other,
  )

  pub get_item-missing :
      (key : String) (d : Dict A) → has_item key d ≡ false → get_item key d ≡ none
  get_item-missing key [] h = refl
  get_item-missing key (entry ∷ d) h = ground (arith, get_item-missing key d)

  pub get_item-set_default :
      (key other : String) (value : A) (d : Dict A)
      → get_item other (set_default key value d) ≡ (
          if has_item key d
          then get_item other d
          else if key == other
          then some value
          else get_item other d)
  get_item-set_default key other value d = ground (arith, get_item-set_item key other value d)
