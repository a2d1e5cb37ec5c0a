-- ===== src/Upgrade/Files/Apart.antt =====
-- The keys of the dict of errors are apart (tools/upgrade/errors.py).
use pyre_check.Upgrade.Files.{dict_of}
use pyre_check.Base.{
  List, [], ◌∷◌, false, String, ◌==◌, Dict, has_item, set_item, ◌≡◌, refl, ◌∙◌, Bool-cases, inl,
  inr, eq_iff, arith, has_item-set_item,
}

-- No key is there twice.
abbrev pub AreApart : {A : Type 0} → Dict A → Type 0
AreApart [] = Unit
AreApart (entry ∷ d) = (has_item entry.0 d ≡ false) × AreApart d

set_item-AreApart :
    {A : Type 0} (key : String) (value : A) (d : Dict A)
    → AreApart d
    → AreApart (set_item key value d)
set_item-AreApart key value [] h = (refl, tt)
set_item-AreApart key value (entry ∷ d) (alone, apart) = elim (Bool-cases (entry.0 == key)) [
  | inl same ↦ rw same (alone, apart)
  | inr other ↦ rw other (
    has_item-set_item key entry.0 value d
        ∙ ground (arith, eq_iff entry.0 key, eq_iff key entry.0, other, alone),
    set_item-AreApart key value d apart,
  )
]

pub dict_of-AreApart :
    {A : Type 0} (entries : List (String × A)) (d : Dict A)
    → AreApart d
    → AreApart (dict_of entries d)
unfolding dict_of
dict_of-AreApart [] d h = h
dict_of-AreApart (entry ∷ entries) d h =
    dict_of-AreApart entries (set_item entry.0 entry.1 d) (set_item-AreApart entry.0 entry.1 d h)
