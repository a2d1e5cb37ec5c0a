-- ===== src/Base/Order.antt =====
-- The order of texts by their codes, and dicts sorted by their keys.
use Prim.Native.Char.{code}
use text.Mathlib.TextEquality.{codes_equal}
use Prim.Native.String.{String}
use mathlib.Core.List.{List, [], ◌∷◌, Nodup, Nodup-cons, Mem, mem-cons_self, mem-cons, not-mem-nil}
use mathlib.Core.List.Permᴰ
use mathlib.Core.List.Permᴰ.{Permᴰ}
use mathlib.Core.List.Perm
use mathlib.Core.Path.{◌≡◌, refl, ap, ap₂, ◌∙◌, sym, subst}
use mathlib.Core.Logic.{◌≢◌, inl, inr}
use mathlib.Core.Bool.{Bool, true, false, ◌||◌, ◌&&◌}
use native.Mathlib.Omega.{arith}
use Prim.Native.Nat.{ℕ}
use pyre_check.Base.Tests.{leb, if◌then◌else◌, ltb, eqb, Bool-cases}
use pyre_check.Base.Dicts.{Dict, item_keys, has_item}
use text.Mathlib.TextEquality.{eq_iff}
use mathlib.Core.Logic.Or
use mathlib.Core.HLevel.{⊥_prop}

-- `s < t`, by code points.
unfoldable pub text_lt : String → String → Bool
text_lt s String.[] = false
text_lt String.[] (String.◌∷◌ d t) = true
text_lt (String.◌∷◌ c s) (String.◌∷◌ d t) =
    let later = text_lt s t in ltb (code c) (code d) || (eqb (code c) (code d) && later)

pub text_lt_asymm : (s t : String) → text_lt s t ≡ true → text_lt t s ≡ false
unfolding text_lt
text_lt_asymm s String.[] h = cc (h)
text_lt_asymm String.[] (String.◌∷◌ d t) h = refl
text_lt_asymm (String.◌∷◌ c s) (String.◌∷◌ d t) h = ground (arith, text_lt_asymm s t)

text_lt_trans : (s t u : String) → text_lt s t ≡ true → text_lt t u ≡ true → text_lt s u ≡ true
unfolding text_lt
text_lt_trans s String.[] u h k = cc (h)
text_lt_trans s (String.◌∷◌ d t) String.[] h k = cc (k)
text_lt_trans String.[] (String.◌∷◌ d t) (String.◌∷◌ e u) h k = refl
text_lt_trans (String.◌∷◌ c s) (String.◌∷◌ d t) (String.◌∷◌ e u) h k =
    ground (arith, text_lt_trans s t u)

pub text_lt_total : (s t : String) → text_lt s t ≡ false → text_lt t s ≡ false → s ≡ t
unfolding text_lt
text_lt_total String.[] String.[] h k = refl
text_lt_total (String.◌∷◌ c s) String.[] h k = cc (k)
text_lt_total String.[] (String.◌∷◌ d t) h k = cc (h)
text_lt_total (String.◌∷◌ c s) (String.◌∷◌ d t) h k =
    ap₂ String.◌∷◌ (codes_equal c d (ground arith))
      (text_lt_total s t (ground arith) (ground arith))

pub text_lt-of_le : (a f b : String) → text_lt f a ≡ false → text_lt f b ≡ true → text_lt a b ≡ true
text_lt-of_le a f b h k = elim (Bool-cases (text_lt a f)) [
  | inl below ↦ text_lt_trans a f b below k
  | inr e ↦ ap (λ s. text_lt s b) (text_lt_total a f e h) ∙ k
]

-- Of two texts that differ, one is below the other.
pub text_lt-flip : (a b : String) → a ≢ b → text_lt a b ≡ false → text_lt b a ≡ true
text_lt-flip a b apart h = elim (Bool-cases (text_lt b a)) [
  | inl e ↦ e
  | inr e ↦ absurd (apart (text_lt_total a b h e))
]

-- `x` before those of a key that is not lower.
unfoldable pub insert_by {ℓ} : {A : Type ℓ} → (A → ℕ) → A → List A → List A
insert_by key x [] = x ∷ []
insert_by key x (y ∷ ys) =
    let later = insert_by key x ys in if leb (key x) (key y) then x ∷ y ∷ ys else y ∷ later

-- `xs.sort(key=key)`, which is stable.
unfoldable pub sort_by {ℓ} : {A : Type ℓ} → (A → ℕ) → List A → List A
unfolding insert_by
sort_by key [] = []
sort_by key (x ∷ xs) = insert_by key x (sort_by key xs)

module _ {ℓ} {A : Type ℓ} where
  unfoldable pub insert_entry : String × A → Dict A → Dict A
  insert_entry e [] = e ∷ []
  insert_entry e (f ∷ d) =
      let later = insert_entry e d in if text_lt f.0 e.0 then f ∷ later else e ∷ f ∷ d

  -- `sorted(d.items(), key=lambda pair: pair[0])`
  unfoldable pub sort_items : Dict A → Dict A
  unfolding insert_entry
  sort_items [] = []
  sort_items (e ∷ d) = insert_entry e (sort_items d)

  insert_entry-above :
      (e f : String × A) (d : Dict A)
      → text_lt f.0 e.0 ≡ true
      → insert_entry e (f ∷ d) ≡ f ∷ insert_entry e d
  unfolding insert_entry
  insert_entry-above e f d h = rw h refl

  insert_entry-here :
      (e f : String × A) (d : Dict A) → text_lt f.0 e.0 ≡ false → insert_entry e (f ∷ d) ≡ e ∷ f ∷ d
  unfolding insert_entry
  insert_entry-here e f d h = rw h refl

  -- The head is below `a` and not below `b`.
  insert_entry-between :
      (a b f : String × A) (d : Dict A)
      → text_lt f.0 a.0 ≡ true
      → text_lt f.0 b.0 ≡ false
      → insert_entry a (insert_entry b (f ∷ d)) ≡ insert_entry b (insert_entry a (f ∷ d))
  insert_entry-between a b f d fa fb =
      ap (insert_entry a) (insert_entry-here b f d fb)
      ∙ insert_entry-above a b (f ∷ d) (text_lt-of_le b.0 f.0 a.0 fb fa)
      ∙ ap (◌∷◌ b) (insert_entry-above a f d fa)
      ∙ sym (insert_entry-here b f (insert_entry a d) fb)
      ∙ ap (insert_entry b) (sym (insert_entry-above a f d fa))

  -- Both go in front, `a` first.
  insert_entry-front :
      (a b f : String × A) (d : Dict A)
      → text_lt f.0 a.0 ≡ false
      → text_lt f.0 b.0 ≡ false
      → text_lt a.0 b.0 ≡ true
      → insert_entry a (insert_entry b (f ∷ d)) ≡ insert_entry b (insert_entry a (f ∷ d))
  insert_entry-front a b f d fa fb ab =
      ap (insert_entry a) (insert_entry-here b f d fb)
      ∙ insert_entry-here a b (f ∷ d) (text_lt_asymm a.0 b.0 ab)
      ∙ ap (◌∷◌ a) (sym (insert_entry-here b f d fb))
      ∙ sym (insert_entry-above b a (f ∷ d) ab)
      ∙ ap (insert_entry b) (sym (insert_entry-here a f d fa))

  insert_entry_comm :
      (a b : String × A) (d : Dict A)
      → a.0 ≢ b.0
      → insert_entry a (insert_entry b d) ≡ insert_entry b (insert_entry a d)
  unfolding insert_entry
  insert_entry_comm a b [] h = elim (Bool-cases (text_lt a.0 b.0)) [
    | inl e ↦ rw (e, text_lt_asymm a.0 b.0 e) refl
    | inr e ↦ rw (e, text_lt-flip a.0 b.0 h e) refl
  ]
  insert_entry_comm a b (f ∷ d) h = elim (Bool-cases (text_lt f.0 a.0)) [
    | inl fa ↦ elim (Bool-cases (text_lt f.0 b.0)) [
      | inl fb ↦
          ap (insert_entry a) (insert_entry-above b f d fb)
          ∙ insert_entry-above a f (insert_entry b d) fa
          ∙ ap (◌∷◌ f) (insert_entry_comm a b d h)
          ∙ sym (insert_entry-above b f (insert_entry a d) fb)
          ∙ ap (insert_entry b) (sym (insert_entry-above a f d fa))
      | inr fb ↦ insert_entry-between a b f d fa fb
    ]
    | inr fa ↦ elim (Bool-cases (text_lt f.0 b.0)) [
      | inl fb ↦ sym (insert_entry-between b a f d fb fa)
      | inr fb ↦ elim (Bool-cases (text_lt a.0 b.0)) [
        | inl e ↦ insert_entry-front a b f d fa fb e
        | inr e ↦ sym (insert_entry-front b a f d fb fa (text_lt-flip a.0 b.0 h e))
      ]
    ]
  ]

  -- No key is there twice, as in every dict.
  abbrev pub IsDict : Dict A → Type 0
  IsDict d = Nodup (item_keys d)

  has_item-not_mem :
      (key : String) (d : Dict A) → has_item key d ≡ false → ¬ (Mem key (item_keys d))
  has_item-not_mem key [] h m = not-mem-nil m
  has_item-not_mem key (entry ∷ d) h m =
      Or.elim ⊥_prop (mem-cons.0 m)
        (λ same. let found = (eq_iff entry.0 key).1 (sym same) in ground (arith, found, h))
        (λ later. has_item-not_mem key d (ground (arith, h)) later)

  pub IsDict-cons :
      (entry : String × A) (d : Dict A) → has_item entry.0 d ≡ false → IsDict d → IsDict (entry ∷ d)
  IsDict-cons entry d h unique = Nodup-cons.1 (has_item-not_mem entry.0 d h, unique)

  heads_apart : (a b : String × A) (l : Dict A) → IsDict (a ∷ b ∷ l) → a.0 ≢ b.0
  heads_apart a b l h same =
      (Nodup-cons.0 h).0 (subst (λ k. Mem k (b.0 ∷ item_keys l)) (sym same) mem-cons_self)

  -- The order of the entries does not change what they are sorted to.
  pub sort_items-perm : {d e : Dict A} → IsDict d → Permᴰ d e → sort_items d ≡ sort_items e
  unfolding sort_items
  sort_items-perm h Permᴰ.nil = refl
  sort_items-perm h (Permᴰ.cons same p) =
      ap₂ insert_entry same (sort_items-perm (Nodup-cons.0 h).1 p)
  sort_items-perm h (Permᴰ.swap {a} {b} {l = l} e₁ e₂) =
      insert_entry_comm a b (sort_items l) (heads_apart a b l h)
      ∙ ap₂ (λ x y. insert_entry x (insert_entry y (sort_items l))) e₂ e₁
  sort_items-perm h (Permᴰ.trans p q) =
      sort_items-perm h p ∙ sort_items-perm (Perm.nodup ∣ Permᴰ.map _ p ∣₁ h) q
