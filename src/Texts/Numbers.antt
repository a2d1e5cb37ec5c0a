-- ===== src/Texts/Numbers.antt =====
-- A number that was printed is read back (str and int, as client/commands/v2 uses them).
use mathlib.Core.Option
use pyre_check.Base.{
  refl, sym, append-nil, some, pos, ap, [], ◌∷◌, ◌++◌, ◌≡◌, true, Bool, arith, All, append_assoc, ℕ,
  zero, suc, ◌≤◌, ◌+◌, ◌*◌, ◌-◌, ◌∙◌, inl, inr, Bool-cases, ltb, false,
}
use Prim.Native.Nat.{◌/◌, ◌%◌}
use pyre_check.Texts.{
  Bytes, digits, digits_value, decimal, lower, parse_int, strip, strip_right, lower_code, signed,
  strip_left, is_space,
}

abbrev pub IsDigit : ℕ → Type 0
IsDigit c = (48 ≤ c) × (c ≤ 57)

tenth_le : (fuel n : ℕ) → n ≤ suc fuel → 10 ≤ n → n / 10 ≤ fuel
tenth_le fuel n h k = omega arith

digit_value :
    (n c : ℕ) (after_digit : Bool) (tail : Bytes)
    → IsDigit c
    → digits_value n after_digit (c ∷ tail) ≡ digits_value (n * 10 + (c - 48)) true tail
unfolding digits_value
digit_value n c after_digit tail h = ground arith

digits-read :
    (fuel n : ℕ) (after_digit : Bool) (tail : Bytes)
    → n ≤ fuel
    → digits_value 0 after_digit (digits fuel n ++ tail) ≡ digits_value n true tail
unfolding digits
digits-read zero n after_digit tail h =
    let same : n ≡ 0 = omega arith in
    rw same (digit_value 0 48 after_digit tail (omega arith, omega arith))
digits-read (suc fuel) n after_digit tail h = elim (Bool-cases (ltb n 10)) [
  | inl small ↦ rw small (
      digit_value 0 (48 + n) after_digit tail (omega arith, ground arith)
      ∙ ap (λ m. digits_value m true tail) (omega arith))
  | inr large ↦
      let below : n / 10 ≤ fuel = tenth_le fuel n h (ground arith) in
      rw (large, append_assoc (digits fuel (n / 10)) ((48 + n % 10) ∷ []) tail)
        (digits-read fuel (n / 10) after_digit ((48 + n % 10) ∷ tail) below
          ∙ digit_value (n / 10) (48 + n % 10) true tail (omega arith, omega arith)
          ∙ ap (λ m. digits_value m true tail) (omega arith))
]

All-append-digits : (xs ys : Bytes) → All IsDigit xs → All IsDigit ys → All IsDigit (xs ++ ys)
All-append-digits [] ys h k = k
All-append-digits (x ∷ xs) ys h k = (h.0, All-append-digits xs ys h.1 k)

digits-IsDigit : (fuel n : ℕ) → n ≤ fuel → All IsDigit (digits fuel n)
unfolding digits
digits-IsDigit zero n h = ((omega arith, omega arith), tt)
digits-IsDigit (suc fuel) n h = elim (Bool-cases (ltb n 10)) [
  | inl small ↦ rw small ((omega arith, ground arith), tt)
  | inr large ↦ rw large (
      All-append-digits (digits fuel (n / 10)) ((48 + n % 10) ∷ [])
        (digits-IsDigit fuel (n / 10) (tenth_le fuel n h (ground arith)))
        ((omega arith, omega arith), tt))
]

strip_right-digits : (ds : Bytes) → All IsDigit ds → strip_right (ds ++ (13 ∷ 10 ∷ [])) ≡ ds
unfolding strip_right
strip_right-digits [] h = refl
strip_right-digits (d ∷ ds) h = rw (strip_right-digits ds h.1) (ground (arith, h.0))

-- White space around digits is taken off.
strip-digits : (ds : Bytes) → All IsDigit ds → strip (32 ∷ (ds ++ (13 ∷ 10 ∷ []))) ≡ ds
unfolding strip strip_left strip_right
strip-digits [] h = refl
strip-digits (d ∷ ds) h =
    let visible : is_space d ≡ false = ground (arith, h.0) in
    rw visible (strip_right-digits (d ∷ ds) h)

lower-digits : (ds : Bytes) → All IsDigit ds → lower ds ≡ ds
lower-digits [] h = refl
lower-digits (d ∷ ds) h =
    let same : lower_code d ≡ d = ground (arith, h.0) in rw (same, lower-digits ds h.1) refl

parse_int-digits :
    (ds : Bytes) → All IsDigit ds → parse_int ds ≡ Option.map pos (digits_value 0 false ds)
unfolding parse_int signed digits_value
parse_int-digits [] h = refl
parse_int-digits (d ∷ ds) h = ground (arith, h.0)

digits_value-end : (n : ℕ) → digits_value n true [] ≡ some n
unfolding digits_value
digits_value-end n = refl

-- A number is read back from its text with a space before it and the end of the line behind it.
pub parse_int-decimal :
    (n : ℕ) → parse_int (lower (strip (32 ∷ (decimal n ++ (13 ∷ 10 ∷ []))))) ≡ some (pos n)
unfolding decimal
parse_int-decimal n =
    let ds = digits-IsDigit n n (omega arith) in
    rw
      (strip-digits (digits n n) ds, lower-digits (digits n n) ds, parse_int-digits (digits n n) ds)
      (ap (Option.map pos) (
        ap (digits_value 0 false) (sym (append-nil (digits n n)))
        ∙ digits-read n n false [] (omega arith)
        ∙ digits_value-end n))

-- The text of a number is digits.
pub decimal-IsDigit : (n : ℕ) → All IsDigit (decimal n)
unfolding decimal
decimal-IsDigit n = digits-IsDigit n n (omega arith)
