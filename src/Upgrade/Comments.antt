-- ===== src/Upgrade/Comments.antt =====
-- About the comments of one error (tools/upgrade/errors.py).
use pyre_check.Base.{
  some, Option, [], ◌∷◌, ◌≡◌, All, ℕ, zero, suc, ◌≤◌, ◌-◌, length, List, Bool, true, false, arith,
  take, ltb, leb, any, Bool-cases, inl, inr, if◌then◌else◌,
}
use pyre_check.Texts.{Bytes, codes, same_bytes}
use pyre_check.Transport.Frames.{length-append}
use pyre_check.Upgrade.{
  error_to_fixme_comment_lines, fixme_comment, FixmeError, FixmeError, error_to_fixme_comment_lines,
  comment_lines, truncated, should_truncate, split_across_lines, max_lines_per_fixme, fixme_comment,
}

length-take-le : (n : ℕ) (xs : Bytes) → length (take n xs) ≤ n
length-take-le zero xs = omega arith
length-take-le (suc n) [] = omega arith
length-take-le (suc n) (x ∷ xs) = omega (arith, length-take-le n xs)

truncated-fits : (m : ℕ) (comment : Bytes) → 3 ≤ m → length (truncated m comment) ≤ m
unfolding truncated
truncated-fits m comment h =
    let enough : leb 3 m ≡ true = ground (arith, h) in
    rw enough (
      omega (
        arith,
        h,
        length-append (take (m - 3) comment) (codes "..."),
        length-take-le (m - 3) comment,
      ))

any-All :
    (m : ℕ) (lines : List Bytes)
    → any (λ line. ltb m (length line)) lines ≡ false
    → All (λ line. length line ≤ m) lines
any-All m [] h = tt
any-All m (line ∷ lines) h = elim (Bool-cases (ltb m (length line))) [
  | inl e ↦ cc (h, e)
  | inr e ↦ let g = rw e at h in (ground (arith, e), any-All m lines g)
]

-- The lines are short, and they are few.
abbrev pub IsShort : ℕ → List Bytes → Type 0
IsShort m lines = All (λ line. length line ≤ m) lines × (length lines ≤ max_lines_per_fixme)

truncated_or-IsShort :
    (m : ℕ) (comment : Bytes) (truncate : Bool) (lines : List Bytes)
    → 3 ≤ m
    → IsShort m (if should_truncate truncate m lines then truncated m comment ∷ [] else lines)
unfolding should_truncate
truncated_or-IsShort m comment truncate lines h =
    elim (Bool-cases (should_truncate truncate m lines)) [
      | inl e ↦ rw e ((truncated-fits m comment h, tt), omega arith)
      | inr e ↦ rw e (any-All m lines (grind (arith, e)), grind (arith, e))
    ]

comment_lines-IsShort :
    (comment : Bytes) (indent m : ℕ) (truncate : Bool)
    → 3 ≤ m
    → IsShort m (comment_lines comment indent truncate (some m))
unfolding comment_lines
comment_lines-IsShort comment indent zero truncate h = elim h [ ]
comment_lines-IsShort comment indent (suc m) truncate h =
    truncated_or-IsShort (suc m) comment truncate (split_across_lines comment indent (some (suc m)))
      h

-- With a maximal length of at least 3, the comments of an error are at most four lines, each of at most
-- that length, whatever the error says.
pub error_to_fixme_comment_lines-IsShort :
    (error : FixmeError) (indent m : ℕ) (truncate : Bool) (custom_comment : Option Bytes)
    → 3 ≤ m
    → IsShort m (error_to_fixme_comment_lines error indent truncate (some m) custom_comment)
unfolding error_to_fixme_comment_lines
error_to_fixme_comment_lines-IsShort error indent m truncate custom_comment h =
    elim (Bool-cases (same_bytes error.code (codes "0"))) [
      | inl e ↦ rw e (tt, omega arith)
      | inr e ↦
          rw e
            (comment_lines-IsShort (fixme_comment indent custom_comment error) indent m truncate h)
    ]
