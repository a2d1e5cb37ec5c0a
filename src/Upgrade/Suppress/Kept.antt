-- ===== src/Upgrade/Suppress/Kept.antt =====
-- About _suppress_errors on lines whose errors are all to be suppressed (tools/upgrade/errors.py).
use pyre_check.Base.{
  [], ◌∷◌, ◌++◌, List, refl, ◌≡◌, Option, false, Bool, ap, ℕ, suc, ℤ, sym, ◌∙◌, append_assoc,
  append-nil, inl, inr, Bool-cases, eqb, arith,
}
use pyre_check.Texts.{Bytes, codes}
use pyre_check.Upgrade.{FixmeError}
use pyre_check.Upgrade.Suppress.{Rewriting, comments_of}
use pyre_check.Upgrade.Suppress.Lines.{errors_at, has_code, lines_behind, join_lines}

lines_behind-cons : (w cs : Bytes) → (x : Bytes) × (xs : List Bytes) × (lines_behind w cs ≡ x ∷ xs)
unfolding lines_behind
lines_behind-cons w [] = (w, [], refl)
lines_behind-cons w (c ∷ cs) = elim (Bool-cases (eqb c 10)) [
  | inl e ↦ rw e (w, lines_behind [] cs, refl)
  | inr e ↦ rw e (lines_behind-cons (w ++ (c ∷ [])) cs)
]

-- Lines that are joined are what was split.
pub join_lines-lines_behind : (w cs : Bytes) → join_lines (lines_behind w cs) ≡ w ++ cs
unfolding lines_behind join_lines
join_lines-lines_behind w [] = sym (append-nil w)
join_lines-lines_behind w (c ∷ cs) = elim (Bool-cases (eqb c 10)) [
  | inl e ↦
      let newline : c ≡ 10 = ground (arith, e) in
      let (x, xs, whole) = lines_behind-cons [] cs in
      let below = join_lines-lines_behind [] cs in
      let shown = rw whole at below in rw (e, whole, newline) (ap (λ t. w ++ (10 ∷ t)) shown)
  | inr e ↦ rw e (join_lines-lines_behind (w ++ (c ∷ [])) cs ∙ append_assoc w (c ∷ []) cs)
]

module _ (transform : List Bytes → Option (List Bytes)) (truncate : Bool)
    (max_line_length : Option ℕ) (custom_comment : Option Bytes) (iterated : List ℤ → List ℤ) where
  -- The lines with the comments of its errors above each.
  pub annotated : List (ℕ × List FixmeError) → ℕ → List Bytes → List Bytes
  annotated errors number [] = []
  annotated errors number (line ∷ lines) =
      comments_of transform truncate max_line_length custom_comment (errors_at number errors) line
      ++ (line ∷ annotated errors (suc number) lines)

  plain : List Bytes → Rewriting
  plain lines = record {
    new_lines = lines;
    removing_pyre_comments = false;
    line_break_block_errors = [];
  }

  -- No error of the lines from this number on has the code 0.
  abbrev pub NoneUnused : List (ℕ × List FixmeError) → ℕ → List Bytes → Type 0
  NoneUnused errors number [] = Unit
  NoneUnused errors number (line ∷ lines) =
      (has_code (codes "0") (errors_at number errors) ≡ false)
      × NoneUnused errors (suc number) lines
