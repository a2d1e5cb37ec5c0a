-- ===== src/Upgrade/Splits.antt =====
-- About _split_across_lines (tools/upgrade/errors.py).
use pyre_check.Base.{
  refl, sym, ap, [], ◌∷◌, ◌++◌, ◌≡◌, All, ℕ, ◌≤◌, ◌+◌, ◌-◌, ◌∙◌, length, List, Bool, true, false,
  arith, ltb, Bool-cases, inl, inr, ◌&&◌, not, ◌⊎◌, append_assoc, map, subst,
}
use pyre_check.Texts.{Bytes, is_empty, strip_right}
use pyre_check.Transport.Frames.{length-append}
use pyre_check.Upgrade.{Split, spaces, comment_prefix, finished, add_token, add_tokens, split_words}

-- The words with a space behind each.
abbrev pub joined : List Bytes → Bytes
joined [] = []
joined (t ∷ ts) = t ++ (b' ' ∷ joined ts)

abbrev pub line_of : Bytes → List Bytes → Bytes
line_of prefix group = strip_right (prefix ++ joined group)

abbrev pub concat : List (List Bytes) → List Bytes
concat [] = []
concat (g ∷ gs) = g ++ concat gs

-- The words of a line have room, or there is one of them at most.
abbrev pub Fits : ℕ → List Bytes → Type 0
Fits available group = (length group ≤ 1) ⊎ (length (joined group) ≤ available)

joined-append :
    (g : List Bytes) (t : Bytes) → joined (g ++ (t ∷ [])) ≡ joined g ++ (t ++ (b' ' ∷ []))
joined-append [] t = refl
joined-append (x ∷ g) t =
    rw (joined-append g t, append_assoc x (b' ' ∷ joined g) (t ++ (b' ' ∷ []))) refl

is_empty-joined : (x : Bytes) (g : List Bytes) → is_empty (joined (x ∷ g)) ≡ false
unfolding is_empty
is_empty-joined [] g = refl
is_empty-joined (c ∷ x) g = refl

Fits-append :
    (available : ℕ) (g : List Bytes) (t : Bytes)
    → (not (is_empty (joined g)) && ltb available (length (joined g) + length t + 1)) ≡ false
    → Fits available (g ++ (t ∷ []))
Fits-append available [] t h = inl (omega arith)
Fits-append available (x ∷ g) t h =
    let nonempty = is_empty-joined x g in
    let room = rw nonempty at h in
    inr (
      rw
        (
          joined-append (x ∷ g) t,
          length-append (joined (x ∷ g)) (t ++ (b' ' ∷ [])),
          length-append t (b' ' ∷ []),
        )
        (ground (arith, room)))

module _ (indent available : ℕ) where
  -- The lines behind those that are finished, for the words of the line and the words to come.
  Grouped : List Bytes → Bytes → List Bytes → List Bytes → List Bytes → Type 0
  Grouped done prefix g tokens lines =
      (first : List Bytes) × (later : List (List Bytes)) × (lines
        ≡ done ++ (line_of prefix first ∷ map (line_of (comment_prefix indent)) later))
      × (first ++ concat later ≡ g ++ tokens)
      × Fits available first
      × All (Fits available) later

  state : List Bytes → List Bytes → Bytes → Split
  state g done prefix = record { buffered_line = joined g; result = done; prefix = prefix }

  lines_behind : Split → List Bytes → List Bytes
  lines_behind s tokens =
      let t = add_tokens indent available s tokens in t.result ++ (finished t ∷ [])

  full : List Bytes → Bytes → Bool
  full g t = not (is_empty (joined g)) && ltb available (length (joined g) + length t + 1)

  add_token-full :
      (g done : List Bytes) (prefix t : Bytes)
      → full g t ≡ true
      → add_token indent available (state g done prefix) t
        ≡ state (t ∷ []) (done ++ (line_of prefix g ∷ [])) (comment_prefix indent)
  unfolding add_token state full finished
  add_token-full g done prefix t e = rw e refl

  add_token-room :
      (g done : List Bytes) (prefix t : Bytes)
      → full g t ≡ false
      → add_token indent available (state g done prefix) t ≡ state (g ++ (t ∷ [])) done prefix
  unfolding add_token state full
  add_token-room g done prefix t e = rw (e, joined-append g t) refl

  add_tokens-Grouped :
      (tokens g done : List Bytes) (prefix : Bytes)
      → Fits available g
      → Grouped done prefix g tokens (lines_behind (state g done prefix) tokens)
  unfolding add_tokens finished Grouped lines_behind state full
  add_tokens-Grouped [] g done prefix h = (g, [], refl, refl, h, tt)
  add_tokens-Grouped (t ∷ tokens) g done prefix h = elim (Bool-cases (full g t)) [
    | inl e ↦
        let (first, later, lines, words, fits, all_fit) =
          add_tokens-Grouped tokens (t ∷ []) (done ++ (line_of prefix g ∷ []))
            (comment_prefix indent) (inl (omega arith)) in
        subst (λ s. Grouped done prefix g (t ∷ tokens) (lines_behind s tokens))
          (sym (add_token-full g done prefix t e))
          (
            g,
            first ∷ later,
            lines ∙ append_assoc done (line_of prefix g ∷ []) _,
            ap (λ ws. g ++ ws) words,
            h,
            (fits, all_fit),
          )
    | inr e ↦
        let (first, later, lines, words, fits, all_fit) =
          add_tokens-Grouped tokens (g ++ (t ∷ [])) done prefix (Fits-append available g t e) in
        subst (λ s. Grouped done prefix g (t ∷ tokens) (lines_behind s tokens))
          (sym (add_token-room g done prefix t e))
          (first, later, lines, words ∙ append_assoc g (t ∷ []) tokens, fits, all_fit)
  ]

-- A comment is split into lines without losing a word: there are groups of the words, in their order,
-- such that the first line is the first group behind the indent, each later line is a group behind
-- the indent and "#  ", white space at a line's end is stripped, and each group has one word at most
-- or room in the columns that the indent and "#  " leave.
pub split_words_groups :
    (indent m : ℕ) (tokens : List Bytes)
    → (first : List Bytes) × (later : List (List Bytes)) × (split_words indent m tokens
        ≡ line_of (spaces indent) first ∷ map (line_of (comment_prefix indent)) later)
      × (first ++ concat later ≡ tokens)
      × Fits (m - (indent + 3)) first
      × All (Fits (m - (indent + 3))) later
unfolding split_words Grouped lines_behind state
split_words_groups indent m tokens =
    add_tokens-Grouped indent (m - (indent + 3)) tokens [] [] (spaces indent) (inl (omega arith))
