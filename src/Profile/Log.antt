-- ===== src/Profile/Log.antt =====
-- The lines of a log.
use pyre_check.Profile.{Event, Profiled, ProfileError, malformed_line, parse_events, parse_lines}
use pyre_check.Texts.{Bytes, strip, is_empty}
use pyre_check.Texts.Lines.{split_lines}
use pyre_check.Base.{
  ◌↔◌, subst, Option-cases, List, [], ◌∷◌, ◌++◌, ok, err, ◌>>=◌, Option, some, none, ℕ, ◌+◌, true,
  false, ◌≡◌, refl, ◌∙◌, ap, sym, Bool-cases, inl, inr, All, length, arith, ◌⊎◌,
}

-- The line is blank or `parse_event` reads it.
abbrev pub IsWellFormed : (Bytes → Option Event) → Bytes → Type 0
IsWellFormed parse_event line =
    (is_empty (strip line) ≡ true) ⊎ ((event : Event) × (parse_event (strip line) ≡ some event))

-- The line is neither.
abbrev pub IsMalformed : (Bytes → Option Event) → Bytes → Type 0
IsMalformed parse_event line = (is_empty (strip line) ≡ false) × (parse_event (strip line) ≡ none)

parse_lines-malformed :
    (parse_event : Bytes → Option Event) (index : ℕ) (good : List Bytes) (bad : Bytes)
    (rest : List Bytes)
    → All (IsWellFormed parse_event) good
    → IsMalformed parse_event bad
    → parse_lines parse_event index (good ++ (bad ∷ rest))
      ≡ err (malformed_line (index + length good + 1))
unfolding parse_lines
parse_lines-malformed parse_event index [] bad rest h malformed =
    rw malformed.0 (rw malformed.1 (ap (λ n. err (malformed_line n)) (omega arith)))
parse_lines-malformed parse_event index (line ∷ good) bad rest (inl blank, h) malformed = rw blank (
    parse_lines-malformed parse_event (index + 1) good bad rest h malformed
    ∙ ap (λ n. err (malformed_line n)) (omega arith))
parse_lines-malformed parse_event index (line ∷ good) bad rest (inr (event, read), h) malformed =
    let later =
      parse_lines-malformed parse_event (index + 1) good bad rest h malformed
      ∙ ap (λ n. err (malformed_line n)) (omega arith) in
    elim (Bool-cases (is_empty (strip line))) [
      | inl blank ↦ rw blank later
      | inr entry ↦ rw entry (rw read (ap (λ r. r >>= λ events. ok (event ∷ events)) later))
    ]

-- A malformed line behind well-formed ones.
abbrev pub FirstMalformed : (Bytes → Option Event) → ℕ → List Bytes → Type 0
FirstMalformed parse_event number lines =
    (good : List Bytes) × (bad : Bytes) × (rest : List Bytes) × (lines ≡ good ++ (bad ∷ rest))
    × All (IsWellFormed parse_event) good
    × IsMalformed parse_event bad
    × (number ≡ length good + 1)

FirstMalformed-behind :
    (parse_event : Bytes → Option Event) (index number : ℕ) (line : Bytes) (lines : List Bytes)
    → IsWellFormed parse_event line
    → ((k : ℕ) × (number ≡ index + 1 + k) × FirstMalformed parse_event k lines)
    → (k : ℕ) × (number ≡ index + k) × FirstMalformed parse_event k (line ∷ lines)
FirstMalformed-behind parse_event index number line lines h later =
    let (k, offset, (good, bad, rest, same, well, malformed, counted)) = later in
    (
      k + 1,
      omega arith,
      (line ∷ good, bad, rest, ap (◌∷◌ line) same, (h, well), malformed, omega arith),
    )

>>=-eq-err :
    {A B : Type 0} {e : ProfileError} (call : Profiled A) (f : A → B)
    → (call >>= λ a. ok (f a)) ≡ err e
    → call ≡ err e
>>=-eq-err (ok a) f h = cc (h)
>>=-eq-err (err e) f h = cc (h)

parse_lines-FirstMalformed :
    (parse_event : Bytes → Option Event) (index number : ℕ) (lines : List Bytes)
    → parse_lines parse_event index lines ≡ err (malformed_line number)
    → (k : ℕ) × (number ≡ index + k) × FirstMalformed parse_event k lines
unfolding parse_lines
parse_lines-FirstMalformed parse_event index number [] raised = cc (raised)
parse_lines-FirstMalformed parse_event index number (line ∷ lines) raised =
    elim (Bool-cases (is_empty (strip line))) [
      | inl blank ↦
          FirstMalformed-behind parse_event index number line lines (inl blank)
            (parse_lines-FirstMalformed parse_event (index + 1) number lines (rw blank at raised))
      | inr entry ↦ elim (Option-cases (parse_event (strip line))) [
        | inl malformed ↦
            let counted : index + 1 ≡ number = cc (rw malformed at rw entry at raised) in
            (1, sym counted, ([], line, lines, refl, tt, (entry, malformed), refl))
        | inr (event, read) ↦
            FirstMalformed-behind parse_event index number line lines (inr (event, read)) (
              parse_lines-FirstMalformed parse_event (index + 1) number lines (
                >>=-eq-err (parse_lines parse_event (index + 1) lines) (◌∷◌ event)
                  (rw read at rw entry at raised)))
      ]
    ]

-- Reading a log raises for line n exactly when the n-th line, counted from 1, is malformed and all the
-- lines before it are blank or well formed.
pub parse_events_malformed_iff :
    (parse_event : Bytes → Option Event) (input : Bytes) (number : ℕ)
    → (parse_events parse_event input ≡ err (malformed_line number))
      ↔ FirstMalformed parse_event number (split_lines input)
unfolding parse_events
parse_events_malformed_iff parse_event input number = (
  λ raised.
      let (k, offset, first) =
        parse_lines-FirstMalformed parse_event 0 number (split_lines input) raised in
      let equal : k ≡ number = omega arith in
      subst (λ n. FirstMalformed parse_event n (split_lines input)) equal first,
  λ h.
      let (good, bad, rest, same, well, malformed, counted) = h in
      ap (parse_lines parse_event 0) same
      ∙ parse_lines-malformed parse_event 0 good bad rest well malformed
      ∙ ap (λ n. err (malformed_line n)) (omega arith),
)
