-- ===== src/Upgrade/Ignores.antt =====
-- Comments that ignore errors, and how an unused one is taken out (tools/upgrade/errors.py). The
-- regular expressions are written as what they match.
use mathlib.Core.Option
use pyre_check.Base.{
  [], ◌∷◌, ◌++◌, List, some, none, Option, false, Bool, if◌then◌else◌, eqb, ℕ, zero, suc, ◌-◌, ◌||◌,
  not, ℤ, pos, negsuc, keep, map, any, length,
}
use pyre_check.Texts.{
  starts_with, strip_prefix, Bytes, codes, is_digit, strip, strip_right, same_bytes, parse_int,
  decimal,
}
use pyre_check.Upgrade.{FixmeError}

-- The first match, from the left.
unfoldable pub search {ℓ} : {A : Type ℓ} → (Bytes → Option A) → Bytes → Option A
search match [] = match []
search match (c ∷ cs) =
    let later = search match cs in elim (match (c ∷ cs)) [ some a ↦ some a | none ↦ later ]

-- `re.sub` of a match up to the end of the line by nothing.
unfoldable pub cut_at : (Bytes → Bool) → Bytes → Bytes
cut_at test [] = []
cut_at test (c ∷ cs) = let rest = cut_at test cs in if test (c ∷ cs) then [] else c ∷ rest

begins_ignore : Bytes → Bool
unfolding starts_with
begins_ignore text =
    starts_with (codes "# pyre-ignore") text || starts_with (codes "# pyre-fixme") text

-- The text behind `pyre-ignore` or `pyre-fixme`.
behind_ignore : Bytes → Option Bytes
unfolding strip_prefix
behind_ignore text = elim (strip_prefix (codes "pyre-ignore") text) [
  | some rest ↦ some rest
  | none ↦ strip_prefix (codes "pyre-fixme") text
]

span_codes : Bytes → Bytes × Bytes
span_codes [] = ([], [])
span_codes (c ∷ cs) =
    let later = span_codes cs in
    if is_digit c || eqb c b',' || eqb c b' ' then (c ∷ later.0, later.1) else ([], c ∷ cs)

closed : Bytes × Bytes → Option Bytes
unfolding starts_with
closed (group, rest) = if starts_with (codes "]") rest then some group else none

-- `pyre-(ignore|fixme)\[([0-9, ]*)\]`
codes_at : Bytes → Option Bytes
unfolding behind_ignore span_codes closed strip_prefix
codes_at text = do
  rest ← behind_ignore text
  inside ← strip_prefix (codes "[") rest
  closed (span_codes inside)
  where
    infixl 5 ◌>>=◌
    ◌>>=◌ : {A B : Type 0} → Option A → (A → Option B) → Option B
    o >>= f = elim o [ none ↦ none | some a ↦ f a ]

-- The texts before and behind the first separator.
unfoldable pub until : Bytes → Bytes → Option (Bytes × Bytes)
unfolding strip_prefix
until separator [] = none
until separator (c ∷ cs) =
    let later = until separator cs in
    elim (strip_prefix separator (c ∷ cs)) [
      | some rest ↦ some ([], rest)
      | none ↦ Option.map (λ (found : Bytes × Bytes). (c ∷ found.0, found.1)) later
    ]

-- The codes that an error of code 0 names as unused.
described_codes : Bytes → Option Bytes
unfolding strip_prefix until
described_codes text = elim (strip_prefix (codes "The `pyre-ignore[") text) [
  | none ↦ none
  | some rest ↦ elim (until (codes "]` or `pyre-fixme[") rest) [
    | none ↦ none
    | some found ↦ Option.map (λ _. found.0) (until (codes "]`") found.1)
  ]
]

-- `text.split(",")`, behind a part of a field.
unfoldable pub fields_behind : Bytes → Bytes → List Bytes
fields_behind field [] = field ∷ []
fields_behind field (c ∷ cs) =
    let ended = fields_behind [] cs in
    let longer = fields_behind (field ++ (c ∷ [])) cs in
    if eqb c b',' then field ∷ ended else longer

-- `int` of each, or None for ValueError.
ints : List Bytes → Option (List ℤ)
ints [] = some []
ints (t ∷ ts) = elim (parse_int (strip t)) [
  | none ↦ none
  | some n ↦ Option.map (λ ns. n ∷ ns) (ints ts)
]

unfoldable pub code_list : Bytes → Option (List ℤ)
unfolding fields_behind ints
code_list text = ints (fields_behind [] text)

same_int : ℤ → ℤ → Bool
same_int (pos a) (pos b) = eqb a b
same_int (negsuc a) (negsuc b) = eqb a b
same_int _ _ = false

-- _get_unused_ignore_codes, but for the order, of which the caller makes no use.
unfoldable pub unused_ignore_codes : List FixmeError → Option (List ℤ)
unfolding code_list described_codes search
unused_ignore_codes [] = some []
unused_ignore_codes (error ∷ errors) =
    let later = unused_ignore_codes errors in
    if same_bytes error.code (codes "0")
    then elim (search described_codes error.description) [
      | none ↦ later
      | some group ↦ elim (code_list group) [
        | none ↦ none
        | some ns ↦ Option.map (λ more. ns ++ more) later
      ]
    ]
    else later

-- `str` of a whole number
shown : ℤ → Bytes
shown (pos n) = decimal n
shown (negsuc n) = b'-' ∷ decimal (suc n)

comma_joined : List Bytes → Bytes
comma_joined [] = []
comma_joined (t ∷ []) = t
comma_joined (t ∷ u ∷ ts) = t ++ (codes ", " ++ comma_joined (u ∷ ts))

-- `text.replace(old, new)`; `skipped` counts what is left of an occurrence.
unfoldable pub replace_behind : ℕ → Bytes → Bytes → Bytes → Bytes
unfolding starts_with
replace_behind skipped old new [] = []
replace_behind (suc skipped) old new (c ∷ cs) = replace_behind skipped old new cs
replace_behind zero old new (c ∷ cs) =
    let replaced = replace_behind (length old - 1) old new cs in
    let kept = replace_behind zero old new cs in
    if starts_with old (c ∷ cs) then new ++ replaced else c ∷ kept

-- `iterated` is the set of the codes in the order in which Python iterates over it.
module _ (iterated : List ℤ → List ℤ) where
  with_remaining : Bytes → Bytes → List ℤ → List ℤ → Bytes
  unfolding shown comma_joined replace_behind cut_at begins_ignore
  with_remaining line group [] unused = strip_right (cut_at begins_ignore line)
  with_remaining line group remaining [] = strip_right (cut_at begins_ignore line)
  with_remaining line group remaining unused =
      replace_behind zero group (comma_joined (map shown (iterated remaining))) line

  with_codes : Bytes → Bytes → List ℤ → List ℤ → Bytes
  unfolding same_int with_remaining
  with_codes line group unused ignored =
      with_remaining line group (keep (λ n. not (any (same_int n) unused)) ignored) unused

  -- The line without the codes that are unused, or None for ValueError.
  unfoldable pub remove_unused_ignores : Bytes → List FixmeError → Option Bytes
  unfolding with_codes search codes_at unused_ignore_codes code_list cut_at begins_ignore
  remove_unused_ignores line errors = elim (unused_ignore_codes errors) [
    | none ↦ none
    | some unused ↦ elim (search codes_at line) [
      | none ↦ some (strip_right (cut_at begins_ignore line))
      | some group ↦ Option.map (with_codes line group unused) (code_list group)
    ]
  ]
