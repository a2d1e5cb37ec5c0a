-- ===== src/Texts.antt =====
-- What the code uses of Python's texts, on the codes of ASCII characters: strip, lower, split, int and
-- the printing of a number, for the framing of messages (client/commands/v2) and the comments of
-- tools/upgrade/errors.py.
pub mod Numbers
pub mod Lines
use Prim.Native.Char.{code}
use Prim.Native.Nat.{◌/◌, ◌%◌}
use pyre_check.Base.{
  [], ◌∷◌, ◌++◌, List, some, none, Option, true, false, Bool, String, if◌then◌else◌, eqb, leb, ltb,
  ◌&&◌, ◌||◌, ℕ, zero, suc, ◌+◌, ◌-◌, ◌*◌, ℤ, pos, negsuc,
}
use mathlib.Core.Option

abbrev pub Bytes : Type 0
Bytes = List ℕ

abbrev pub codes : String → Bytes
codes String.[] = []
codes (String.◌∷◌ c s) = code c ∷ codes s

unfoldable pub same_bytes : Bytes → Bytes → Bool
same_bytes [] [] = true
same_bytes (x ∷ xs) (y ∷ ys) = eqb x y && same_bytes xs ys
same_bytes xs ys = false

-- `text.endswith(suffix)`
unfoldable pub ends_with : Bytes → Bytes → Bool
unfolding same_bytes
ends_with suffix [] = same_bytes [] suffix
ends_with suffix (x ∷ xs) = same_bytes (x ∷ xs) suffix || ends_with suffix xs

abbrev pub drop : ℕ → Bytes → Bytes
drop zero xs = xs
drop (suc n) [] = []
drop (suc n) (x ∷ xs) = drop n xs

-- What is behind the prefix of a text.
unfoldable pub strip_prefix : Bytes → Bytes → Option Bytes
strip_prefix [] text = some text
strip_prefix (p ∷ ps) [] = none
strip_prefix (p ∷ ps) (c ∷ cs) = let rest = strip_prefix ps cs in if eqb p c then rest else none

is_some {ℓ} : {A : Type ℓ} → Option A → Bool
is_some none = false
is_some (some a) = true

unfoldable pub starts_with : Bytes → Bytes → Bool
unfolding is_some strip_prefix
starts_with prefix text = is_some (strip_prefix prefix text)

-- `part in text`
unfoldable pub contains : Bytes → Bytes → Bool
unfolding starts_with
contains part [] = starts_with part []
contains part (c ∷ cs) = starts_with part (c ∷ cs) || contains part cs

-- Tab to carriage return, the four separators, and the space.
abbrev pub is_space : ℕ → Bool
is_space c = (leb 9 c && leb c 13) || (leb 28 c && leb c 32)

unfoldable pub strip_left : Bytes → Bytes
strip_left [] = []
strip_left (c ∷ cs) = let rest = strip_left cs in if is_space c then rest else c ∷ cs

unfoldable pub is_empty : Bytes → Bool
is_empty [] = true
is_empty _ = false

unfoldable pub strip_right : Bytes → Bytes
unfolding is_empty
strip_right [] = []
strip_right (c ∷ cs) =
    let rest = strip_right cs in if is_space c && is_empty rest then [] else c ∷ rest

unfoldable pub strip : Bytes → Bytes
unfolding strip_left strip_right
strip text = strip_right (strip_left text)

abbrev pub lower_code : ℕ → ℕ
lower_code c = if leb b'A' c && leb c b'Z' then c + 32 else c

abbrev pub lower : Bytes → Bytes
lower [] = []
lower (c ∷ cs) = lower_code c ∷ lower cs

-- `text.split(separator, maxsplit=1)`: the parts before and behind the first separator.
unfoldable pub split_once : ℕ → Bytes → Bytes × Option Bytes
split_once separator [] = ([], none)
split_once separator (c ∷ cs) =
    let later = split_once separator cs in
    if eqb c separator then ([], some cs) else (c ∷ later.0, later.1)

abbrev pub is_digit : ℕ → Bool
is_digit c = leb b'0' c && leb c b'9'

-- The digits of `int`: an underscore may stand between two of them.
unfoldable pub digits_value : ℕ → Bool → Bytes → Option ℕ
digits_value n after_digit [] = if after_digit then some n else none
digits_value n after_digit (c ∷ cs) =
    let next = digits_value (n * 10 + (c - b'0')) true cs in
    let skipped = digits_value n false cs in
    if is_digit c then next else if eqb c b'_' && after_digit then skipped else none

negated : ℕ → ℤ
negated zero = pos 0
negated (suc n) = negsuc n

signed : ℕ → Bytes → Option ℤ
unfolding digits_value negated
signed c cs =
    if eqb c b'+'
    then Option.map pos (digits_value 0 false cs)
    else if eqb c b'-'
    then Option.map negated (digits_value 0 false cs)
    else Option.map pos (digits_value 0 false (c ∷ cs))

-- `int(text)` of a text without white space around it, or None for ValueError.
unfoldable pub parse_int : Bytes → Option ℤ
unfolding signed
parse_int [] = none
parse_int (c ∷ cs) = signed c cs

digits : ℕ → ℕ → Bytes
digits zero n = (b'0' + n % 10) ∷ []
digits (suc fuel) n =
    let higher = digits fuel (n / 10) in
    if ltb n 10 then (b'0' + n) ∷ [] else higher ++ ((b'0' + n % 10) ∷ [])

-- A number as an f-string prints it; it has at most as many digits as the number counts, and one.
unfoldable pub decimal : ℕ → Bytes
unfolding digits
decimal n = digits n n
