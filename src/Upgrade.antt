-- ===== src/Upgrade.antt =====
-- tools/upgrade/errors.py: the comments above a line that suppress its type errors. A text is the
-- codes of its characters, which are taken to be ASCII where the code asks for white space.
pub mod Comments
pub mod Splits
pub mod Ignores
pub mod Suppress
pub mod Files
use pyre_check.Base.{
  [], ◌∷◌, ◌++◌, List, some, none, Option, true, false, Bool, if◌then◌else◌, leb, ltb, ℕ, zero, suc,
  ◌+◌, ◌-◌, ◌&&◌, ◌||◌, not, take, length, any,
}
use pyre_check.Texts.{Bytes, codes, is_space, same_bytes, is_empty, strip_left, strip_right}

abbrev pub max_lines_per_fixme : ℕ
max_lines_per_fixme = 4

-- `" " * n`
abbrev pub spaces : ℕ → Bytes
spaces zero = []
spaces (suc n) = b' ' ∷ spaces n

-- `text.split()`, behind a part of a word.
unfoldable pub words_behind : Bytes → Bytes → List Bytes
unfolding is_empty
words_behind word [] = if is_empty word then [] else word ∷ []
words_behind word (c ∷ cs) =
    let ended = words_behind [] cs in
    let longer = words_behind (word ++ (c ∷ [])) cs in
    if is_space c then (if is_empty word then ended else word ∷ ended) else longer

-- The variables of the loop of _split_across_lines.
pub record Split : Type 0 where
  pub buffered_line : Bytes
  pub result : List Bytes
  pub prefix : Bytes

abbrev pub comment_prefix : ℕ → Bytes
comment_prefix indent = spaces indent ++ codes "#  "

-- The line that has been accumulated.
unfoldable pub finished : Split → Bytes
finished s = strip_right (s.prefix ++ s.buffered_line)

unfoldable pub add_token : ℕ → ℕ → Split → Bytes → Split
unfolding finished is_empty
add_token indent available_columns s token =
    if not (is_empty s.buffered_line)
      && ltb available_columns (length s.buffered_line + length token + 1)
    then record {
      buffered_line = token ++ (b' ' ∷ []);
      result = s.result ++ (finished s ∷ []);
      prefix = comment_prefix indent;
    }
    else record s { buffered_line = s.buffered_line ++ (token ++ (b' ' ∷ [])) }

unfoldable pub add_tokens : ℕ → ℕ → Split → List Bytes → Split
add_tokens indent available_columns s [] = s
add_tokens indent available_columns s (token ∷ tokens) =
    add_tokens indent available_columns (add_token indent available_columns s token) tokens

-- Where the prefix has no room, there are no columns: a line has one word, as it has for fewer.
unfoldable pub split_words : ℕ → ℕ → List Bytes → List Bytes
unfolding add_tokens finished
split_words indent max_line_length tokens =
    let start : Split = record { buffered_line = []; result = []; prefix = spaces indent } in
    let s = add_tokens indent (max_line_length - (indent + 3)) start tokens in
    s.result ++ (finished s ∷ [])

-- A length of 0 is taken for none.
unfoldable pub split_across_lines : Bytes → ℕ → Option ℕ → List Bytes
unfolding split_words words_behind
split_across_lines comment indent none = comment ∷ []
split_across_lines comment indent (some zero) = comment ∷ []
split_across_lines comment indent (some (suc m)) =
    if leb (length comment) (suc m)
    then comment ∷ []
    else split_words indent (suc m) (words_behind [] (strip_left comment))

pub record FixmeError : Type 0 where
  pub code : Bytes
  pub description : Bytes

described : Option Bytes → FixmeError → Bytes
described none error = error.description
described (some []) error = error.description
described (some (c ∷ cs)) error = c ∷ cs

unfoldable pub fixme_comment : ℕ → Option Bytes → FixmeError → Bytes
unfolding described
fixme_comment indent custom_comment error =
    spaces indent
    ++ (codes "# pyre-fixme[" ++ (error.code ++ (codes "]: " ++ described custom_comment error)))

-- `comment[: (max_line_length - 3)] + "..."`, where a negative index counts from the end.
unfoldable pub truncated : ℕ → Bytes → Bytes
truncated max_line_length comment =
    if leb 3 max_line_length
    then take (max_line_length - 3) comment ++ codes "..."
    else take (length comment - (3 - max_line_length)) comment ++ codes "..."

unfoldable pub should_truncate : Bool → ℕ → List Bytes → Bool
should_truncate truncate max_line_length split_comment_lines =
    truncate
    || ltb max_lines_per_fixme (length split_comment_lines)
    || any (λ line. ltb max_line_length (length line)) split_comment_lines

comment_lines : Bytes → ℕ → Bool → Option ℕ → List Bytes
unfolding should_truncate truncated split_across_lines
comment_lines comment indent truncate none = comment ∷ []
comment_lines comment indent truncate (some zero) = comment ∷ []
comment_lines comment indent truncate (some (suc m)) =
    let split_comment_lines = split_across_lines comment indent (some (suc m)) in
    if should_truncate truncate (suc m) split_comment_lines
    then truncated (suc m) comment ∷ []
    else split_comment_lines

unfoldable pub error_to_fixme_comment_lines :
    FixmeError → ℕ → Bool → Option ℕ → Option Bytes → List Bytes
unfolding comment_lines fixme_comment
error_to_fixme_comment_lines error indent truncate max_line_length custom_comment =
    if same_bytes error.code (codes "0")
    then []
    else comment_lines (fixme_comment indent custom_comment error) indent truncate max_line_length
