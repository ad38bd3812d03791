-- ===== src/Text/Splitting.antt =====
-- `split`, `split_once`, `split_whitespace` and `lines` of `str`.
pub mod Laws
pub mod Words
use ephemwork.Prelude.{
  ℕ, Bool, true, false, Option, none, some, List, [], ◌∷◌, ◌++◌, ◌&&◌, ◌==◌, if◌then◌else◌,
}
use ephemwork.Text.{Text, is_whitespace}

-- A character before the first of some pieces.
abbrev pub onto_first : ℕ → List Text → List Text
onto_first c [] = (c ∷ []) ∷ []
onto_first c (t ∷ ts) = (c ∷ t) ∷ ts

-- `s.split(sep)`: the pieces between the separators, one more than there are separators.
unfoldable pub split_char : ℕ → Text → List Text
split_char sep [] = [] ∷ []
split_char sep (c ∷ s) =
    let rest = split_char sep s in if c == sep then [] ∷ rest else onto_first c rest

abbrev pub onto_pair : ℕ → Option (Text × Text) → Option (Text × Text)
onto_pair c none = none
onto_pair c (some (s, t)) = some (c ∷ s, t)

-- `s.split_once(sep)`
unfoldable pub split_once : ℕ → Text → Option (Text × Text)
split_once sep [] = none
split_once sep (c ∷ s) =
    let rest = split_once sep s in if c == sep then some ([], s) else onto_pair c rest

-- The words of `s` when `cur` is read of the present one.
unfoldable pub words_from : Text → Text → List Text
words_from [] [] = []
words_from (d ∷ cur) [] = (d ∷ cur) ∷ []
words_from [] (c ∷ s) = words_from (if is_whitespace c then [] else c ∷ []) s
words_from (d ∷ cur) (c ∷ s) =
    let closed = words_from [] s in
    let longer = words_from (d ∷ cur ++ c ∷ []) s in
    if is_whitespace c then (d ∷ cur) ∷ closed else longer

-- `s.split_whitespace()`
unfoldable pub split_whitespace : Text → List Text
unfolding words_from
split_whitespace s = words_from [] s

-- `s.trim_end_matches(c)`
unfoldable pub trim_end_matches : ℕ → Text → Text
trim_end_matches c [] = []
trim_end_matches c (d ∷ s) = elim (trim_end_matches c s) [
  | [] ↦ if d == c then [] else d ∷ []
  | e ∷ t ↦ d ∷ e ∷ t
]

-- `s.strip_prefix(p)`
unfoldable pub strip_prefix : Text → Text → Option Text
strip_prefix [] s = some s
strip_prefix (c ∷ p) [] = none
strip_prefix (c ∷ p) (d ∷ s) = let rest = strip_prefix p s in if c == d then rest else none

-- `s.split("\r\n")`
unfoldable pub split_crlf : Text → List Text
split_crlf [] = [] ∷ []
split_crlf (c ∷ []) = (c ∷ []) ∷ []
split_crlf (c ∷ d ∷ s) =
    let cut = [] ∷ split_crlf s in
    let longer = onto_first c (split_crlf (d ∷ s)) in if c == 13 && d == 10 then cut else longer

-- The lines of a message: `s.split("\r\n").flat_map(|l| l.split('\n'))`.
unfoldable pub split_pieces : List Text → List Text
split_pieces [] = []
split_pieces (l ∷ ls) = split_char 10 l ++ split_pieces ls

-- The first of `s.lines()`: up to the first line feed, without a carriage return at its end.
unfoldable pub before_feed : Text → Text
before_feed [] = []
before_feed (c ∷ s) = let rest = before_feed s in if c == 10 then [] else c ∷ rest
