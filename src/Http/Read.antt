-- ===== src/Http/Read.antt =====
-- `read_request`: the loop that reads one request from a connection.
pub mod Bounds
pub mod Prefixes
pub mod Chunks
use ephemwork.Prelude.{
  ℕ, ◌-◌, Bool, false, Option, none, some, List, [], ◌∷◌, ◌++◌, Result, ok, err, ◌>>=◌, map_err,
  take, length, is_empty, leb, if◌then◌else◌,
}
use ephemwork.Text.{Text, codes, trim, eq_ignore_ascii_case}
use ephemwork.Text.Decimal.{parse_unsigned, usize_max}
use ephemwork.Text.Splitting.{split_once, split_char, trim_end_matches}
use ephemwork.Text.Utf8.{from_utf8}
use ephemwork.Protocol.{Bytes}
use ephemwork.Http.{Request}
use ephemwork.Http.Parse.{find_header_terminator, ParseError, parse_request, body_end}

pub data RequestError : Type 0 where
  empty_connection io_failed : RequestError
  truncated oversized : ℕ → RequestError
  malformed : ParseError → RequestError

-- What one call of `read` gives: an error, or some bytes, none at the end of the stream. After the
-- last event of a list the stream has ended.
pub data ReadEvent : Type 0 where
  failed : ReadEvent
  chunk : Bytes → ReadEvent

abbrev pub max_request : ℕ
max_request = 65536

-- The closure of `find_map`, on one line.
unfoldable pub declared_in : Text → Option ℕ
declared_in line = elim (split_once b':' (trim_end_matches 13 line)) [
  | none ↦ none
  | some (name, value) ↦
      if eq_ignore_ascii_case name (codes "content-length")
      then parse_unsigned usize_max (trim value)
      else none
]

abbrev pub or_else : Option ℕ → Option ℕ → Option ℕ
or_else (some n) o = some n
or_else none o = o

-- `find_map(…)`: the first line that declares a length that parses.
unfoldable pub first_declared : List Text → Option ℕ
first_declared [] = none
first_declared (line ∷ lines) = or_else (declared_in line) (first_declared lines)

abbrev pub or_zero : Option ℕ → ℕ
or_zero none = 0
or_zero (some n) = n

abbrev pub or_empty : Option Text → Text
or_empty none = []
or_empty (some t) = t

-- The length that the loop goes by; a head that is no UTF-8 counts as empty.
unfoldable pub declared_length : Bytes → ℕ
unfolding first_declared declared_in
declared_length head = or_zero (first_declared (split_char 10 (or_empty (from_utf8 head))))

-- The test that ends the loop.
unfoldable pub is_complete : Bytes → Bool
unfolding declared_length
is_complete buf = elim (find_header_terminator buf) [
  | none ↦ false
  | some (head_end, start) ↦
      leb (body_end start (declared_length (take (start - 1) buf))) (length buf)
]

unfoldable pub read_loop : List ReadEvent → Bytes → Result RequestError Bytes
read_loop [] buf = if leb max_request (length buf) then err (oversized max_request) else ok buf
read_loop (failed ∷ events) buf =
    if leb max_request (length buf) then err (oversized max_request) else err io_failed
read_loop (chunk [] ∷ events) buf =
    if leb max_request (length buf) then err (oversized max_request) else ok buf
read_loop (chunk (b ∷ bytes) ∷ events) buf =
    let more = read_loop events (buf ++ b ∷ bytes) in
    if leb max_request (length buf)
    then err (oversized max_request)
    else if is_complete (buf ++ b ∷ bytes)
    then ok (buf ++ b ∷ bytes)
    else more

unfoldable pub finish_read : Bytes → Result RequestError Request
finish_read buf = if is_empty buf then err empty_connection else elim (find_header_terminator buf) [
  | none ↦ err (truncated (length buf))
  | some ends ↦ map_err malformed (parse_request buf)
]

unfoldable pub read_request : List ReadEvent → Result RequestError Request
unfolding read_loop finish_read is_complete
read_request events = read_loop events [] >>= finish_read
