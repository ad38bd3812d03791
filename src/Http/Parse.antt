-- ===== src/Http/Parse.antt =====
-- `parse_request`, over the bytes of one request.
pub mod Framing
pub mod Bodies
use ephemwork.Prelude.{
  ℕ, zero, suc, ◌+◌, ◌-◌, ◌%◌, Bool, true, false, ◌&&◌, Option, none, some, List, [], ◌∷◌, ◌++◌,
  Result, ok, err, ◌>>=◌, ◌>>◌, ok_or, take, drop, length, is_empty, ltb, leb, ◌==◌, if◌then◌else◌,
}
use ephemwork.Text.{Text, codes, trim, eq_ignore_ascii_case}
use ephemwork.Text.Decimal.{parse_unsigned, usize_max}
use ephemwork.Text.Splitting.{split_once, split_crlf, split_pieces, split_whitespace}
use ephemwork.Text.Utf8.{from_utf8}
use ephemwork.Protocol.{Bytes}
use ephemwork.Http.{Request}

unfoldable pub starts_with : Bytes → Bytes → Bool
starts_with [] s = true
starts_with (a ∷ p) [] = false
starts_with (a ∷ p) (b ∷ s) = a == b && starts_with p s

abbrev pub shift : ℕ → Option ℕ → Option ℕ
shift n none = none
shift n (some i) = some (n + i)

-- `raw.windows(p.len()).position(|w| w == p)`, for a pattern that is not empty.
unfoldable pub position : Bytes → Bytes → Option ℕ
position p [] = none
position p (b ∷ s) =
    let later = shift 1 (position p s) in if starts_with p (b ∷ s) then some 0 else later

abbrev pub crlf_crlf : Bytes
crlf_crlf = 13 ∷ 10 ∷ 13 ∷ 10 ∷ []

abbrev pub lf_lf : Bytes
lf_lf = 10 ∷ 10 ∷ []

-- The end of the head and the start of the body.
unfoldable pub find_header_terminator : Bytes → Option (ℕ × ℕ)
find_header_terminator raw = elim (position crlf_crlf raw) [
  | some pos ↦ some (pos, pos + 4)
  | none ↦ elim (position lf_lf raw) [ some pos ↦ some (pos, pos + 2) | none ↦ none ]
]

-- `slice_panic` is no error value: an overflow of the body's end makes the slice's start lie
-- behind its end, and the thread panics. (A build with overflow checks panics at the sum.)
pub data ParseError : Type 0 where
  no_terminator not_utf8 no_request_line no_method no_path bad_content_length slice_panic :
      ParseError

-- One line of the loop over the header lines.
unfoldable pub header_line : Text → ℕ → Result ParseError ℕ
header_line line cl = if is_empty line then ok cl else elim (split_once b':' line) [
  | none ↦ ok cl
  | some (name, value) ↦
      if eq_ignore_ascii_case name (codes "content-length")
      then ok_or (parse_unsigned usize_max (trim value)) bad_content_length
      else ok cl
]

-- The loop: the last such line decides.
unfoldable pub content_length : List Text → ℕ → Result ParseError ℕ
content_length [] cl = ok cl
content_length (line ∷ lines) cl = header_line line cl >>= content_length lines

-- The end of the body as a `usize`.
abbrev pub body_end : ℕ → ℕ → ℕ
body_end start cl = (start + cl) % 18446744073709551616

unfoldable pub body_of : Bytes → ℕ → ℕ → Result ParseError Bytes
body_of raw start cl =
    if leb (body_end start cl) (length raw)
    then (if leb start (body_end start cl)
        then ok (take (body_end start cl - start) (drop start raw))
        else err slice_panic)
    else ok (drop start raw)

abbrev pub first_of_lines : List Text → Option (Text × List Text)
first_of_lines [] = none
first_of_lines (l ∷ ls) = some (l, ls)

unfoldable pub parse_lines : Bytes → ℕ → List Text → Result ParseError Request
unfolding content_length header_line body_of
parse_lines raw start lines = do
  (request_line, headers) ← ok_or (first_of_lines lines) no_request_line
  (method, words) ← ok_or (first_of_lines (split_whitespace request_line)) no_method
  (path, rest) ← ok_or (first_of_lines words) no_path
  cl ← content_length headers 0
  body ← body_of raw start cl
  ok (record { method = method; path = path; body = body })

unfoldable pub parse_request : Bytes → Result ParseError Request
unfolding parse_lines
parse_request raw = do
  (head_end, start) ← ok_or (find_header_terminator raw) no_terminator
  head ← ok_or (from_utf8 (take head_end raw)) not_utf8
  parse_lines raw start (split_pieces (split_crlf head))
