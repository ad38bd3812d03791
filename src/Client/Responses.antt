-- ===== src/Client/Responses.antt =====
-- A response of the server is read by the client as it was meant.
use ephemwork.Prelude.{
  ℕ, ◌≡◌, refl, ◌∙◌, ap, ◌≤◌, false, some, List, [], ◌∷◌, ◌++◌, arith, All, ok, length, contains,
  all-append, contains-append,
}
use ephemwork.Text.{Text, codes, is_whitespace}
use ephemwork.Text.Decimal.{decimal, parse_unsigned, u16_max}
use ephemwork.Text.Decimal.Laws.{parse-decimal}
use ephemwork.Text.Splitting.{split_whitespace}
use ephemwork.Text.Splitting.Words.{IsWord, split_whitespace-word}
use ephemwork.Text.Utf8.Ascii.{from_utf8-ascii}
use ephemwork.Protocol.{Bytes}
use ephemwork.Http.{Response, joined, framed, status_line, to_wire}
use ephemwork.Http.Parse.{position, crlf_crlf}
use ephemwork.Http.Parse.Framing.{IsLine, is_ascii-joined, position-joined, framed-ascii}
use ephemwork.Http.Parse.Bodies.{take-framed, drop-framed}
use ephemwork.Client.{first_line, next_line, second_word, parse_response}
use ephemwork.Client.RoundTrip.{IsPlain, label-IsLine, decimal-IsPlain, decimal-IsWord, length_line}

first_line-line :
    (l s : Text) → contains l 13 ≡ false → contains l 10 ≡ false → first_line (l ++ 13 ∷ 10 ∷ s) ≡ l
unfolding first_line
first_line-line [] s h k = ground arith
first_line-line (c ∷ []) s h k = ground arith
first_line-line (c ∷ d ∷ l) s h k = ground (arith, first_line-line (d ∷ l) s)

pub next_line-line : (l s : Text) → IsLine l → next_line (l ++ 13 ∷ 10 ∷ s) ≡ some l
next_line-line [] s h = absurd (h.1 refl)
next_line-line (c ∷ l) s h = ap some (first_line-line (c ∷ l) s h.2 h.3)

next_line-joined : (l m : Text) (ls : List Text) → IsLine l → next_line (joined l (m ∷ ls)) ≡ some l
unfolding joined
next_line-joined l m ls h = next_line-line l (joined m ls) h

position-framed :
    (l : Text) (ls : List Text) (body : Bytes)
    → All IsLine (l ∷ ls)
    → position crlf_crlf (framed l ls body) ≡ some (length (joined l ls))
position-framed l ls body h = rw (framed-ascii l ls body h) (position-joined l ls body h)

parse_response-framed :
    (l m : Text) (ls : List Text) (body : Bytes) (word : Text) (status : ℕ)
    → All IsLine (l ∷ m ∷ ls)
    → second_word (split_whitespace l) ≡ some word
    → parse_unsigned u16_max word ≡ some status
    → parse_response (framed l (m ∷ ls) body) ≡ ok (record { status = status; body = body })
unfolding parse_response
parse_response-framed l m ls body word status lines second parsed =
    rw (position-framed l (m ∷ ls) body lines) (
      rw (take-framed l (m ∷ ls) body lines) (
        rw (from_utf8-ascii (joined l (m ∷ ls)) (is_ascii-joined l (m ∷ ls) lines)) (
          rw (next_line-joined l m ls lines.0)
            (rw second (rw parsed (rw (drop-framed l (m ∷ ls) body lines) refl))))))

version-IsWord : IsWord (codes "HTTP/1.0")
unfolding is_whitespace
version-IsWord = (refl, cc)

status_line-second :
    (status : ℕ) (reason : Text)
    → second_word (split_whitespace (status_line status reason)) ≡ some (decimal status)
unfolding status_line
status_line-second status reason =
    rw (split_whitespace-word (codes "HTTP/1.0") (decimal status ++ 32 ∷ reason) version-IsWord)
      (rw (split_whitespace-word (decimal status) reason (decimal-IsWord status)) refl)

pub spaced-IsPlain : (s t : Text) → IsPlain s → IsPlain t → IsPlain (s ++ 32 ∷ t)
spaced-IsPlain s t (sa, sr, sf) (ta, tr, tf) = (
  all-append _ s (32 ∷ t) sa (ground arith),
  contains-append s (32 ∷ t) 13 ∙ ground arith,
  contains-append s (32 ∷ t) 10 ∙ ground arith,
)

response-lines :
    (r : Response)
    → IsPlain r.reason
    → IsPlain r.content_type
    → All IsLine (
        status_line r.status r.reason
        ∷ (codes "Content-Type: " ++ r.content_type)
        ∷ length_line (length r.body)
        ∷ codes "Connection: close"
        ∷ [])
unfolding status_line
response-lines r reason content_type =
    let first =
      label-IsLine b'H' (codes "TTP/1.0 ") (decimal r.status ++ 32 ∷ r.reason) (refl, refl, refl)
        (spaced-IsPlain (decimal r.status) r.reason (decimal-IsPlain r.status) reason) in
    let typed =
      label-IsLine b'C' (codes "ontent-Type: ") r.content_type (refl, refl, refl) content_type in
    let counted =
      label-IsLine b'C' (codes "ontent-Length: ") (decimal (length r.body)) (refl, refl, refl)
        (decimal-IsPlain (length r.body)) in
    (first, (typed, (counted, ((refl, cc, refl, refl), tt))))

-- The client reads back the status and the body of any response whose status is a 16-bit number
-- and whose reason and content type are ASCII without line ends.
pub parse-to_wire :
    (r : Response)
    → r.status ≤ u16_max
    → IsPlain r.reason
    → IsPlain r.content_type
    → parse_response (to_wire r) ≡ ok (record { status = r.status; body = r.body })
unfolding to_wire
parse-to_wire r small reason content_type =
    parse_response-framed (status_line r.status r.reason) (codes "Content-Type: " ++ r.content_type)
      (length_line (length r.body) ∷ codes "Connection: close" ∷ []) r.body (decimal r.status)
      r.status (response-lines r reason content_type) (status_line-second r.status r.reason)
      (parse-decimal u16_max r.status small)
