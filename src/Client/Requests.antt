-- ===== src/Client/Requests.antt =====
-- A request of the client is read by the server as it was meant.
use ephemwork.Prelude.{
  ℕ, ◌≡◌, refl, ◌∙◌, ap, ◌≤◌, ◌<◌, List, [], ◌∷◌, ◌++◌, arith, All, ok, length, all-append,
  contains-append,
}
use ephemwork.Text.{Text, codes, is_whitespace}
use ephemwork.Text.Decimal.{decimal, usize_max}
use ephemwork.Text.Splitting.{split_whitespace}
use ephemwork.Text.Splitting.Words.{IsWord, split_whitespace-word, split_whitespace-last}
use ephemwork.Protocol.{Bytes}
use ephemwork.Http.Parse.{content_length, parse_lines, parse_request}
use ephemwork.Http.Parse.Framing.{IsLine}
use ephemwork.Http.Parse.Bodies.{parse_request-framed, body_of-framed, length-framed}
use ephemwork.Client.{request_line, build_request}
use ephemwork.Client.RoundTrip.{
  IsPlain, IsToken, token-IsPlain, label-IsLine, decimal-IsPlain, length_line, length_line-read,
  host_line-read, json_line-read, close_line-read,
}

post-IsWord : IsWord (codes "POST")
unfolding is_whitespace
post-IsWord = (refl, cc)

version-IsWord : IsWord (codes "HTTP/1.0")
unfolding is_whitespace
version-IsWord = (refl, cc)

request_line-words :
    (path : Text)
    → IsToken path
    → split_whitespace (request_line path) ≡ codes "POST" ∷ path ∷ codes "HTTP/1.0" ∷ []
unfolding request_line
request_line-words path (word, ascii) =
    split_whitespace-word (codes "POST") (path ++ codes " HTTP/1.0") (post-IsWord)
    ∙ ap (λ t. codes "POST" ∷ t)
        (split_whitespace-word path (codes "HTTP/1.0") word
          ∙ ap (λ t. path ∷ t) (split_whitespace-last (codes "HTTP/1.0") version-IsWord))

unfoldable pub headers : Text → ℕ → List Text
headers host n =
    (codes "Host: " ++ host)
    ∷ codes "Content-Type: application/json"
    ∷ length_line n
    ∷ codes "Connection: close"
    ∷ []

headers-length : (host : Text) (n : ℕ) → n ≤ usize_max → content_length (headers host n) 0 ≡ ok n
unfolding content_length headers
headers-length host n h =
    rw (host_line-read host 0)
      (rw (json_line-read 0) (rw (length_line-read n 0 h) (rw (close_line-read n) refl)))

path-IsPlain : (path : Text) → IsPlain path → IsPlain (path ++ codes " HTTP/1.0")
path-IsPlain path (ascii, no_return, no_feed) = (
  all-append _ path (codes " HTTP/1.0") ascii refl,
  contains-append path (codes " HTTP/1.0") 13 ∙ ground arith,
  contains-append path (codes " HTTP/1.0") 10 ∙ ground arith,
)

pub request-lines :
    (host path : Text) (n : ℕ)
    → IsPlain host
    → IsToken path
    → All IsLine (request_line path ∷ headers host n)
unfolding request_line headers
request-lines host path n plain token =
    let first =
      label-IsLine b'P' (codes "OST ") (path ++ codes " HTTP/1.0") (refl, refl, refl)
        (path-IsPlain path (token-IsPlain path token)) in
    let named = label-IsLine b'H' (codes "ost: ") host (refl, refl, refl) plain in
    let counted =
      label-IsLine b'C' (codes "ontent-Length: ") (decimal n) (refl, refl, refl)
        (decimal-IsPlain n) in
    (first, (named, ((refl, cc, refl, refl), (counted, ((refl, cc, refl, refl), tt)))))

-- The server reads the client's request as a POST to the path with the body, whatever the body;
-- the host is ASCII without line ends, the path is ASCII without white space and not empty, and
-- the message fits a 64-bit size.
pub parse-build_request :
    (host path : Text) (body : Bytes)
    → IsPlain host
    → IsToken path
    → length (build_request host path body) < 18446744073709551616
    → parse_request (build_request host path body)
      ≡ ok (record { method = codes "POST"; path = path; body = body })
unfolding build_request parse_lines headers
parse-build_request host path body plain token fits =
    let lines = request-lines host path (length body) plain token in
    parse_request-framed (request_line path) (headers host (length body)) body lines
    ∙ rw (request_line-words path token) (
        rw
          (headers-length host (length body) (
            omega
              (arith, length-framed (request_line path) (headers host (length body)) body lines)))
          (rw (body_of-framed (request_line path) (headers host (length body)) body lines fits)
            refl))
