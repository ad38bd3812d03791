-- ===== src/Client/Chunks.antt =====
-- A request of the client in the server's reading loop, in whatever pieces it arrives.
use mathlib.Core.List.{flatten}
use ephemwork.Prelude.{
  ℕ, ◌≡◌, refl, sym, ◌∙◌, ◌≤◌, ◌≢◌, inl, inr, true, false, some, none, List, [], ◌∷◌, ◌++◌, arith,
  All, append_assoc, length, Option-cases, contains, contains-append, ok, map, map_err, all-append,
}
use ephemwork.Text.{Text, codes, eq_ignore_ascii_case}
use ephemwork.Text.Decimal.{decimal, usize_max}
use ephemwork.Text.Decimal.Laws.{parse-decimal}
use ephemwork.Text.Splitting.{split_char, split_once, trim_end_matches}
use ephemwork.Text.Splitting.Laws.{split_char-append, split_once-append}
use ephemwork.Text.Splitting.Words.{trim-word}
use ephemwork.Text.Utf8.Ascii.{is_ascii, from_utf8-ascii}
use ephemwork.Protocol.{Bytes}
use ephemwork.Http.{joined, framed}
use ephemwork.Http.Parse.{parse_request, find_header_terminator, position}
use ephemwork.Http.Parse.Bodies.{length-framed}
use ephemwork.Http.Parse.Framing.{IsLine, is_ascii-joined, find-framed}
use ephemwork.Http.Read.{
  ReadEvent, chunk, max_request, declared_in, or_else, first_declared, declared_length, finish_read,
  read_request, malformed,
}
use ephemwork.Http.Read.Chunks.{read_loop-chunks}
use ephemwork.Client.{request_line, build_request}
use ephemwork.Client.RoundTrip.{IsPlain, IsToken, decimal-IsWord, decimal-IsPlain}
use ephemwork.Client.Requests.{headers, request-lines, parse-build_request}

trim_end-return : (l : Text) → contains l 13 ≡ false → trim_end_matches 13 (l ++ 13 ∷ []) ≡ l
unfolding trim_end_matches
trim_end-return [] h = refl
trim_end-return (c ∷ []) h = ground arith
trim_end-return (c ∷ d ∷ l) h = ground (arith, trim_end-return (d ∷ l))

-- The loop over the lines sees each without its line end.
first_declared-line :
    (l s : Text)
    → IsLine l
    → first_declared (split_char 10 (l ++ 13 ∷ 10 ∷ s))
      ≡ or_else (declared_in (l ++ 13 ∷ [])) (first_declared (split_char 10 s))
unfolding first_declared
first_declared-line l s line =
    let e : l ++ 13 ∷ 10 ∷ s ≡ (l ++ 13 ∷ []) ++ 10 ∷ s = sym (append_assoc l (13 ∷ []) (10 ∷ s)) in
    let clear : contains (l ++ 13 ∷ []) 10 ≡ false =
      contains-append l (13 ∷ []) 10 ∙ ground (arith, line.3) in
    rw e (rw (split_char-append 10 (l ++ 13 ∷ []) s clear) refl)

-- A line that begins with another letter declares nothing.
declared-other :
    (c : ℕ) (l : Text)
    → IsLine (c ∷ l)
    → eq_ignore_ascii_case (c ∷ []) (codes "c") ≡ false
    → declared_in ((c ∷ l) ++ 13 ∷ []) ≡ none
unfolding declared_in eq_ignore_ascii_case split_once
declared-other c l line h =
    rw (trim_end-return (c ∷ l) line.2, declared_in)
      (elim (Option-cases (split_once b':' l)) [
        | inl absent ↦ ground (arith)
        | inr ((name, value), found) ↦ ground (arith)
      ])

declared-length_line :
    (n : ℕ)
    → n ≤ usize_max
    → declared_in ((codes "Content-Length: " ++ decimal n) ++ 13 ∷ []) ≡ some n
unfolding declared_in eq_ignore_ascii_case
declared-length_line n h =
    let no_return : contains (codes "Content-Length: " ++ decimal n) 13 ≡ false =
      contains-append (codes "Content-Length: ") (decimal n) 13
      ∙ ground (arith, (decimal-IsPlain n).1) in
    rw (trim_end-return (codes "Content-Length: " ++ decimal n) no_return, declared_in)
      (rw (split_once-append b':' (codes "Content-Length") (32 ∷ decimal n) refl, declared_in)
        (rw (trim-word (decimal n) (decimal-IsWord n)) (rw (parse-decimal usize_max n h) refl)))

first_declared-joined :
    (l m : Text) (ls : List Text)
    → IsLine l
    → first_declared (split_char 10 (joined l (m ∷ ls) ++ 13 ∷ 10 ∷ 13 ∷ []))
      ≡ or_else
          (declared_in (l ++ 13 ∷ []))
          (first_declared (split_char 10 (joined m ls ++ 13 ∷ 10 ∷ 13 ∷ [])))
unfolding joined
first_declared-joined l m ls line =
    rw (append_assoc l (13 ∷ 10 ∷ joined m ls) (13 ∷ 10 ∷ 13 ∷ []))
      (first_declared-line l (joined m ls ++ 13 ∷ 10 ∷ 13 ∷ []) line)

declared-request_line :
    (path : Text) → IsLine (request_line path) → declared_in (request_line path ++ 13 ∷ []) ≡ none
unfolding request_line eq_ignore_ascii_case
declared-request_line path line =
    declared-other b'P' (codes "OST " ++ (path ++ codes " HTTP/1.0")) line refl

declared-host :
    (host : Text)
    → IsLine (codes "Host: " ++ host)
    → declared_in ((codes "Host: " ++ host) ++ 13 ∷ []) ≡ none
unfolding eq_ignore_ascii_case
declared-host host line = declared-other b'H' (codes "ost: " ++ host) line refl

declared-json : declared_in (codes "Content-Type: application/json" ++ 13 ∷ []) ≡ none
unfolding declared_in eq_ignore_ascii_case split_once trim_end_matches
declared-json = refl

first_declared-request :
    (host path : Text) (n : ℕ)
    → n ≤ usize_max
    → All IsLine (request_line path ∷ headers host n)
    → first_declared
        (split_char 10 (joined (request_line path) (headers host n) ++ 13 ∷ 10 ∷ 13 ∷ []))
      ≡ some n
unfolding headers
first_declared-request host path n small (first, (named, (typed, (counted, rest)))) =
    first_declared-joined (request_line path) _ _ first
    ∙ rw (declared-request_line path first) (
        first_declared-joined (codes "Host: " ++ host) _ _ named
        ∙ rw (declared-host host named) (
            first_declared-joined (codes "Content-Type: application/json") _ _ typed
            ∙ rw declared-json (
                first_declared-joined (codes "Content-Length: " ++ decimal n) _ _ counted
                ∙ rw (declared-length_line n small) refl)))

-- The head of a request of the client declares the length of its body.
declared-request :
    (host path : Text) (n : ℕ)
    → n ≤ usize_max
    → IsPlain host
    → IsToken path
    → declared_length (joined (request_line path) (headers host n) ++ 13 ∷ 10 ∷ 13 ∷ []) ≡ n
unfolding declared_length
declared-request host path n small plain token =
    let lines = request-lines host path n plain token in
    let head = joined (request_line path) (headers host n) ++ 13 ∷ 10 ∷ 13 ∷ [] in
    let ascii : is_ascii head ≡ true =
      all-append _ (joined (request_line path) (headers host n)) (13 ∷ 10 ∷ 13 ∷ [])
        (is_ascii-joined (request_line path) (headers host n) lines) refl in
    rw (from_utf8-ascii head ascii) (rw (first_declared-request host path n small lines) refl)

finish_read-found :
    (s : Bytes) (ends : ℕ × ℕ)
    → find_header_terminator s ≡ some ends
    → finish_read s ≡ map_err malformed (parse_request s)
unfolding finish_read find_header_terminator position
finish_read-found [] ends h = cc
finish_read-found (b ∷ s) ends h = rw (h, finish_read) refl

build_request-framed :
    (host path : Text) (body : Bytes)
    → build_request host path body ≡ framed (request_line path) (headers host (length body)) body
unfolding build_request headers
build_request-framed host path body = refl

-- The server reads the client's message as a POST to the path with the body, however the message
-- is cut into non-empty reads and whatever would come after them; the host is ASCII without line
-- ends, the path is ASCII without white space and not empty, and the message has at most 65536
-- bytes.
pub read_request-chunks :
    (host path : Text) (body : Bytes) (p : Bytes) (pieces : List Bytes) (events : List ReadEvent)
    → IsPlain host
    → IsToken path
    → length (build_request host path body) ≤ 65536
    → All (λ q. q ≢ []) (p ∷ pieces)
    → p ++ flatten pieces ≡ build_request host path body
    → read_request (map chunk (p ∷ pieces) ++ events)
      ≡ ok (record { method = codes "POST"; path = path; body = body })
unfolding read_request
read_request-chunks host path body p pieces events plain token small full e =
    let shape = build_request-framed host path body in
    let lines = request-lines host path (length body) plain token in
    let size : length (framed (request_line path) (headers host (length body)) body) ≤ max_request =
      rw (sym shape) small in
    let declares =
      declared-request host path (length body)
        (omega (arith, length-framed (request_line path) (headers host (length body)) body lines))
        plain token in
    let found = find-framed (request_line path) (headers host (length body)) body lines in
    rw
      (read_loop-chunks (request_line path) (headers host (length body)) lines body declares
        (omega arith) p pieces [] events size full (e ∙ shape))
      (finish_read-found _ _ found
        ∙ rw (sym shape) (rw (parse-build_request host path body plain token (omega arith)) refl))
