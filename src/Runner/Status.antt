-- ===== src/Runner/Status.antt =====
-- The status of a response is the one that the health check sees.
use ephemwork.Prelude.{
  ℕ, zero, suc, ◌+◌, ◌-◌, ◌≡◌, ◌≤◌, ◌≢◌, refl, ap, ◌∙◌, true, List, [], ◌∷◌, ◌++◌, all-append,
  length, take, ok, arith,
}
use ephemwork.Text.{Text}
use ephemwork.Text.Decimal.{decimal, u16_max}
use ephemwork.Text.Decimal.Laws.{parse-decimal}
use ephemwork.Text.Splitting.{split_whitespace}
use ephemwork.Text.Splitting.Words.{IsWord, split_whitespace-word}
use ephemwork.Text.Utf8.Ascii.{is_ascii, from_utf8-ascii}
use ephemwork.Client.RoundTrip.{IsPlain, decimal-IsPlain, decimal-IsWord}
use ephemwork.Client.Responses.{next_line-line, spaced-IsPlain}
use ephemwork.Runner.{code_word, parse_status_code, Network, get_request, http_get_status}

abbrev pub line_of : Text → ℕ → Text → Text
line_of version status reason = version ++ 32 ∷ (decimal status ++ 32 ∷ reason)

line_of-IsPlain :
    (version : Text) (status : ℕ) (reason : Text)
    → IsPlain version
    → IsPlain reason
    → IsPlain (line_of version status reason)
line_of-IsPlain version status reason v r =
    spaced-IsPlain version (decimal status ++ 32 ∷ reason) v
      (spaced-IsPlain (decimal status) reason (decimal-IsPlain status) r)

second_code :
    (version : Text) (status : ℕ) (reason : Text)
    → IsWord version
    → code_word (split_whitespace (line_of version status reason)) ≡ ok (decimal status)
unfolding code_word
second_code version status reason w =
    rw (split_whitespace-word version (decimal status ++ 32 ∷ reason) w)
      (rw (split_whitespace-word (decimal status) reason (decimal-IsWord status)) refl)

append-ne-nil : (s t : Text) → s ≢ [] → s ++ t ≢ []
append-ne-nil [] t h e = h refl
append-ne-nil (c ∷ s) t h e = absurd (cc)

parse_status_code-line :
    (version : Text) (status : ℕ) (reason rest : Text)
    → IsWord version
    → IsPlain version
    → IsPlain reason
    → is_ascii rest ≡ true
    → status ≤ u16_max
    → parse_status_code (line_of version status reason ++ 13 ∷ 10 ∷ rest) ≡ ok status
unfolding parse_status_code
parse_status_code-line version status reason rest w v r a small =
    let (pa, pr, pf) = line_of-IsPlain version status reason v r in
    let line = line_of version status reason in
    rw (from_utf8-ascii (line ++ 13 ∷ 10 ∷ rest) (all-append _ line (13 ∷ 10 ∷ rest) pa a)) (
      rw
        (next_line-line line rest
          (pa, append-ne-nil version (32 ∷ (decimal status ++ 32 ∷ reason)) w.1, pr, pf))
        (rw (second_code version status reason w) (rw (parse-decimal u16_max status small) refl)))

take-append : (n k : ℕ) (s t : Text) → n ≡ length s + k → take n (s ++ t) ≡ s ++ take k t
take-append n k [] t h = ap (λ x. take x t) (omega (arith, h))
take-append zero k (c ∷ s) t h = absurd (omega (arith, h))
take-append (suc n) k (c ∷ s) t h = ap (λ x. c ∷ x) (take-append n k s t (omega (arith, h)))

-- The line end is read whole, and a part of the rest.
take-line :
    (n : ℕ) (line rest : Text)
    → length line ≤ n
    → take (suc (suc n)) (line ++ 13 ∷ 10 ∷ rest) ≡ line ++ 13 ∷ 10 ∷ take (n - length line) rest
take-line n line rest h =
    take-append (suc (suc n)) (suc (suc (n - length line))) line (13 ∷ 10 ∷ rest) (omega (arith, h))

take-is_ascii : (n : ℕ) (s : Text) → is_ascii s ≡ true → is_ascii (take n s) ≡ true
take-is_ascii zero s h = refl
take-is_ascii (suc n) [] h = refl
take-is_ascii (suc n) (c ∷ s) h = ground (arith, take-is_ascii n s, h)

-- Where the name of the host resolves and the first address answers with a response of ASCII text
-- whose status line fits into the 4096 bytes that are read, however long the rest is, the health
-- check sees the status of that line, any 16-bit number.
pub http_get_status-line :
    {Address : Type 0} (net : Network Address) (host : Text) (port : ℕ) (path : Text) (timeout : ℕ)
    (a : Address) (others : List Address) (version : Text) (status : ℕ) (reason rest : Text)
    → net.resolve host port ≡ ok (a ∷ others)
    → net.exchange a timeout (get_request host path)
      ≡ ok (line_of version status reason ++ 13 ∷ 10 ∷ rest)
    → IsWord version
    → IsPlain version
    → IsPlain reason
    → is_ascii rest ≡ true
    → status ≤ u16_max
    → length (line_of version status reason) ≤ 4094
    → http_get_status net host port path timeout ≡ ok status
unfolding http_get_status
http_get_status-line net host port path timeout a others version status reason rest found came w v r
      ascii small short =
    let line = line_of version status reason in
    rw found (
      rw came (
        ap parse_status_code (take-line 4094 line rest short)
        ∙ parse_status_code-line version status reason (take (4094 - length line) rest) w v r
            (take-is_ascii (4094 - length line) rest ascii) small))
