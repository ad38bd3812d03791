-- ===== src/Http/Parse/Bodies.antt =====
-- The parse of a framed message.
use ephemwork.Prelude.{
  ◌+◌, ◌-◌, ◌≡◌, refl, ◌∙◌, ap, ap₂, sym, append_assoc, le→leb, ◌<◌, true, List, ◌∷◌, ◌++◌, arith,
  All, ok, take, drop, length, length-append, take-length_append, take_all, drop-length_append, leb,
}
use ephemwork.Text.{Text}
use ephemwork.Text.Utf8.Ascii.{from_utf8-ascii}
use ephemwork.Protocol.{Bytes}
use ephemwork.Http.{joined, framed}
use ephemwork.Http.Parse.{crlf_crlf, parse_request, parse_lines, body_of, body_end}
use ephemwork.Http.Parse.Framing.{IsLine, find-framed, framed-ascii, split-joined, is_ascii-joined}

module _ (l : Text) (ls : List Text) (body : Bytes) (lines : All IsLine (l ∷ ls)) where
  pub length-framed : length (framed l ls body) ≡ length (joined l ls) + 4 + length body
  length-framed =
      rw (framed-ascii l ls body lines)
        (omega (arith, length-append (joined l ls) (13 ∷ 10 ∷ 13 ∷ 10 ∷ body)))

  pub take-framed : take (length (joined l ls)) (framed l ls body) ≡ joined l ls
  take-framed =
      rw (framed-ascii l ls body lines)
        (take-length_append (joined l ls) (13 ∷ 10 ∷ 13 ∷ 10 ∷ body))

  pub drop-framed : drop (length (joined l ls) + 4) (framed l ls body) ≡ body
  drop-framed = rw (framed-ascii l ls body lines) (
      ap₂ {C = Bytes} drop (sym (length-append (joined l ls) crlf_crlf))
        (sym (append_assoc (joined l ls) crlf_crlf body))
      ∙ drop-length_append (joined l ls ++ crlf_crlf) body)

  -- The head is split into its lines, and the rest is parsed from those.
  pub parse_request-framed :
      parse_request (framed l ls body)
      ≡ parse_lines (framed l ls body) (length (joined l ls) + 4) (l ∷ ls)
  unfolding parse_request
  parse_request-framed = rw (find-framed l ls body lines) (
      rw take-framed (
        rw (from_utf8-ascii (joined l ls) (is_ascii-joined l ls lines))
          (rw (split-joined l ls lines) refl)))

  -- A body of the declared length is taken whole, where the message fits a `usize`.
  pub body_of-framed :
      length (framed l ls body) < 18446744073709551616
      → body_of (framed l ls body) (length (joined l ls) + 4) (length body) ≡ ok body
  unfolding body_of
  body_of-framed h =
      let n = length (joined l ls) in
      let whole : body_end (n + 4) (length body) ≡ n + 4 + length body =
        omega (arith, length-framed) in
      let fits : leb (n + 4 + length body) (length (framed l ls body)) ≡ true =
        le→leb _ _ (omega (arith, length-framed)) in
      let behind : leb (n + 4) (n + 4 + length body) ≡ true = le→leb _ _ (omega arith) in
      let rest : n + 4 + length body - (n + 4) ≡ length body = omega arith in
      rw (whole, body_of)
        (rw fits (
          rw behind (rw drop-framed (rw rest (ap ok (take_all (length body) body (omega arith)))))))
