-- ===== src/Http/Parse/Framing.antt =====
-- Where the head of a framed message ends, and which lines it has.
use ephemwork.Prelude.{
  ℕ, ◌+◌, ◌≡◌, refl, ap, ◌≢◌, true, false, some, List, [], ◌∷◌, ◌++◌, arith, All, all-append,
  append_assoc, length, length-append, contains,
}
use ephemwork.Text.{Text}
use ephemwork.Text.Splitting.{split_crlf, split_pieces}
use ephemwork.Text.Splitting.Laws.{split_char-last}
use ephemwork.Text.Utf8.Ascii.{is_ascii, as_bytes-ascii}
use ephemwork.Protocol.{Bytes}
use ephemwork.Http.{joined, framed}
use ephemwork.Http.Parse.{starts_with, position, shift, crlf_crlf, find_header_terminator}

-- A header line: ASCII, not empty, with no line end in it.
abbrev pub IsLine : Text → Type 0
IsLine l = (is_ascii l ≡ true) × (l ≢ []) × (contains l 13 ≡ false) × (contains l 10 ≡ false)

-- Where the first character of the pattern does not stand, the pattern does not start.
pub position-skip :
    (c : ℕ) (p l s : Bytes)
    → contains l c ≡ false
    → position (c ∷ p) (l ++ s) ≡ shift (length l) (position (c ∷ p) s)
unfolding position starts_with
position-skip c p [] s h = ground arith
position-skip c p (b ∷ l) s h = ground (arith, position-skip c p l s)

position-end : (s : Bytes) → position crlf_crlf (13 ∷ 10 ∷ 13 ∷ 10 ∷ s) ≡ some 0
unfolding position starts_with
position-end s = ground arith

-- The text goes on with something else than a carriage return.
abbrev GoesOn : Bytes → Type 0
GoesOn [] = ⊥
GoesOn (b ∷ s) = b ≢ 13

position-line_end :
    (s : Bytes) → GoesOn s → position crlf_crlf (13 ∷ 10 ∷ s) ≡ shift 2 (position crlf_crlf s)
unfolding position starts_with
position-line_end [] h = absurd h
position-line_end (b ∷ s) h = ground arith

line-GoesOn : (m s : Text) → IsLine m → GoesOn (m ++ s)
line-GoesOn [] s h = absurd (h.1 refl)
line-GoesOn (b ∷ m) s h = ground arith

joined-GoesOn : (m : Text) (ls : List Text) (s : Bytes) → IsLine m → GoesOn (joined m ls ++ s)
unfolding joined
joined-GoesOn m [] s h = line-GoesOn m s h
joined-GoesOn m (k ∷ ls) s h =
    rw (append_assoc m (13 ∷ 10 ∷ joined k ls) s) (line-GoesOn m (13 ∷ 10 ∷ joined k ls ++ s) h)

pub position-joined :
    (l : Text) (ls : List Text) (body : Bytes)
    → All IsLine (l ∷ ls)
    → position crlf_crlf (joined l ls ++ 13 ∷ 10 ∷ 13 ∷ 10 ∷ body) ≡ some (length (joined l ls))
unfolding joined
position-joined l [] body (h, hs) =
    ground
      (arith, position-skip 13 (10 ∷ 13 ∷ 10 ∷ []) l (13 ∷ 10 ∷ 13 ∷ 10 ∷ body), position-end body)
position-joined l (m ∷ ls) body (h, hs) =
    let ending = 13 ∷ 10 ∷ 13 ∷ 10 ∷ body in
    let rest = joined m ls ++ ending in
    let e : l ++ 13 ∷ 10 ∷ joined m ls ++ ending ≡ l ++ 13 ∷ 10 ∷ rest =
      append_assoc l (13 ∷ 10 ∷ joined m ls) ending in
    rw e (
      ground (
        arith,
        position-skip 13 (10 ∷ 13 ∷ 10 ∷ []) l (13 ∷ 10 ∷ rest),
        position-line_end rest (joined-GoesOn m ls ending hs.0),
        position-joined m ls body hs,
        length-append l (13 ∷ 10 ∷ joined m ls),
      ))

pub is_ascii-joined :
    (l : Text) (ls : List Text) → All IsLine (l ∷ ls) → is_ascii (joined l ls) ≡ true
unfolding joined
is_ascii-joined l [] (h, hs) = h.0
is_ascii-joined l (m ∷ ls) (h, hs) =
    all-append _ l (13 ∷ 10 ∷ joined m ls) h.0 (is_ascii-joined m ls hs)

split_crlf-line :
    (l s : Text) → contains l 13 ≡ false → split_crlf (l ++ 13 ∷ 10 ∷ s) ≡ l ∷ split_crlf s
unfolding split_crlf
split_crlf-line [] s h = ground arith
split_crlf-line (c ∷ []) s h = ground arith
split_crlf-line (c ∷ d ∷ l) s h = ground (arith, split_crlf-line (d ∷ l) s)

split_crlf-last : (l : Text) → contains l 13 ≡ false → split_crlf l ≡ l ∷ []
unfolding split_crlf
split_crlf-last [] h = refl
split_crlf-last (c ∷ []) h = refl
split_crlf-last (c ∷ d ∷ l) h = ground (arith, split_crlf-last (d ∷ l))

-- The lines of a framed head are read back.
pub split-joined :
    (l : Text) (ls : List Text)
    → All IsLine (l ∷ ls)
    → split_pieces (split_crlf (joined l ls)) ≡ l ∷ ls
unfolding joined split_pieces
split-joined l [] (h, hs) =
    rw (split_crlf-last l h.2, split_pieces) (rw (split_char-last 10 l h.3) refl)
split-joined l (m ∷ ls) (h, hs) =
    rw (split_crlf-line l (joined m ls) h.2, split_pieces)
      (rw (split_char-last 10 l h.3) (ap (λ t. l ∷ t) (split-joined m ls hs)))

-- The head of a framed message ends before the first empty line, and the body follows.
pub find-framed :
    (l : Text) (ls : List Text) (body : Bytes)
    → All IsLine (l ∷ ls)
    → find_header_terminator (framed l ls body)
      ≡ some (length (joined l ls), length (joined l ls) + 4)
unfolding find_header_terminator framed
find-framed l ls body h =
    rw (as_bytes-ascii (joined l ls) (is_ascii-joined l ls h))
      (rw (position-joined l ls body h, find_header_terminator) refl)

pub framed-ascii :
    (l : Text) (ls : List Text) (body : Bytes)
    → All IsLine (l ∷ ls)
    → framed l ls body ≡ joined l ls ++ 13 ∷ 10 ∷ 13 ∷ 10 ∷ body
unfolding framed
framed-ascii l ls body h = rw (as_bytes-ascii (joined l ls) (is_ascii-joined l ls h)) refl
