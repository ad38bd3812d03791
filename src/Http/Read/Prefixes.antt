-- ===== src/Http/Read/Prefixes.antt =====
-- Where a pattern stands in the part of a message that has been read.
use ephemwork.Prelude.{
  ℕ, ◌+◌, ◌≡◌, refl, ap, ◌≤◌, ◌<◌, ◌≢◌, true, none, some, inl, inr, List, [], ◌∷◌, ◌++◌, arith, All,
  append_assoc, length, length-append, Option-cases,
}
use ephemwork.Text.{Text}
use ephemwork.Protocol.{Bytes}
use ephemwork.Http.{joined}
use ephemwork.Http.Parse.{starts_with, position, shift, crlf_crlf, lf_lf, find_header_terminator}
use ephemwork.Http.Parse.Framing.{IsLine, position-skip, position-joined}

starts_with-append :
    (p s t : Bytes) → length p ≤ length s → starts_with p (s ++ t) ≡ starts_with p s
unfolding starts_with
starts_with-append [] s t h = refl
starts_with-append (a ∷ p) [] t h = absurd (omega arith)
starts_with-append (a ∷ p) (b ∷ s) t h = ground (arith, starts_with-append p s t)

starts_with-length : (p s : Bytes) → starts_with p s ≡ true → length p ≤ length s
unfolding starts_with
starts_with-length [] s h = omega arith
starts_with-length (a ∷ p) [] h = cc
starts_with-length (a ∷ p) (b ∷ s) h = ground (arith, starts_with-length p s)

position-length : (p s : Bytes) (i : ℕ) → position p s ≡ some i → i + length p ≤ length s
unfolding position
position-length p [] i h = cc
position-length p (b ∷ s) i h = elim (Option-cases (position p s)) [
  | inl absent ↦ ground (arith, starts_with-length p (b ∷ s))
  | inr (j, found) ↦ ground (arith, starts_with-length p (b ∷ s), position-length p s j found)
]

-- What is found stays where it is when more is read.
pub position-append : (p s t : Bytes) (i : ℕ) → position p s ≡ some i → position p (s ++ t) ≡ some i
unfolding position
position-append p [] t i h = cc
position-append p (b ∷ s) t i h = elim (Option-cases (position p s)) [
  | inl absent ↦ ground (arith, starts_with-length p (b ∷ s), starts_with-append p (b ∷ s) t)
  | inr (j, found) ↦ ground (
    arith,
    position-length p s j found,
    starts_with-append p (b ∷ s) t,
    position-append p s t j found,
  )
]

-- Before the whole of its first occurrence is read, the pattern is not found.
pub position-before :
    (p s t : Bytes) (i : ℕ)
    → position p (s ++ t) ≡ some i
    → length s < i + length p
    → position p s ≡ none
position-before p s t i h short = elim (Option-cases (position p s)) [
  | inl absent ↦ absent
  | inr (j, found) ↦
      absurd (ground (arith, position-append p s t j found, position-length p s j found))
]

-- The text goes on with something else than a line feed.
abbrev NoFeed : Bytes → Type 0
NoFeed [] = Unit {0}
NoFeed (b ∷ s) = b ≢ 10

lf_lf-line_end : (s : Bytes) → NoFeed s → position lf_lf (13 ∷ 10 ∷ s) ≡ shift 2 (position lf_lf s)
unfolding position starts_with
lf_lf-line_end [] h = refl
lf_lf-line_end (b ∷ s) h = ground arith

line-NoFeed : (m s : Text) → IsLine m → NoFeed (m ++ s)
line-NoFeed [] s h = absurd (h.1 refl)
line-NoFeed (b ∷ m) s h = ground arith

joined-NoFeed : (m : Text) (ls : List Text) (s : Bytes) → IsLine m → NoFeed (joined m ls ++ s)
unfolding joined
joined-NoFeed m [] s h = line-NoFeed m s h
joined-NoFeed m (k ∷ ls) s h =
    rw (append_assoc m (13 ∷ 10 ∷ joined k ls) s) (line-NoFeed m (13 ∷ 10 ∷ joined k ls ++ s) h)

-- No bare empty line stands in a head of lines that end in CRLF.
lf_lf-joined :
    (l : Text) (ls : List Text)
    → All IsLine (l ∷ ls)
    → position lf_lf (joined l ls ++ crlf_crlf) ≡ none
unfolding joined position starts_with
lf_lf-joined l [] (h, hs) = ground (arith, position-skip 10 (10 ∷ []) l crlf_crlf)
lf_lf-joined l (m ∷ ls) (h, hs) =
    let rest = joined m ls ++ crlf_crlf in
    let e : l ++ 13 ∷ 10 ∷ joined m ls ++ crlf_crlf ≡ l ++ 13 ∷ 10 ∷ rest =
      append_assoc l (13 ∷ 10 ∷ joined m ls) crlf_crlf in
    rw e (
      ground (
        arith,
        position-skip 10 (10 ∷ []) l (13 ∷ 10 ∷ rest),
        lf_lf-line_end rest (joined-NoFeed m ls crlf_crlf hs.0),
        lf_lf-joined m ls hs,
      ))

not_found :
    (s : Bytes)
    → position crlf_crlf s ≡ none
    → position lf_lf s ≡ none
    → find_header_terminator s ≡ none
unfolding find_header_terminator
not_found s h k = rw (h, find_header_terminator) (rw (k, find_header_terminator) refl)

-- While the head is not read to its end, no terminator is found.
pub find-before :
    (l : Text) (ls : List Text) (s : Bytes) (b : ℕ) (t : Bytes)
    → All IsLine (l ∷ ls)
    → s ++ b ∷ t ≡ joined l ls ++ crlf_crlf
    → find_header_terminator s ≡ none
find-before l ls s b t lines e =
    let whole : position crlf_crlf (s ++ b ∷ t) ≡ some (length (joined l ls)) =
      rw e (position-joined l ls [] lines) in
    let short : length s < length (joined l ls) + 4 =
      omega (arith, length-append s (b ∷ t), length-append (joined l ls) crlf_crlf, ap length e) in
    let no_crlf = position-before crlf_crlf s (b ∷ t) (length (joined l ls)) whole short in
    let no_feeds : position lf_lf (s ++ b ∷ t) ≡ none = rw e (lf_lf-joined l ls lines) in
    not_found s no_crlf (elim (Option-cases (position lf_lf s)) [
      | inl absent ↦ absent
      | inr (j, found) ↦ absurd (ground (arith, position-append lf_lf s (b ∷ t) j found))
    ])
