-- ===== src/Http/Read/Chunks.antt =====
-- The reading loop on a message that comes in pieces.
use ephemwork.Prelude.{
  ℕ, ◌+◌, ◌-◌, ◌≡◌, refl, sym, ap, ◌∙◌, ◌≤◌, ◌<◌, ◌≢◌, ◌⊎◌, inl, inr, true, false, none, List, [],
  ◌∷◌, ◌++◌, arith, All, append_assoc, length, length-append, leb, le→leb, take, take-length_append,
  ok, map, append-nil,
}
use mathlib.Core.List.{flatten}
use ephemwork.Text.{Text}
use ephemwork.Protocol.{Bytes}
use ephemwork.Http.{joined, framed}
use ephemwork.Http.Parse.{crlf_crlf, find_header_terminator, body_end}
use ephemwork.Http.Parse.Framing.{IsLine, find-framed, framed-ascii}
use ephemwork.Http.Parse.Bodies.{length-framed}
use ephemwork.Http.Read.{ReadEvent, chunk, max_request, declared_length, is_complete, read_loop}
use ephemwork.Http.Read.Prefixes.{find-before}

-- Two ways to cut one list: the first part goes beyond that of the other cut, or stops before.
append-cuts {ℓ} :
    {A : Type ℓ} (xs us ys vs : List A)
    → xs ++ ys ≡ us ++ vs
    → ((w : List A) × (xs ≡ us ++ w) × (vs ≡ w ++ ys))
      ⊎ ((a : A) × (w : List A) × (us ≡ xs ++ a ∷ w))
append-cuts xs [] ys vs e = inl (xs, refl, sym e)
append-cuts [] (u ∷ us) ys vs e = inr (u, us, refl)
append-cuts (x ∷ xs) (u ∷ us) ys vs e = elim (append-cuts xs us ys vs (cc)) [
  | inl (w, p, q) ↦ inl (w, cc, q)
  | inr (a, w, p) ↦ inr (a, w, cc)
]

is_complete-unfound : (s : Bytes) → find_header_terminator s ≡ none → is_complete s ≡ false
unfolding is_complete
is_complete-unfound s h = rw (h, is_complete) refl

module _ (l : Text) (ls : List Text) (lines : All IsLine (l ∷ ls)) where
  -- The part of the head by which the loop looks for a length.
  abbrev pub seen_head : Bytes
  seen_head = joined l ls ++ 13 ∷ 10 ∷ 13 ∷ []

  take-seen_head :
      (body : Bytes) → take (length (joined l ls) + 4 - 1) (framed l ls body) ≡ seen_head
  take-seen_head body =
      let n : length (joined l ls) + 4 - 1 ≡ length seen_head =
        omega (arith, length-append (joined l ls) (13 ∷ 10 ∷ 13 ∷ [])) in
      rw n (
        rw (framed-ascii l ls body lines) (
          rw (← append_assoc (joined l ls) (13 ∷ 10 ∷ 13 ∷ []) (10 ∷ body))
            (take-length_append seen_head (10 ∷ body))))

  -- Once the head is there, the loop waits for the length that it declares.
  is_complete-framed :
      (body : Bytes)
      → is_complete (framed l ls body)
        ≡ leb
            (body_end (length (joined l ls) + 4) (declared_length seen_head))
            (length (framed l ls body))
  unfolding is_complete
  is_complete-framed body =
      rw (find-framed l ls body lines, is_complete) (rw (take-seen_head body) refl)

  module _ (body : Bytes) (declares : declared_length seen_head ≡ length body)
      (fits : length (framed l ls body) < 18446744073709551616) where
    end_declared :
        body_end (length (joined l ls) + 4) (declared_length seen_head)
        ≡ length (joined l ls) + 4 + length body
    end_declared = rw declares (omega (arith, length-framed l ls body lines))

    whole-is_complete : is_complete (framed l ls body) ≡ true
    whole-is_complete =
        is_complete-framed body
        ∙ rw end_declared (le→leb _ _ (omega (arith, length-framed l ls body lines)))

    -- A part of the message is never taken for the whole.
    part-is_complete :
        (s : Bytes) (b : ℕ) (t : Bytes) → s ++ b ∷ t ≡ framed l ls body → is_complete s ≡ false
    part-is_complete s b t e =
        let cut : s ++ b ∷ t ≡ (joined l ls ++ crlf_crlf) ++ body =
          e ∙ framed-ascii l ls body lines ∙ sym (append_assoc (joined l ls) crlf_crlf body) in
        elim (append-cuts s (joined l ls ++ crlf_crlf) (b ∷ t) body cut) [
          | inl (w, p, q) ↦
              let known : s ≡ framed l ls w =
                p ∙ append_assoc (joined l ls) crlf_crlf w ∙ sym (framed-ascii l ls w lines) in
              rw known (
                is_complete-framed w
                ∙ rw end_declared (
                    ground
                      (arith, length-framed l ls w lines, ap length q, length-append w (b ∷ t))))
          | inr (a, w, p) ↦ is_complete-unfound s (find-before l ls s a w lines (sym p))
        ]

    within-max :
        (s : Bytes) (b : ℕ) (t : Bytes)
        → length (framed l ls body) ≤ max_request
        → s ++ b ∷ t ≡ framed l ls body
        → leb max_request (length s) ≡ false
    within-max s b t small e = ground (arith, ap length e, length-append s (b ∷ t))

    -- Whatever pieces the message comes in, and whatever follows, the loop ends with the message
    -- once it has its last byte.
    pub read_loop-chunks :
        (p : Bytes) (pieces : List Bytes) (buf : Bytes) (events : List ReadEvent)
        → length (framed l ls body) ≤ max_request
        → All (λ q. q ≢ []) (p ∷ pieces)
        → buf ++ (p ++ flatten pieces) ≡ framed l ls body
        → read_loop (map chunk (p ∷ pieces) ++ events) buf ≡ ok (framed l ls body)
    unfolding read_loop flatten
    read_loop-chunks [] pieces buf events small (full, rest) e = absurd (full refl)
    read_loop-chunks (a ∷ p) [] buf events small full e =
        let whole : buf ++ a ∷ p ≡ framed l ls body =
          ap (λ q. buf ++ q) (sym (append-nil (a ∷ p))) ∙ e in
        rw (within-max buf a p small whole) (rw whole (rw whole-is_complete refl))
    read_loop-chunks (a ∷ p) ([] ∷ pieces) buf events small (full, (bad, rest)) e =
        absurd (bad refl)
    read_loop-chunks (a ∷ p) ((c ∷ q) ∷ pieces) buf events small (full, rest) e =
        let whole : (buf ++ a ∷ p) ++ (c ∷ (q ++ flatten pieces)) ≡ framed l ls body =
          append_assoc buf (a ∷ p) (c ∷ (q ++ flatten pieces)) ∙ e in
        rw (within-max buf a (p ++ c ∷ (q ++ flatten pieces)) small e) (
          rw (part-is_complete (buf ++ a ∷ p) c (q ++ flatten pieces) whole)
            (read_loop-chunks (c ∷ q) pieces (buf ++ a ∷ p) events small rest whole))
