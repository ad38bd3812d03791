-- ===== src/Text/Splitting/Words.antt =====
-- The words of a text.
use ephemwork.Prelude.{
  ℕ, ◌≡◌, refl, ◌∙◌, sym, ap, ◌≢◌, true, false, not, [], ◌∷◌, ◌++◌, arith, all, append_assoc,
  append-nil, Bool-cases, inl, inr,
}
use ephemwork.Text.{Text, is_whitespace, is_digit, trim, trim_start, trim_end}
use ephemwork.Text.Splitting.{words_from, split_whitespace}

-- Not empty, and without white space.
abbrev pub IsWord : Text → Type 0
IsWord w = (all (λ c. not (is_whitespace c)) w ≡ true) × (w ≢ [])

words_from-append :
    (d : ℕ) (cur w s : Text)
    → all (λ c. not (is_whitespace c)) w ≡ true
    → words_from (d ∷ cur) (w ++ s) ≡ words_from (d ∷ cur ++ w) s
unfolding words_from
words_from-append d cur [] s h = rw (append-nil cur) refl
words_from-append d cur (c ∷ w) s h = elim (Bool-cases (is_whitespace c)) [
  | inl white ↦ absurd (ground arith)
  | inr black ↦
      rw (black, words_from)
        (words_from-append d (cur ++ c ∷ []) w s (ground arith)
          ∙ ap (λ t. words_from (d ∷ t) s) (append_assoc cur (c ∷ []) w))
]

is_whitespace-space : is_whitespace 32 ≡ true
unfolding is_whitespace
is_whitespace-space = refl

words_from-word : (w s : Text) → IsWord w → words_from [] (w ++ 32 ∷ s) ≡ w ∷ words_from [] s
unfolding words_from
words_from-word [] s h = absurd (h.1 refl)
words_from-word (c ∷ w) s h =
    let black : is_whitespace c ≡ false = ground arith in
    rw (black, words_from)
      (words_from-append c [] w (32 ∷ s) (ground arith) ∙ rw (is_whitespace-space, words_from) refl)

words_from-last : (w : Text) → IsWord w → words_from [] w ≡ w ∷ []
unfolding words_from
words_from-last [] h = absurd (h.1 refl)
words_from-last (c ∷ w) h =
    let black : is_whitespace c ≡ false = ground arith in
    rw (black, words_from)
      (ap (words_from (c ∷ [])) (sym (append-nil w)) ∙ words_from-append c [] w [] (ground arith))

trim_start-word : (w : Text) → IsWord w → trim_start w ≡ w
unfolding trim_start
trim_start-word [] h = absurd (h.1 refl)
trim_start-word (c ∷ w) h = ground arith

trim_end-word : (w : Text) → all (λ c. not (is_whitespace c)) w ≡ true → trim_end w ≡ w
unfolding trim_end
trim_end-word [] h = refl
trim_end-word (c ∷ w) h = ground (arith, trim_end-word w)

-- A digit is no white space.
pub digit_not_white : (s : Text) → all is_digit s ≡ true → all (λ c. not (is_whitespace c)) s ≡ true
unfolding is_whitespace
digit_not_white [] h = refl
digit_not_white (c ∷ s) h = ground (arith, digit_not_white s)

pub split_whitespace-word :
    (w s : Text) → IsWord w → split_whitespace (w ++ 32 ∷ s) ≡ w ∷ split_whitespace s
unfolding split_whitespace
split_whitespace-word w s h = words_from-word w s h

pub split_whitespace-last : (w : Text) → IsWord w → split_whitespace w ≡ w ∷ []
unfolding split_whitespace
split_whitespace-last w h = words_from-last w h

-- White space before a word is trimmed, and a word is left as it is.
pub trim-word : (w : Text) → IsWord w → trim (32 ∷ w) ≡ w
unfolding trim trim_start trim_end
trim-word w h =
    rw (is_whitespace-space, trim_start) (rw (trim_start-word w h) (trim_end-word w h.0))
