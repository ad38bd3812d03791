-- ===== src/Text/Splitting/Laws.antt =====
-- What the pieces of a split text are.
use ephemwork.Prelude.{
  ℕ, ◌≡◌, refl, false, some, [], ◌∷◌, ◌++◌, arith, Option-cases, inl, inr, contains,
}
use ephemwork.Text.{Text}
use ephemwork.Text.Splitting.{split_once, split_char, strip_prefix}

pub split_once-append :
    (c : ℕ) (s t : Text) → contains s c ≡ false → split_once c (s ++ c ∷ t) ≡ some (s, t)
unfolding split_once
split_once-append c [] t h = ground arith
split_once-append c (d ∷ s) t h = ground (arith, split_once-append c s t)

pub split_once_sound :
    (c : ℕ) (r s t : Text)
    → split_once c r ≡ some (s, t)
    → (r ≡ s ++ c ∷ t) × (contains s c ≡ false)
unfolding split_once
split_once_sound c [] s t h = absurd (cc)
split_once_sound c (d ∷ r) s t h = elim (Option-cases (split_once c r)) [
  | inl nothing ↦ ground arith
  | inr ((s', t'), found) ↦ ground (arith, split_once_sound c r s' t' found)
]

pub strip_prefix-append : (p s : Text) → strip_prefix p (p ++ s) ≡ some s
unfolding strip_prefix
strip_prefix-append [] s = ground arith
strip_prefix-append (c ∷ p) s = ground (arith, strip_prefix-append p s)

pub split_char-append :
    (sep : ℕ) (s t : Text)
    → contains s sep ≡ false
    → split_char sep (s ++ sep ∷ t) ≡ s ∷ split_char sep t
unfolding split_char
split_char-append sep [] t h = ground arith
split_char-append sep (c ∷ s) t h = ground (arith, split_char-append sep s t)

pub split_char-last : (sep : ℕ) (s : Text) → contains s sep ≡ false → split_char sep s ≡ s ∷ []
unfolding split_char
split_char-last sep [] h = refl
split_char-last sep (c ∷ s) h = ground (arith, split_char-last sep s)
