-- ===== src/Text/Laws.antt =====
-- Equality, order and trimming of texts.
use ephemwork.Prelude.{◌≡◌, refl, ◌↔◌, true, [], ◌∷◌, arith, Ordering}
use ephemwork.Text.{Text, same, compare_text}

pub same_iff : (s t : Text) → (same s t ≡ true) ↔ (s ≡ t)
unfolding same
same_iff [] [] = ground arith
same_iff [] (b ∷ t) = ground arith
same_iff (a ∷ s) [] = ground arith
same_iff (a ∷ s) (b ∷ t) = ground (arith, same_iff s t)

pub same_refl : (s : Text) → same s s ≡ true
same_refl s = (same_iff s s).1 refl

pub compare_text-eq_iff : (s t : Text) → (compare_text s t ≡ Ordering.eq) ↔ (s ≡ t)
unfolding compare_text
compare_text-eq_iff [] [] = ground arith
compare_text-eq_iff [] (b ∷ t) = ground arith
compare_text-eq_iff (a ∷ s) [] = ground arith
compare_text-eq_iff (a ∷ s) (b ∷ t) = ground (arith, compare_text-eq_iff s t)

-- Strict order of texts.
abbrev pub Before : Text → Text → Type 0
Before s t = compare_text s t ≡ Ordering.lt

pub Before-of_gt : (s t : Text) → compare_text s t ≡ Ordering.gt → Before t s
unfolding compare_text
Before-of_gt [] [] h = ground arith
Before-of_gt [] (b ∷ t) h = ground arith
Before-of_gt (a ∷ s) [] h = ground arith
Before-of_gt (a ∷ s) (b ∷ t) h = ground (arith, Before-of_gt s t)

pub Before-trans : (s t u : Text) → Before s t → Before t u → Before s u
unfolding compare_text
Before-trans [] [] u h k = k
Before-trans [] (b ∷ t) [] h k = ground arith
Before-trans [] (b ∷ t) (c ∷ u) h k = ground arith
Before-trans (a ∷ s) [] u h k = ground arith
Before-trans (a ∷ s) (b ∷ t) [] h k = ground arith
Before-trans (a ∷ s) (b ∷ t) (c ∷ u) h k = ground (arith, Before-trans s t u)
