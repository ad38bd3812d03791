-- ===== src/Aws/Endpoints/Ordered.antt =====
-- How one comparison after the other orders pairs of texts, for the sort of
-- src/aws_bastion_provisioner.rs: never twice ahead, equal where neither is ahead, and transitive.
use ephemwork.Prelude.{◌≡◌, ◌⊎◌, inl, inr, refl, ap, subst, sym, ◌∙◌, true, false, Ordering, arith}
use ephemwork.Text.{Text, compare_text}
use ephemwork.Text.Laws.{compare_text-eq_iff, Before-of_gt, Before-trans, Before}
use ephemwork.Aws.Endpoints.{then_with, is_gt}

Ordering-cases : (o : Ordering) → (o ≡ Ordering.lt) ⊎ ((o ≡ Ordering.eq) ⊎ (o ≡ Ordering.gt))
Ordering-cases Ordering.lt = inl refl
Ordering-cases Ordering.eq = inr (inl refl)
Ordering-cases Ordering.gt = inr (inr refl)

-- No text comes after another and before it.
text_asym : (s t : Text) → Before s t → Before t s → ⊥
text_asym s t h k = absurd (ground (arith, Before-trans s t s h k, compare_text-eq_iff s s))

gt-of_Before : (s t : Text) → Before t s → compare_text s t ≡ Ordering.gt
gt-of_Before s t h = elim (Ordering-cases (compare_text s t)) [
  | inl lt ↦ absurd (text_asym s t lt h)
  | inr (inl eq) ↦
      absurd (ground (arith, (compare_text-eq_iff s t).0 eq, h, compare_text-eq_iff s s))
  | inr (inr gt) ↦ gt
]

abbrev flipped : Ordering → Ordering
flipped Ordering.lt = Ordering.gt
flipped Ordering.eq = Ordering.eq
flipped Ordering.gt = Ordering.lt

compare_flip : (s t : Text) → compare_text t s ≡ flipped (compare_text s t)
compare_flip s t = elim (Ordering-cases (compare_text s t)) [
  | inl lt ↦ gt-of_Before t s lt ∙ ap flipped (sym lt)
  | inr (inl eq) ↦
      (compare_text-eq_iff t s).1 (sym ((compare_text-eq_iff s t).0 eq)) ∙ ap flipped (sym eq)
  | inr (inr gt) ↦ Before-of_gt s t gt ∙ ap flipped (sym gt)
]

-- Of two comparisons, one after the other.
flip_asym :
    (a b : Ordering)
    → is_gt (then_with a b) ≡ true
    → is_gt (then_with (flipped a) (flipped b)) ≡ false
flip_asym Ordering.lt b h = absurd (cc)
flip_asym Ordering.eq Ordering.lt h = absurd (cc)
flip_asym Ordering.eq Ordering.eq h = absurd (cc)
flip_asym Ordering.eq Ordering.gt h = refl
flip_asym Ordering.gt b h = refl

flip_antisym :
    (a b : Ordering)
    → is_gt (then_with a b) ≡ false
    → is_gt (then_with (flipped a) (flipped b)) ≡ false
    → (a ≡ Ordering.eq) × (b ≡ Ordering.eq)
flip_antisym Ordering.lt b h k = absurd (cc)
flip_antisym Ordering.eq Ordering.lt h k = absurd (cc)
flip_antisym Ordering.eq Ordering.eq h k = (refl, refl)
flip_antisym Ordering.eq Ordering.gt h k = absurd (cc)
flip_antisym Ordering.gt b h k = absurd (cc)

pub lex_asym :
    (s t i j : Text)
    → is_gt (then_with (compare_text s t) (compare_text i j)) ≡ true
    → is_gt (then_with (compare_text t s) (compare_text j i)) ≡ false
lex_asym s t i j h =
    rw (compare_flip s t, compare_flip i j) (flip_asym (compare_text s t) (compare_text i j) h)

pub lex_antisym :
    (s t i j : Text)
    → is_gt (then_with (compare_text s t) (compare_text i j)) ≡ false
    → is_gt (then_with (compare_text t s) (compare_text j i)) ≡ false
    → (s ≡ t) × (i ≡ j)
lex_antisym s t i j h k =
    let (p, q) = flip_antisym (compare_text s t) (compare_text i j) h (
      subst (λ x. is_gt (then_with x (flipped (compare_text i j))) ≡ false) (compare_flip s t)
        (subst (λ x. is_gt (then_with (compare_text t s) x) ≡ false) (compare_flip i j) k)) in
    ((compare_text-eq_iff s t).0 p, (compare_text-eq_iff i j).0 q)

-- A comparison of s and u from those of s and t and of t and u.
compare_trans :
    (s t u : Text)
    → ((compare_text s t ≡ Ordering.lt)
        → is_gt (compare_text t u) ≡ false
        → compare_text s u ≡ Ordering.lt)
      × ((compare_text s t ≡ Ordering.eq) → compare_text s u ≡ compare_text t u)
compare_trans s t u = (
  λ h k. elim (Ordering-cases (compare_text t u)) [
    | inl lt ↦ Before-trans s t u h lt
    | inr (inl eq) ↦ ap (compare_text s) (sym ((compare_text-eq_iff t u).0 eq)) ∙ h
    | inr (inr gt) ↦ absurd (cc (ap is_gt (sym gt) ∙ k))
  ],
  λ h. ap (λ x. compare_text x u) ((compare_text-eq_iff s t).0 h),
)

not_gt_trans :
    (s t u : Text)
    → is_gt (compare_text s t) ≡ false
    → is_gt (compare_text t u) ≡ false
    → is_gt (compare_text s u) ≡ false
not_gt_trans s t u h k = elim (Ordering-cases (compare_text s t)) [
  | inl lt ↦ ap is_gt ((compare_trans s t u).0 lt k)
  | inr (inl eq) ↦ ap is_gt ((compare_trans s t u).1 eq) ∙ k
  | inr (inr gt) ↦ absurd (cc (ap is_gt (sym gt) ∙ h))
]

-- What the first comparison leaves to the second.
abbrev Leaves : Ordering → Ordering → Type 0
Leaves a b = (a ≡ Ordering.lt) ⊎ ((a ≡ Ordering.eq) × (is_gt b ≡ false))

leaves : (a b : Ordering) → is_gt (then_with a b) ≡ false → Leaves a b
leaves Ordering.lt b h = inl refl
leaves Ordering.eq b h = inr (refl, h)
leaves Ordering.gt b h = absurd (cc)

pub lex_trans :
    (s t u i j k : Text)
    → is_gt (then_with (compare_text s t) (compare_text i j)) ≡ false
    → is_gt (then_with (compare_text t u) (compare_text j k)) ≡ false
    → is_gt (then_with (compare_text s u) (compare_text i k)) ≡ false
lex_trans s t u i j k h l = elim (leaves (compare_text s t) (compare_text i j) h) [
  | inl lt ↦ elim (leaves (compare_text t u) (compare_text j k) l) [
    | inl lt2 ↦ rw ((compare_trans s t u).0 lt (ap is_gt lt2)) refl
    | inr (eq, rest) ↦ rw ((compare_trans s t u).0 lt (ap is_gt eq)) refl
  ]
  | inr (eq, less) ↦ elim (leaves (compare_text t u) (compare_text j k) l) [
    | inl lt ↦ rw ((compare_trans s t u).1 eq ∙ lt) refl
    | inr (eq2, less2) ↦ rw ((compare_trans s t u).1 eq ∙ eq2) (not_gt_trans i j k less less2)
  ]
]
