-- ===== src/Aws/Endpoints/Shuffled.antt =====
-- The warnings do not depend on the order of the map.
use ephemwork.Prelude.{
  ◌≡◌, inl, inr, refl, ap, ap₂, sym, ◌∙◌, Bool, true, false, not, Bool-cases, List, [], ◌∷◌, ok,
  if◌then◌else◌,
}
use mathlib.Core.List.{Permᴰ}
use mathlib.Core.List.Permᴰ.{nil, cons, swap, trans}
use ephemwork.Text.{Text}
use ephemwork.Aws.Endpoints.Ordered.{lex_asym, lex_antisym, lex_trans}
use ephemwork.Aws.{IpPermission, ingress_allows, MissingEndpointIngress}
use ephemwork.Aws.Endpoints.{
  missing_of, compare_missing, is_gt, insert_sorted, sorted, check_groups, missing_ingress,
}

abbrev comes_after : MissingEndpointIngress → MissingEndpointIngress → Bool
comes_after m n = is_gt (compare_missing m n)

-- The order of two groups that lack the ingress.
after_asym : (m n : MissingEndpointIngress) → comes_after m n ≡ true → comes_after n m ≡ false
unfolding compare_missing
after_asym m n h =
    lex_asym m.endpoint_service n.endpoint_service m.endpoint_sg_id n.endpoint_sg_id h

after_antisym :
    (g h : Text × Text)
    → comes_after (missing_of g) (missing_of h) ≡ false
    → comes_after (missing_of h) (missing_of g) ≡ false
    → missing_of g ≡ missing_of h
unfolding compare_missing
after_antisym g h p q =
    let (s, i) = lex_antisym g.1 h.1 g.0 h.0 p q in ap₂ (λ x y. missing_of (x, y)) i s

after_trans :
    (m n o : MissingEndpointIngress)
    → comes_after m n ≡ false
    → comes_after n o ≡ false
    → comes_after m o ≡ false
unfolding compare_missing
after_trans m n o h k =
    lex_trans m.endpoint_service n.endpoint_service o.endpoint_service m.endpoint_sg_id
      n.endpoint_sg_id o.endpoint_sg_id h k

-- Two in front of a list, each after the other put in its place.
front_comm :
    (g h : Text × Text) (l : List MissingEndpointIngress)
    → ◌≡◌ {A = List MissingEndpointIngress}
        (if comes_after (missing_of g) (missing_of h)
          then missing_of h ∷ missing_of g ∷ l
          else missing_of g ∷ missing_of h ∷ l)
        (if comes_after (missing_of h) (missing_of g)
          then missing_of g ∷ missing_of h ∷ l
          else missing_of h ∷ missing_of g ∷ l)
front_comm g h l = elim (Bool-cases (comes_after (missing_of g) (missing_of h))) [
  | inl gt ↦ rw (gt, after_asym (missing_of g) (missing_of h) gt) refl
  | inr not_gt ↦ elim (Bool-cases (comes_after (missing_of h) (missing_of g))) [
    | inl gt ↦ rw (not_gt, gt) refl
    | inr equal ↦
        let e = after_antisym g h not_gt equal in
        rw (not_gt, equal) (ap₂ (λ x y. x ∷ y ∷ l) e (sym e))
  ]
]

-- What comes after z, which does not come before y, comes after y.
after_between :
    (m z n : MissingEndpointIngress)
    → comes_after m z ≡ true
    → comes_after n z ≡ false
    → comes_after m n ≡ true
after_between m z n h k = elim (Bool-cases (comes_after m n)) [
  | inl gt ↦ gt
  | inr not_gt ↦ absurd (cc (sym h ∙ after_trans m n z not_gt k))
]

insert_comm :
    (g h : Text × Text) (l : List MissingEndpointIngress)
    → insert_sorted (missing_of g) (insert_sorted (missing_of h) l)
      ≡ insert_sorted (missing_of h) (insert_sorted (missing_of g) l)
unfolding insert_sorted
insert_comm g h [] = front_comm g h []
insert_comm g h (z ∷ l) = elim (Bool-cases (comes_after (missing_of g) z)) [
  | inl ag ↦ elim (Bool-cases (comes_after (missing_of h) z)) [
    | inl ah ↦ rw (ah, ag) (rw ah (ap (λ t. z ∷ t) (insert_comm g h l)))
    | inr nh ↦
        let above = after_between (missing_of g) z (missing_of h) ag nh in
        rw (nh, ag) (rw above (rw nh refl))
  ]
  | inr ng ↦ elim (Bool-cases (comes_after (missing_of h) z)) [
    | inl ah ↦
        let above = after_between (missing_of h) z (missing_of g) ah ng in
        rw (ah, ng) (rw (above, ah) refl)
    | inr nh ↦ rw (nh, ng) (rw nh (front_comm g h (z ∷ l)))
  ]
]

module _ (perms_of : Text → List IpPermission) (bastion_sg_id : Text) where
  abbrev lacks : Text × Text → Bool
  lacks g = not (ingress_allows (perms_of g.0) bastion_sg_id 443)

  -- The groups without the ingress.
  abbrev pick : List (Text × Text) → List MissingEndpointIngress
  pick [] = []
  pick (g ∷ groups) = let rest = pick groups in if lacks g then missing_of g ∷ rest else rest

  check_groups-pick {ℓ} :
      {E : Type ℓ} (groups : List (Text × Text))
      → check_groups {E = E} (λ id. ok (perms_of id)) bastion_sg_id groups ≡ ok (pick groups)
  unfolding check_groups
  check_groups-pick [] = refl
  check_groups-pick {E = E} (g ∷ groups) = elim (Bool-cases (lacks g)) [
    | inl yes_ ↦ rw (check_groups, check_groups-pick {E = E} groups) (rw yes_ refl)
    | inr no_ ↦ rw (check_groups, check_groups-pick {E = E} groups) (rw no_ refl)
  ]

  pick_step : Text × Text → List MissingEndpointIngress → List MissingEndpointIngress
  pick_step g rest = if lacks g then insert_sorted (missing_of g) rest else rest

  sorted-pick_step :
      (g : Text × Text) (groups : List (Text × Text))
      → sorted (pick (g ∷ groups)) ≡ pick_step g (sorted (pick groups))
  unfolding sorted pick_step
  sorted-pick_step g groups = elim (Bool-cases (lacks g)) [
    | inl bare ↦ rw bare refl
    | inr open_ ↦ rw open_ refl
  ]

  pick_step_comm :
      (g h : Text × Text) (l : List MissingEndpointIngress)
      → pick_step g (pick_step h l) ≡ pick_step h (pick_step g l)
  unfolding pick_step
  pick_step_comm g h l = elim (Bool-cases (lacks g)) [
    | inl bare_g ↦ elim (Bool-cases (lacks h)) [
      | inl bare_h ↦ rw (bare_g, bare_h) (insert_comm g h l)
      | inr open_h ↦ rw (bare_g, open_h) refl
    ]
    | inr open_g ↦ rw open_g refl
  ]

  sorted-pick : {xs ys : List (Text × Text)} → Permᴰ xs ys → sorted (pick xs) ≡ sorted (pick ys)
  sorted-pick nil = refl
  sorted-pick (cons {a} {b} {l₁ = s} {l₂ = u} e d) =
      sorted-pick_step a s
      ∙ ap₂ (λ x y. pick_step x y) e (sorted-pick d)
      ∙ sym (sorted-pick_step b u)
  sorted-pick (swap {a} {b} {a' = c} {b' = f} {l = l} e d) =
      sorted-pick_step a (b ∷ l)
      ∙ ap (pick_step a) (sorted-pick_step b l)
      ∙ pick_step_comm a b (sorted (pick l))
      ∙ ap₂ (λ x y. pick_step x (pick_step y (sorted (pick l)))) d e
      ∙ sym (sorted-pick_step c (f ∷ l) ∙ ap (pick_step c) (sorted-pick_step f l))
  sorted-pick (trans d e) = sorted-pick d ∙ sorted-pick e

  -- Where every lookup of a group succeeds, the endpoints without the ingress come in an order
  -- that does not depend on the order in which the map gives their groups.
  pub missing_ingress-shuffled {ℓ} :
      {E : Type ℓ} (xs ys : List (Text × Text))
      → Permᴰ xs ys
      → missing_ingress {E = E} (λ id. ok (perms_of id)) bastion_sg_id xs
        ≡ missing_ingress (λ id. ok (perms_of id)) bastion_sg_id ys
  unfolding missing_ingress
  missing_ingress-shuffled xs ys p =
      rw (check_groups-pick xs) (rw (check_groups-pick ys) (ap ok (sorted-pick p)))
