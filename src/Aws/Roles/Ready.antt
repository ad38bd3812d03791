-- ===== src/Aws/Roles/Ready.antt =====
-- What stands in IAM after the role was ensured.
use ephemwork.Prelude.{
  ◌≡◌, refl, sym, ap, ap₂, ◌∙◌, inl, inr, Bool, true, false, List, [], ◌∷◌, Result, ok,
  if◌then◌else◌, any, ◌||◌, fun_ext,
}
use ephemwork.Text.{Text, same}
use ephemwork.Provisioner.Calls.{after}
use ephemwork.Provisioner.Plans.{
  BastionContext, iam_role_name, iam_instance_profile_name, managed_policy_arns,
}
use ephemwork.Aws.Roles.{
  Lookup, Iam, exists_of, iam_role_exists, instance_profile_exists, role_unless, attach_each,
  profile_unless, ensure_iam_role,
}
use ephemwork.Aws.Roles.Effects.{
  Holdings, Tells, Documented, with_policies, policies_step, with_member, role_step, profile_step,
  rest_steps, Post, then-Post, then-Turns, ok_same,
}

or_false : (a : Bool) → (a || false) ≡ a
or_false true = refl
or_false false = refl

or_assoc : (a b c : Bool) → ((a || (b || false)) || c) ≡ (a || (b || c))
or_assoc true b c = refl
or_assoc false true c = refl
or_assoc false false c = refl

one_more :
    (h : Holdings) (arn t : Text)
    → (h.policies t || same t arn) ≡ with_policies (arn ∷ []) h.policies t
one_more h arn t = ap (λ b. h.policies t || b) (sym (or_false (same t arn)))

module _ {ℓ κ} {S : Type ℓ} {E : Type κ} (view : S → Holdings) (p : Iam S E) (ctx : BastionContext)
    (d : Documented view p ctx) where
  abbrev TellsSo : (Holdings → Bool) → Holdings → Bool → Holdings → Type 0
  TellsSo part h b g = (g ≡ h) × (b ≡ part h)

  told :
      (part : Holdings → Bool) (lookup : S → S × Lookup E)
      → Tells view part lookup
      → Post view (TellsSo part) (λ s. ((lookup s).0, exists_of (lookup s).1))
  unfolding exists_of
  told part lookup tells s b h = elim (tells s).1 [
    | inl (e, q) ↦
        let k : ◌≡◌ {A = Result E Bool} (ok true) (ok b) = ap exists_of (sym e) ∙ h in
        ((tells s).0, sym (ok_same true b k) ∙ sym q)
    | inr (inl (e, q)) ↦
        let k : ◌≡◌ {A = Result E Bool} (ok false) (ok b) = ap exists_of (sym e) ∙ h in
        ((tells s).0, sym (ok_same false b k) ∙ sym q)
    | inr (inr (x, e)) ↦ absurd (cc (ap exists_of (sym e) ∙ h))
  ]

  with_policies-ext :
      (f g : Text → Bool) (h : Holdings)
      → ((t : Text) → f t ≡ g t)
      → ◌≡◌ {A = Holdings} (record h { policies = f }) (record h { policies = g })
  with_policies-ext f g h e = ap {B = Holdings} (λ x. record h { policies = x }) (fun_ext e)

  policies_step-nil : (h : Holdings) → policies_step [] h ≡ h
  policies_step-nil h =
      with_policies-ext (with_policies [] h.policies) h.policies h (λ t. or_false (h.policies t))

  policies_step-cons :
      (arn : Text) (arns : List Text) (h : Holdings)
      → policies_step arns (policies_step (arn ∷ []) h) ≡ policies_step (arn ∷ arns) h
  policies_step-cons arn arns h =
      with_policies-ext (with_policies arns (with_policies (arn ∷ []) h.policies))
        (with_policies (arn ∷ arns) h.policies) h
        (λ t. or_assoc (h.policies t) (same t arn) (any (same t) arns))

  attach_each-Post :
      (arns : List Text)
      → Post view (λ h u g. g ≡ policies_step arns h) (attach_each p (iam_role_name ctx) arns)
  unfolding attach_each
  attach_each-Post [] s u h = sym (policies_step-nil (view s))
  attach_each-Post (arn ∷ arns) s u h =
      then-Turns view (policies_step (arn ∷ [])) (policies_step arns)
        (p.attach_role_policy (iam_role_name ctx) arn) (λ _. attach_each p (iam_role_name ctx) arns)
        (λ t a e.
          d.attaches arn t e ∙ with_policies-ext _ _ (view t) (λ x. one_more (view t) arn x))
        (λ a. attach_each-Post arns) s u h
      ∙ policies_step-cons arn arns (view s)

  role_unless-Post :
      (b : Bool) → Post view (λ h u g. g ≡ role_step b h) (role_unless p b (iam_role_name ctx))
  unfolding role_unless
  role_unless-Post true s u h = refl
  role_unless-Post false s u h = d.creates_role s h

  profile_unless-Post :
      (b : Bool)
      → Post view
          (λ h u g. g ≡ profile_step b h)
          (profile_unless p b (iam_instance_profile_name ctx) (iam_role_name ctx))
  unfolding profile_unless
  profile_unless-Post true s u h = refl
  profile_unless-Post false s u h =
      then-Turns view (λ x. record x { profile = true; member = false }) with_member
        (p.create_instance_profile (iam_instance_profile_name ctx))
        (λ _. p.add_role_to_instance_profile (iam_instance_profile_name ctx) (iam_role_name ctx))
        (λ t a e. d.creates_profile t e) (λ a t b e. d.adds t e) s u h

  -- The profile's part.
  profiled-Post :
      Post view
        (λ h u g. g ≡ profile_step h.profile h)
        (λ s.
          after
            (instance_profile_exists p (iam_instance_profile_name ctx) s)
            (λ b. profile_unless p b (iam_instance_profile_name ctx) (iam_role_name ctx)))
  unfolding instance_profile_exists
  profiled-Post s u h =
      let (b, m, (r, told_b), q) =
        then-Post view (TellsSo (λ x. x.profile)) (λ b m u g. g ≡ profile_step b m)
          (instance_profile_exists p (iam_instance_profile_name ctx))
          (λ b. profile_unless p b (iam_instance_profile_name ctx) (iam_role_name ctx))
          (told (λ x. x.profile) (p.get_instance_profile (iam_instance_profile_name ctx))
            d.gets_profile)
          profile_unless-Post s u h in
      q ∙ ap₂ profile_step told_b r

  -- The policies' part and the profile's.
  attached-Post :
      Post view
        (λ h u g. g ≡ rest_steps h)
        (λ s. after (attach_each p (iam_role_name ctx) managed_policy_arns s) (λ _ t.
          after
            (instance_profile_exists p (iam_instance_profile_name ctx) t)
            (λ b. profile_unless p b (iam_instance_profile_name ctx) (iam_role_name ctx))))
  attached-Post =
      then-Turns view (policies_step managed_policy_arns) (λ m. profile_step m.profile m)
        (attach_each p (iam_role_name ctx) managed_policy_arns)
        (λ _ t.
          after (instance_profile_exists p (iam_instance_profile_name ctx) t)
            (λ b. profile_unless p b (iam_instance_profile_name ctx) (iam_role_name ctx)))
        (attach_each-Post managed_policy_arns) (λ v. profiled-Post)

  -- All parts.
  all-Post : Post view (λ h u g. g ≡ rest_steps (role_step h.role h)) (ensure_iam_role p ctx)
  unfolding ensure_iam_role iam_role_exists
  all-Post s u h =
      let (b, m, (r, told_b), q) =
        then-Post view (TellsSo (λ x. x.role)) (λ b m u g. g ≡ rest_steps (role_step b m))
          (iam_role_exists p (iam_role_name ctx))
          (λ b t. after (role_unless p b (iam_role_name ctx) t) (λ _ v.
            after (attach_each p (iam_role_name ctx) managed_policy_arns v) (λ _ w.
              after (instance_profile_exists p (iam_instance_profile_name ctx) w)
                (λ b. profile_unless p b (iam_instance_profile_name ctx) (iam_role_name ctx)))))
          (told (λ x. x.role) (p.get_role (iam_role_name ctx)) d.gets_role)
          (λ b.
            then-Turns view (role_step b) rest_steps (role_unless p b (iam_role_name ctx)) _
              (role_unless-Post b) (λ v. attached-Post))
          s u h in
      q ∙ ap₂ (λ c x. rest_steps (role_step c x)) told_b r

  -- What is held after the role was ensured.
  abbrev pub ensured : Holdings → Holdings
  ensured h = record {
    role = true;
    policies = with_policies managed_policy_arns h.policies;
    profile = true;
    member = if h.profile then h.member else true;
  }

  steps-ensured :
      (role : Bool) (policies : Text → Bool) (profile member : Bool)
      → let h : Holdings = record {
        role = role;
        policies = policies;
        profile = profile;
        member = member;
      } in
        rest_steps (role_step role h) ≡ ensured h
  steps-ensured true policies true member = refl
  steps-ensured true policies false member = refl
  steps-ensured false policies true member = refl
  steps-ensured false policies false member = refl

  -- Where the calls have their documented effects, a success of ensure_iam_role leaves the role
  -- there, attached to it exactly the policies of before and the managed ones, and the profile
  -- there; the role is in the profile where the profile was not there before, and else just if it
  -- was in it before.
  pub ensure_iam_role-ready :
      (s : S)
      → (ensure_iam_role p ctx s).1 ≡ ok tt
      → view (ensure_iam_role p ctx s).0 ≡ ensured (view s)
  ensure_iam_role-ready s h =
      all-Post s tt h
      ∙ steps-ensured (view s).role (view s).policies (view s).profile (view s).member
