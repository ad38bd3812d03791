-- ===== src/Aws/Roles/Effects.antt =====
-- What the calls of the IAM client do to what IAM holds for a project, and calls in sequence.
use ephemwork.Prelude.{
  ◌≡◌, refl, sym, ap, subst, ◌∙◌, ◌⊎◌, Bool, true, false, List, Result, ok, err, if◌then◌else◌, any,
  ◌||◌,
}
use ephemwork.Text.{Text, same}
use ephemwork.Provisioner.Calls.{Call, after}
use ephemwork.Provisioner.Plans.{
  BastionContext, iam_role_name, iam_instance_profile_name, managed_policy_arns,
}
use ephemwork.Aws.Roles.{Lookup, found, no_such_entity, refused, Iam}

-- What IAM holds for a project: its role, which policies are attached to it, its instance profile, and
-- whether the role is in the profile.
pub record Holdings : Type 0 where
  pub role : Bool
  pub policies : Text → Bool
  pub profile : Bool
  pub member : Bool

-- A lookup changes nothing and tells what is there.
abbrev pub Tells {ℓ κ} :
    {S : Type ℓ} {E : Type κ}
    → (S → Holdings)
    → (Holdings → Bool)
    → (S → S × Lookup E)
    → Type (ℓ ⊔ κ)
Tells {S} {E} view part lookup =
    (s : S)
    → (view (lookup s).0 ≡ view s)
      × (((lookup s).1 ≡ found) × (part (view s) ≡ true)
          ⊎ (((lookup s).1 ≡ no_such_entity) × (part (view s) ≡ false)
              ⊎ (e : E) × ((lookup s).1 ≡ refused e)))

-- A call that succeeds has this effect.
abbrev pub Does {ℓ κ} :
    {S : Type ℓ} {E : Type κ}
    → (S → Holdings)
    → (Holdings → Holdings)
    → Call S E (Unit {0})
    → Type (ℓ ⊔ κ)
Does {S} view effect call = (s : S) → (call s).1 ≡ ok tt → view (call s).0 ≡ effect (view s)

-- The documented effects of the calls, at the names of the project.
pub record Documented {ℓ κ} {S : Type ℓ} {E : Type κ} (view : S → Holdings) (p : Iam S E)
    (ctx : BastionContext) : Type (ℓ ⊔ κ) where
  pub gets_role : Tells view (λ h. h.role) (p.get_role (iam_role_name ctx))
  pub gets_profile :
      Tells view (λ h. h.profile) (p.get_instance_profile (iam_instance_profile_name ctx))
  pub creates_role : Does view (λ h. record h { role = true }) (p.create_role (iam_role_name ctx))
  pub attaches :
      (arn : Text)
      → Does view
          (λ h. record h { policies = λ t. h.policies t || same t arn })
          (p.attach_role_policy (iam_role_name ctx) arn)
  pub creates_profile :
      Does view
        (λ h. record h { profile = true; member = false })
        (p.create_instance_profile (iam_instance_profile_name ctx))
  pub adds :
      Does view
        (λ h. record h { member = true })
        (p.add_role_to_instance_profile (iam_instance_profile_name ctx) (iam_role_name ctx))

-- The policies of a list together with those that are attached; to attach one again changes
-- nothing.
abbrev pub with_policies : List Text → (Text → Bool) → Text → Bool
with_policies arns held t = held t || any (same t) arns

-- What each part of the function makes of what is held.
abbrev pub policies_step : List Text → Holdings → Holdings
policies_step arns h = record h { policies = with_policies arns h.policies }

abbrev pub with_member : Holdings → Holdings
with_member h = record h { member = true }

abbrev pub role_step : Bool → Holdings → Holdings
role_step b h = if b then h else record h { role = true }

abbrev pub profile_step : Bool → Holdings → Holdings
profile_step b h = if b then h else record h { profile = true; member = true }

abbrev pub rest_steps : Holdings → Holdings
rest_steps h = profile_step h.profile (policies_step managed_policy_arns h)

after-ok {ℓ κ μ ν} :
    {S : Type ℓ} {E : Type κ} {A : Type μ} {B : Type ν} (t : S) (r : Result E A)
    (f : A → Call S E B) (b : B)
    → (after (t, r) f).1 ≡ ok b
    → (a : A) × (r ≡ ok a) × (after (t, r) f ≡ f a t)
after-ok t (ok a) f b h = (a, refl, refl)
after-ok t (err x) f b h = absurd (cc)

-- A call that succeeds relates what was held before, its result, and what is held then.
abbrev pub Post {ℓ κ μ ρ} :
    {S : Type ℓ} {E : Type κ} {A : Type μ}
    → (S → Holdings)
    → (Holdings → A → Holdings → Type ρ)
    → Call S E A
    → Type (ℓ ⊔ κ ⊔ μ ⊔ ρ)
Post {S} {A = A} view R call = (s : S) (a : A) → (call s).1 ≡ ok a → R (view s) a (view (call s).0)

pub then-Post {ℓ κ μ ν ρ σ} :
    {S : Type ℓ} {E : Type κ} {A : Type μ} {B : Type ν} (view : S → Holdings)
    (R : Holdings → A → Holdings → Type ρ) (Q : A → Holdings → B → Holdings → Type σ)
    (call : Call S E A) (f : A → Call S E B)
    → Post view R call
    → ((a : A) → Post view (Q a) (f a))
    → Post view (λ h b g. (a : A) × (m : Holdings) × R h a m × Q a m b g) (λ s. after (call s) f)
then-Post view R Q call f pr pq s b h =
    let (a, e, g) = after-ok (call s).0 (call s).1 f b h in
    (
      a,
      view (call s).0,
      pr s a e,
      subst (λ x. Q a (view (call s).0) b (view x.0)) (sym g)
          (pq a (call s).0 b (ap (λ x. x.1) (sym g) ∙ h)),
    )

-- A call that succeeds has this effect, whatever it gives.
abbrev pub Turns {ℓ κ μ} :
    {S : Type ℓ} {E : Type κ} {A : Type μ}
    → (S → Holdings)
    → (Holdings → Holdings)
    → Call S E A
    → Type (ℓ ⊔ κ ⊔ μ)
Turns view effect call = Post view (λ h a g. g ≡ effect h) call

pub then-Turns {ℓ κ μ ν} :
    {S : Type ℓ} {E : Type κ} {A : Type μ} {B : Type ν} (view : S → Holdings)
    (one two : Holdings → Holdings) (call : Call S E A) (f : A → Call S E B)
    → Turns view one call
    → ((a : A) → Turns view two (f a))
    → Turns view (λ h. two (one h)) (λ s. after (call s) f)
then-Turns view one two call f first second s b h =
    let (a, m, r, q) =
      then-Post view (λ h a g. g ≡ one h) (λ a h b g. g ≡ two h) call f first second s b h in
    q ∙ ap two r

pub ok_same {κ} : {E : Type κ} (a b : Bool) → ◌≡◌ {A = Result E Bool} (ok a) (ok b) → a ≡ b
ok_same a b h = cc (h)
