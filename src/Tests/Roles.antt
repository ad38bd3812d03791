-- ===== src/Tests/Roles.antt =====
-- Runs of the calls that ensure the role of the bastion, of a guarded init, and of the search for
-- endpoints without ingress.
use ephemwork.Prelude.{
  ◌≡◌, ◌⊎◌, List, some, refl, inl, inr, Bool, true, false, Bool-cases, [], ◌∷◌, Result, ok, err,
  if◌then◌else◌, ◌||◌, ◌&&◌, not,
}
use ephemwork.Text.{Text, codes, same}
use ephemwork.Provisioner.Plans.{BastionContext, SecurityGroupPlan, LaunchPlan}
use ephemwork.Provisioner.{InitOutcome, run_init}
use ephemwork.Provisioner.Calls.{Call}
use ephemwork.Provisioner.DryRun.{PlanLogger, plan_logger, new}
use mathlib.Core.List.Permᴰ.{swap}
use ephemwork.Aws.{IpPermission, VpcError}
use ephemwork.Aws.Endpoints.{missing_ingress}
use ephemwork.Aws.Endpoints.Shuffled.{missing_ingress-shuffled}
use ephemwork.Cli.{init_live}
use ephemwork.Cli.Init.{init_live-guarded}
use ephemwork.Aws.Roles.{
  Lookup, found, no_such_entity, Iam, ensure_iam_role, iam_role_exists, exists_of, role_unless,
  attach_each, instance_profile_exists, profile_unless,
}
use ephemwork.Aws.Roles.Effects.{Holdings, Documented}
use ephemwork.Aws.Roles.Ready.{ensured, ensure_iam_role-ready}

abbrev shop : BastionContext
shop = record { project_name = codes "shop" }

abbrev lookup_of : Bool → Lookup Text
lookup_of b = if b then found else no_such_entity

-- The client of an account with this one project.
abbrev account : Iam Holdings Text
account = record {
  get_role = λ name h. (h, lookup_of h.role);
  get_instance_profile = λ name h. (h, lookup_of h.profile);
  create_role = λ name h. (record h { role = true }, ok tt);
  delete_role = λ name h. (record h { role = false }, ok tt);
  attach_role_policy =
      λ name arn h. (record h { policies = λ t. h.policies t || same t arn }, ok tt);
  detach_role_policy =
      λ name arn h. (record h { policies = λ t. h.policies t && not (same t arn) }, ok tt);
  create_instance_profile = λ name h. (record h { profile = true; member = false }, ok tt);
  delete_instance_profile = λ name h. (record h { profile = false; member = false }, ok tt);
  add_role_to_instance_profile = λ name role h. (record h { member = true }, ok tt);
  remove_role_from_instance_profile = λ name role h. (record h { member = false }, ok tt);
}

account-Documented : Documented (λ h. h) account shop
account-Documented = record {
  gets_role = λ h. (
    refl,
    elim (Bool-cases h.role) [
      | inl yes_ ↦ inl (rw yes_ refl, yes_)
      | inr no_ ↦ inr (inl (rw no_ refl, no_))
    ],
  );
  gets_profile = λ h. (
    refl,
    elim (Bool-cases h.profile) [
      | inl yes_ ↦ inl (rw yes_ refl, yes_)
      | inr no_ ↦ inr (inl (rw no_ refl, no_))
    ],
  );
  creates_role = λ h e. refl;
  attaches = λ arn h e. refl;
  creates_profile = λ h e. refl;
  adds = λ h e. refl;
}

-- A profile that was created by a run that failed before the role was added to it.
abbrev half_made : Holdings
half_made = record { role = true; policies = λ t. false; profile = true; member = false }

ensures : (ensure_iam_role account shop half_made).1 ≡ ok tt
unfolding ensure_iam_role iam_role_exists exists_of role_unless attach_each instance_profile_exists
    profile_unless
ensures = refl

ensure_iam_role-ready_example :
    (ensure_iam_role account shop half_made).0
    ≡ ensured (λ h. h) account shop account-Documented half_made
ensure_iam_role-ready_example =
    ensure_iam_role-ready (λ h. h) account shop account-Documented half_made ensures

abbrev group : SecurityGroupPlan
group = record { name = codes "sg"; description = []; ingress = [] }

abbrev no_launch : Text → Result Text LaunchPlan
no_launch sg = err (codes "no image")

abbrev mismatch : VpcError → Text
mismatch e = codes "wrong VPC"

-- Every subnet is in one VPC.
abbrev one_vpc : Text → Call PlanLogger Text Text
one_vpc subnet s = (s, ok (codes "vpc-2"))

abbrev init_run : PlanLogger × Result Text InitOutcome
init_run =
    init_live (plan_logger (λ t. t) Text) mismatch one_vpc (some (codes "vpc-1")) (codes "subnet-1")
      shop group no_launch (new shop)

init_live-guarded_example :
    (((one_vpc (codes "subnet-1") (new shop)).1 ≡ ok (codes "vpc-1"))
      × (init_run
          ≡ run_init
              (plan_logger (λ t. t) Text)
              shop
              group
              no_launch
              (one_vpc (codes "subnet-1") (new shop)).0))
    ⊎ ((init_run.0 ≡ (one_vpc (codes "subnet-1") (new shop)).0) × (e : Text) × (init_run.1 ≡ err e))
init_live-guarded_example =
    init_live-guarded (plan_logger (λ t. t) Text) mismatch one_vpc (codes "vpc-1")
      (codes "subnet-1") shop group no_launch (new shop)

-- Two groups of one service: neither admits the bastion.
abbrev closed_groups : Text → List IpPermission
closed_groups id = []

missing_ingress-shuffled_example :
    missing_ingress {E = Text}
      (λ id. ok (closed_groups id))
      (codes "sg-b")
      ((codes "sg-2", codes "ssm") ∷ (codes "sg-1", codes "ssm") ∷ [])
    ≡ missing_ingress
        (λ id. ok (closed_groups id))
        (codes "sg-b")
        ((codes "sg-1", codes "ssm") ∷ (codes "sg-2", codes "ssm") ∷ [])
missing_ingress-shuffled_example =
    missing_ingress-shuffled closed_groups (codes "sg-b")
      ((codes "sg-2", codes "ssm") ∷ (codes "sg-1", codes "ssm") ∷ [])
      ((codes "sg-1", codes "ssm") ∷ (codes "sg-2", codes "ssm") ∷ []) (swap refl refl)
