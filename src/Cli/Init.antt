-- ===== src/Cli/Init.antt =====
-- `bastion init --live` creates nothing outside the pinned VPC.
use ephemwork.Prelude.{
  ◌≡◌, ◌⊎◌, refl, ap, ◌∙◌, Bool-cases, inl, inr, some, Result, ok, err, Result-cases,
}
use ephemwork.Text.{Text, same}
use ephemwork.Text.Laws.{same_iff}
use ephemwork.Aws.{VpcError, vpc_mismatch, verify_vpc_match}
use ephemwork.Provisioner.{BastionProvisioner, run_init}
use ephemwork.Provisioner.Calls.{Call}
use ephemwork.Provisioner.Plans.{BastionContext, SecurityGroupPlan, LaunchPlan}
use ephemwork.Cli.{matched, guard_vpc, init_live}

module _ {ℓ κ} {S : Type ℓ} {E : Type κ} (p : BastionProvisioner S E) (mismatch : VpcError → E)
    (vpc_id_for_subnet : Text → Call S E Text) where
  -- Where a VPC is pinned, a live init either finds the subnet in it and goes on as `run_init`, or
  -- fails with nothing done but the lookup of the subnet's VPC.
  pub init_live-guarded :
      (expected subnet_id : Text) (ctx : BastionContext) (sg_plan : SecurityGroupPlan)
      (launch_plan_for : Text → Result E LaunchPlan) (s : S)
      → let out =
          init_live p mismatch vpc_id_for_subnet
            (some expected)
            subnet_id
            ctx
            sg_plan
            launch_plan_for
            s in
        (((vpc_id_for_subnet subnet_id s).1 ≡ ok expected)
          × (out ≡ run_init p ctx sg_plan launch_plan_for (vpc_id_for_subnet subnet_id s).0))
        ⊎ ((out.0 ≡ (vpc_id_for_subnet subnet_id s).0) × (e : E) × (out.1 ≡ err e))
  unfolding init_live guard_vpc matched verify_vpc_match
  init_live-guarded expected subnet_id ctx sg_plan launch_plan_for s =
      elim (Result-cases (vpc_id_for_subnet subnet_id s).1) [
        | inl (actual, e) ↦ elim (Bool-cases (same actual expected)) [
          | inl here ↦ inl (e ∙ ap ok ((same_iff actual expected).0 here), rw (e, here) refl)
          | inr other ↦
              inr (rw (e, other) (refl, mismatch (vpc_mismatch subnet_id actual expected), refl))
        ]
        | inr (x, e) ↦ inr (rw e (refl, x, refl))
      ]
