-- ===== src/Provisioner.antt =====
-- The AWS resources of the bastion (src/bastion_provisioner.rs): the plans, and the order of
-- the calls that `bastion init`, `status` and `destroy` make through the trait
-- `BastionProvisioner`, which is a record of state-passing calls here.
pub mod Calls
pub mod Scripts
pub mod Plans
pub mod DryRun
pub mod Order
use ephemwork.Prelude.{
  Bool, true, false, ◌||◌, Option, none, some, Result, ok, err, [], ◌∷◌, ◌++◌, if◌then◌else◌,
}
use ephemwork.Text.{Text, codes, same}
use Calls.{Call, ◌>>=◌, ◌>>◌, done}
use Plans.{BastionContext, SecurityGroupPlan, LaunchPlan, instance_name}

pub record InstanceSummary : Type 0 where
  pub instance_id : Text
  pub state : Text
  pub private_ip : Option Text
  pub security_group_id : Option Text

-- The trait, for a provisioner of state S whose calls fail with E.
pub record BastionProvisioner {ℓ κ} (S : Type ℓ) (E : Type κ) : Type (ℓ ⊔ κ) where
  pub ensure_security_group : SecurityGroupPlan → Call S E Text
  pub ensure_iam_role : Call S E (Unit {0})
  pub launch_instance : LaunchPlan → Call S E Text
  pub wait_until_running : Text → Call S E (Unit {0})
  pub find_instance_by_name : Text → Call S E (Option InstanceSummary)
  pub terminate_instance : Text → Call S E (Unit {0})
  pub delete_security_group : Text → Call S E (Unit {0})
  pub delete_iam_role : Call S E (Unit {0})

pub record DestroyOutcome : Type 0 where
  pub instance_id : Option Text
  pub security_group_id : Option Text

pub record InitOutcome : Type 0 where
  pub security_group_id : Text
  pub instance_id : Text
  pub reused : Bool

pub record BastionStatus : Type 0 where
  pub instance : Option InstanceSummary

-- `unwrap_or`
abbrev pub unwrap_or : Option Text → Text → Text
unwrap_or none d = d
unwrap_or (some t) d = t

unfoldable pub is_gone : Text → Bool
is_gone state =
    same state (codes "terminated") || same state (codes "shutting-down") || same state []

module _ {ℓ κ} {S : Type ℓ} {E : Type κ} (p : BastionProvisioner S E) where
  -- `if let Some(sg_id) = … { delete_security_group(sg_id)?; }`
  unfoldable pub delete_group : Option Text → Call S E (Unit {0})
  delete_group none = done (ok tt)
  delete_group (some sg_id) = p.delete_security_group sg_id

  unfoldable pub destroy_found : Option InstanceSummary → Call S E DestroyOutcome
  unfolding delete_group
  destroy_found none = done (ok (record { instance_id = none; security_group_id = none }))
  destroy_found (some summary) = do
    p.terminate_instance summary.instance_id
    delete_group summary.security_group_id
    p.delete_iam_role
    done (
        ok (record {
          instance_id = some summary.instance_id;
          security_group_id = summary.security_group_id;
        }))

  unfoldable pub run_destroy : BastionContext → Call S E DestroyOutcome
  run_destroy ctx = do summary ← p.find_instance_by_name (instance_name ctx); destroy_found summary

  unfoldable pub run_status : BastionContext → Call S E BastionStatus
  run_status ctx = do
    instance ← p.find_instance_by_name (instance_name ctx)
    done (ok (record { instance = instance }))

  -- `run_init` from the role on.
  unfoldable pub create : SecurityGroupPlan → (Text → Result E LaunchPlan) → Call S E InitOutcome
  create sg_plan launch_plan_for = do
    p.ensure_iam_role
    sg_id ← p.ensure_security_group sg_plan
    plan ← done (launch_plan_for sg_id)
    instance_id ← p.launch_instance plan
    p.wait_until_running instance_id
    done (ok (record { security_group_id = sg_id; instance_id = instance_id; reused = false }))

  unfoldable pub reuse : InstanceSummary → InitOutcome
  reuse existing = record {
    security_group_id = unwrap_or existing.security_group_id [];
    instance_id = existing.instance_id;
    reused = true;
  }

  unfoldable pub init_found :
      SecurityGroupPlan
      → (Text → Result E LaunchPlan)
      → Option InstanceSummary
      → Call S E InitOutcome
  init_found sg_plan launch_plan_for none = create sg_plan launch_plan_for
  init_found sg_plan launch_plan_for (some existing) =
      if is_gone existing.state then create sg_plan launch_plan_for else done (ok (reuse existing))

  unfoldable pub run_init :
      BastionContext → SecurityGroupPlan → (Text → Result E LaunchPlan) → Call S E InitOutcome
  run_init ctx sg_plan launch_plan_for = do
    existing ← p.find_instance_by_name (instance_name ctx)
    init_found sg_plan launch_plan_for existing

unfoldable pub render_bastion_status : BastionStatus → BastionContext → Text
render_bastion_status status ctx = elim status.instance [
  | none ↦
      codes "no bastion found (no instance tagged Name="
      ++ (instance_name ctx
          ++ codes ").\nrun `ephemwork bastion init --live ...` to provision one.")
  | some s ↦
      codes "bastion: "
      ++ (s.instance_id
          ++ (codes "  state="
              ++ (s.state
                  ++ (codes "  private_ip="
                      ++ (unwrap_or s.private_ip (codes "?")
                          ++ (codes "  sg="
                              ++ (unwrap_or s.security_group_id (codes "?")
                                  ++ codes
                                      "\n(active sessions live in /var/lib/ephemwork/registry.json on the bastion)")))))))
]
