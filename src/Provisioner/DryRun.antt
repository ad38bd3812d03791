-- ===== src/Provisioner/DryRun.antt =====
-- The provisioner of a run without `--live`: it logs what would be done and calls nothing.
use ephemwork.Prelude.{
  Bool, false, none, some, List, [], ◌∷◌, ◌++◌, ◌≡◌, refl, Result, ok, length, if◌then◌else◌,
}
use ephemwork.Text.{Text, codes}
use ephemwork.Text.Decimal.{decimal}
use ephemwork.BTreeMap.{get}
use ephemwork.Provisioner.{
  BastionProvisioner, InstanceSummary, run_init, init_found, create, unwrap_or,
}
use ephemwork.Provisioner.Calls.{Call}
use ephemwork.Provisioner.Plans.{
  BastionContext, SecurityGroupPlan, LaunchPlan, iam_role_name, iam_instance_profile_name,
  managed_policy_arns,
}

pub record PlanLogger : Type 0 where
  pub log : List Text
  pub ctx : BastionContext
  pub pretend_existing : Bool

unfoldable pub new : BastionContext → PlanLogger
new ctx = record { log = []; ctx = ctx; pretend_existing = false }

-- `self.log.push(entry); Ok(a)`
unfoldable pub logged {ℓ κ} :
    {E : Type ℓ} {A : Type κ} → (PlanLogger → Text) → (PlanLogger → A) → Call PlanLogger E A
logged entry a s = (
  record { log = s.log ++ entry s ∷ []; ctx = s.ctx; pretend_existing = s.pretend_existing },
  ok (a s),
)

abbrev pub dry_instance : InstanceSummary
dry_instance = record {
  instance_id = codes "i-DRYRUN";
  state = codes "running";
  private_ip = some (codes "10.0.0.42");
  security_group_id = some (codes "sg-DRYRUN");
}

-- `quoted` is `{:?}` on a text, whose escapes are Unicode tables of the standard library.
module _ {ℓ} (quoted : Text → Text) (E : Type ℓ) where
  unfoldable pub plan_logger : BastionProvisioner PlanLogger E
  plan_logger = record {
    ensure_security_group = λ plan.
        logged
          (λ s.
            codes "[plan] ensure security group "
            ++ (quoted plan.name
                ++ (codes " with " ++ (decimal (length plan.ingress) ++ codes " ingress rule(s)"))))
          (λ s. codes "sg-DRYRUN");
    ensure_iam_role =
        logged
          (λ s.
            codes "[plan] ensure IAM role "
            ++ (quoted (iam_role_name s.ctx)
                ++ (codes " + instance profile "
                    ++ (quoted (iam_instance_profile_name s.ctx)
                        ++ (codes " with "
                            ++ (decimal (length managed_policy_arns)
                                ++ codes " managed policies"))))))
          (λ s. tt);
    launch_instance = λ plan.
        logged
          (λ s.
            codes "[plan] launch "
            ++ (plan.instance_type
                ++ (codes " in "
                    ++ (plan.region
                        ++ (codes " (subnet "
                            ++ (plan.subnet_id
                                ++ (codes ", ami "
                                    ++ (plan.ami_id
                                        ++ (codes ") tagged Name="
                                            ++ unwrap_or (get (codes "Name") plan.tags)
                                                (codes "?"))))))))))
          (λ s. codes "i-DRYRUN");
    wait_until_running =
        λ id. logged (λ s. codes "[plan] wait until " ++ (id ++ codes " is running")) (λ s. tt);
    find_instance_by_name = λ name.
        logged (λ s. codes "[plan] look up instance tagged Name=" ++ name)
          (λ s. if s.pretend_existing then some dry_instance else none);
    terminate_instance = λ id. logged (λ s. codes "[plan] terminate instance " ++ id) (λ s. tt);
    delete_security_group =
        λ id. logged (λ s. codes "[plan] delete security group " ++ id) (λ s. tt);
    delete_iam_role =
        logged
          (λ s.
            codes "[plan] delete IAM role "
            ++ (iam_role_name s.ctx
                ++ (codes " + instance profile " ++ iam_instance_profile_name s.ctx)))
          (λ s. tt);
  }

  -- A dry run over a launch plan that can be built: it succeeds with the placeholder
  -- identifiers, and logs five lines.
  pub run_init-plan_logger :
      (ctx : BastionContext) (sg_plan : SecurityGroupPlan)
      (launch_plan_for : Text → Result E LaunchPlan) (plan : LaunchPlan)
      → launch_plan_for (codes "sg-DRYRUN") ≡ ok plan
      → let run = run_init plan_logger ctx sg_plan launch_plan_for (new ctx) in
        (run.1
          ≡ ok (record {
            security_group_id = codes "sg-DRYRUN";
            instance_id = codes "i-DRYRUN";
            reused = false;
          }))
        × (length run.0.log ≡ 5)
  unfolding run_init init_found create plan_logger logged new
  run_init-plan_logger ctx sg_plan launch_plan_for plan h = rw h (refl, refl)
