-- ===== src/Cli.antt =====
-- The subcommands (src/main.rs): the guard of `bastion init`, `bastion redeploy` (in Deploying and
-- Redeploy), the diagnosis of `bastion doctor`, and how `up` ends. Printing is not modelled.
pub mod Redeploy
pub mod Deploying
pub mod Init
use ephemwork.Prelude.{
  ℕ, Bool, true, false, not, ◌||◌, Option, none, some, List, [], ◌∷◌, ◌++◌, Result, ok, err,
  is_empty, if◌then◌else◌,
}
use ephemwork.Text.{Text, codes, same}
use ephemwork.Aws.{VpcError, verify_vpc_match, MissingEndpointIngress}
use ephemwork.Provisioner.{BastionProvisioner, InstanceSummary, InitOutcome, run_init}
use ephemwork.Provisioner.Calls.{Call, ◌>>=◌, ◌>>◌, done}
use ephemwork.Provisioner.Plans.{BastionContext, SecurityGroupPlan, LaunchPlan, instance_name}

-- Why `up` stops waiting.
pub data ExitReason : Type 0 where
  ctrl_c sigterm tunnel_died : ExitReason

-- The exit code of `up` after the session was shut down.
unfoldable pub exit_code : ExitReason → ℕ
exit_code ctrl_c = 0
exit_code sigterm = 0
exit_code tunnel_died = 2

module _ {ℓ κ} {S : Type ℓ} {E : Type κ} (p : BastionProvisioner S E) (mismatch : VpcError → E)
    (vpc_id_for_subnet : Text → Call S E Text) where
  unfoldable pub matched : Result VpcError (Unit {0}) → Call S E (Unit {0})
  matched (ok u) = done (ok tt)
  matched (err e) = done (err (mismatch e))

  -- `if let Some(expected_vpc) = .. { .. }`
  unfoldable pub guard_vpc : Option Text → Text → Call S E (Unit {0})
  guard_vpc none subnet_id = done (ok tt)
  guard_vpc (some expected_vpc) subnet_id = do
    actual_vpc ← vpc_id_for_subnet subnet_id
    matched (verify_vpc_match subnet_id actual_vpc expected_vpc)

  -- `bastion init --live`, up to the check of the endpoints, which only prints.
  unfoldable pub init_live :
      Option Text
      → Text
      → BastionContext
      → SecurityGroupPlan
      → (Text → Result E LaunchPlan)
      → Call S E InitOutcome
  init_live expected_vpc_id subnet_id ctx sg_plan launch_plan_for = do
    guard_vpc expected_vpc_id subnet_id
    run_init p ctx sg_plan launch_plan_for

-- What `bastion doctor` finds wrong.
pub data Issue : Type 0 where
  not_provisioned agent_unregistered : Issue
  instance_state agent_status agent_check_failed endpoint_check_failed : Text → Issue
  missing_ingress : ℕ → Issue

-- What `ssm_agent_status` gives: none where the agent never registered.
abbrev pub AgentAnswer : Type 0
AgentAnswer = Result Text (Option Text)

unfoldable pub state_issues : Text → List Issue
state_issues state = if not (same state (codes "running")) then instance_state state ∷ [] else []

unfoldable pub agent_issues : AgentAnswer → List Issue
agent_issues (ok (some ping_status)) =
    if same ping_status (codes "Online") then [] else agent_status ping_status ∷ []
agent_issues (ok none) = agent_unregistered ∷ []
agent_issues (err e) = agent_check_failed e ∷ []

abbrev pub count {ℓ} : {A : Type ℓ} → List A → ℕ
count [] = 0
count (x ∷ xs) = Prim.Native.Nat.suc (count xs)

-- None where `expected_vpc_id` is not set, so that the check is skipped.
unfoldable pub endpoint_issues : Option (Result Text (List MissingEndpointIngress)) → List Issue
endpoint_issues none = []
endpoint_issues (some (ok [])) = []
endpoint_issues (some (ok (m ∷ missing))) = missing_ingress (count (m ∷ missing)) ∷ []
endpoint_issues (some (err e)) = endpoint_check_failed e ∷ []

-- The issues that are printed, and the exit code, from what the three checks answer.
unfoldable pub doctor :
    Option InstanceSummary
    → AgentAnswer
    → Option (Result Text (List MissingEndpointIngress))
    → List Issue × ℕ
doctor none agent endpoints = (not_provisioned ∷ [], 0)
doctor (some instance) agent endpoints =
    let issues = state_issues instance.state ++ (agent_issues agent ++ endpoint_issues endpoints) in
    (issues, if not (is_empty issues) then 1 else 0)
