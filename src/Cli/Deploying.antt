-- ===== src/Cli/Deploying.antt =====
-- `bastion redeploy` (`bastion_redeploy` in src/main.rs, with the command that `run_ssm_redeploy`
-- sends). The lookup, the processes, the test for the file and serde_json are parameters; what a
-- process prints is the text that `from_utf8_lossy` makes of it.
pub mod Issued
use ephemwork.Prelude.{
  ℕ, Bool, true, false, Option, none, some, List, [], ◌∷◌, ◌++◌, Result, ok, err, is_empty,
  if◌then◌else◌,
}
use ephemwork.Text.{Text, codes, trim}
use ephemwork.Provisioner.{InstanceSummary}
use ephemwork.Provisioner.Calls.{Call, ◌>>=◌, ◌>>◌, done}
use ephemwork.Provisioner.Plans.{BastionContext, instance_name}
use ephemwork.Provisioner.Scripts.{redeploy_script}
use ephemwork.Cli.Redeploy.{RedeployError, wait_for_redeploy}

-- What a process ended with.
pub record Output : Type 0 where
  pub success : Bool
  pub stdout : Text
  pub stderr : Text

pub data DeployError : Type 0 where
  no_bastion build_failed binary_not_found upload_failed empty_command_id : DeployError
  send_failed : Text → DeployError

abbrev pub binary_path : Text
binary_path = codes "target/aarch64-unknown-linux-musl/release/ephemwork-bastion-server"

abbrev pub build_command : List Text
build_command =
    codes "cargo"
    ∷ codes "zigbuild"
    ∷ codes "--release"
    ∷ codes "--target"
    ∷ codes "aarch64-unknown-linux-musl"
    ∷ codes "-p"
    ∷ codes "ephemwork-bastion-server"
    ∷ []

unfoldable pub upload_command : Text → List Text
upload_command s3_uri = codes "aws" ∷ codes "s3" ∷ codes "cp" ∷ binary_path ∷ s3_uri ∷ []

-- `to_json` is `serde_json::to_string` on a list of texts.
unfoldable pub send_command : (List Text → Text) → Text → Text → Text → List Text
send_command to_json region instance_id script =
    codes "aws"
    ∷ codes "ssm"
    ∷ codes "send-command"
    ∷ codes "--region"
    ∷ region
    ∷ codes "--instance-ids"
    ∷ instance_id
    ∷ codes "--document-name"
    ∷ codes "AWS-RunShellScript"
    ∷ codes "--parameters"
    ∷ (codes "commands=" ++ to_json (script ∷ []))
    ∷ codes "--query"
    ∷ codes "Command.CommandId"
    ∷ codes "--output"
    ∷ codes "text"
    ∷ []

module _ {ℓ κ} {S : Type ℓ} {E : Type κ} (find : Text → Call S E (Option InstanceSummary))
    (command : List Text → Call S E Output) (exists : Text → S → Bool) (to_json : List Text → Text)
    (fail : DeployError → E) where
  unfoldable pub ok_or_fail {μ} : {A : Type μ} → DeployError → Option A → Call S E A
  ok_or_fail e none = done (err (fail e))
  ok_or_fail e (some a) = done (ok a)

  unfoldable pub expect_success : DeployError → Bool → Call S E (Unit {0})
  expect_success e success = done (if success then ok tt else err (fail e))

  unfoldable pub build_unless : Bool → Call S E (Unit {0})
  unfolding expect_success
  build_unless true = done (ok tt)
  build_unless false = do out ← command build_command; expect_success build_failed out.success

  unfoldable pub require_binary : Call S E (Unit {0})
  unfolding expect_success
  require_binary s = expect_success binary_not_found (exists binary_path s) s

  unfoldable pub upload : Text → Call S E (Unit {0})
  unfolding expect_success upload_command
  upload s3_uri = do out ← command (upload_command s3_uri); expect_success upload_failed out.success

  -- The id of the command that was sent.
  unfoldable pub send_redeploy : Text → Text → Text → Call S E Text
  unfolding expect_success send_command
  send_redeploy region instance_id script = do
    send ← command (send_command to_json region instance_id script)
    expect_success (send_failed (trim send.stderr)) send.success
    done
        (if is_empty (trim send.stdout) then err (fail empty_command_id) else ok (trim send.stdout))

  -- The calls before the wait: what is sent on is the command's id.
  unfoldable pub deploy : BastionContext → Text → Bool → Text → Call S E Text
  unfolding ok_or_fail build_unless require_binary upload send_redeploy
  deploy ctx region skip_build s3_uri = do
    found ← find (instance_name ctx)
    bastion ← ok_or_fail no_bastion found
    build_unless skip_build
    require_binary
    upload s3_uri
    send_redeploy region bastion.instance_id (redeploy_script s3_uri)

  -- Then the wait, on a clock and what the polls for the command answer, of so many polls at most.
  unfoldable pub bastion_redeploy :
      (ℕ → ℕ)
      → (Text → ℕ → Option Text)
      → ℕ
      → BastionContext
      → Text
      → Bool
      → Text
      → Call S E (Option (Result RedeployError (Unit {0})))
  unfolding deploy
  bastion_redeploy clock answers polls ctx region skip_build s3_uri = do
    cmd_id ← deploy ctx region skip_build s3_uri
    done (ok (wait_for_redeploy clock (answers cmd_id) polls))
