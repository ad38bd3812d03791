-- ===== src/Tests/Deploying.antt =====
-- A run of `bastion redeploy` in which every call succeeds.
use ephemwork.Prelude.{Bool, true, false, Option, some, List, [], ◌∷◌, ok}
use ephemwork.Text.{Text, codes}
use ephemwork.Provisioner.{InstanceSummary}
use ephemwork.Provisioner.DryRun.{dry_instance}
use ephemwork.Provisioner.Calls.{Call}
use ephemwork.Provisioner.Plans.{BastionContext}
use ephemwork.Cli.Deploying.{Output, DeployError, deploy}
use ephemwork.Cli.Deploying.Issued.{IsDeploy, found_in, run_noted, exists_in, deploy-IsDeploy}

abbrev store : BastionContext
store = record { project_name = codes "store" }

abbrev finds : Text → Call (Unit {0}) Text (Option InstanceSummary)
finds name u = (u, ok (some dry_instance))

abbrev succeeds : List Text → Call (Unit {0}) Text Output
succeeds args u = (u, ok (record { success = true; stdout = codes "cmd-1\n"; stderr = [] }))

abbrev is_there : Text → Unit {0} → Bool
is_there path u = true

abbrev first_text : List Text → Text
first_text [] = []
first_text (t ∷ ts) = t

abbrev failure : DeployError → Text
failure e = codes "failed"

deploy-IsDeploy_example :
    IsDeploy finds succeeds is_there first_text failure store
      (codes "eu-west-1")
      false
      (codes "s3://bucket/server")
      tt
      (deploy
        (found_in finds succeeds is_there first_text failure store
          (codes "eu-west-1")
          false
          (codes "s3://bucket/server"))
        (run_noted finds succeeds is_there first_text failure store
          (codes "eu-west-1")
          false
          (codes "s3://bucket/server"))
        (exists_in finds succeeds is_there first_text failure store
          (codes "eu-west-1")
          false
          (codes "s3://bucket/server"))
        first_text
        failure
        store
        (codes "eu-west-1")
        false
        (codes "s3://bucket/server")
        (tt, []))
deploy-IsDeploy_example =
    deploy-IsDeploy finds succeeds is_there first_text failure store (codes "eu-west-1") false
      (codes "s3://bucket/server") tt
