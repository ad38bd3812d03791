-- ===== src/Cli/Deploying/Issued.antt =====
-- The commands that `bastion redeploy` issues, whatever they answer.
use ephemwork.Prelude.{
  ◌≡◌, ◌⊎◌, inl, inr, refl, sym, ap, subst, ◌∙◌, Bool, true, false, Option, none, some, List, [],
  ◌∷◌, ◌++◌, Result, ok, err, is_empty, if_both, Result-cases, append-nil, append_assoc,
  if◌then◌else◌,
}
use ephemwork.Text.{Text, trim}
use ephemwork.Provisioner.{InstanceSummary}
use ephemwork.Provisioner.Calls.{Call, after, noted, noted-elim, IsPrefix}
use ephemwork.Provisioner.Plans.{BastionContext, instance_name}
use ephemwork.Provisioner.Scripts.{redeploy_script}
use ephemwork.Cli.Deploying.{
  Output, DeployError, binary_path, build_command, upload_command, send_command, ok_or_fail,
  expect_success, build_unless, require_binary, upload, send_redeploy, deploy,
}

abbrev pub Log : Type 0
Log = List (List Text)

module _ {ℓ κ} {S : Type ℓ} {E : Type κ} (find : Text → Call S E (Option InstanceSummary))
    (command : List Text → Call S E Output) (exists : Text → S → Bool) (to_json : List Text → Text)
    (fail : DeployError → E) (ctx : BastionContext) (region : Text) (skip_build : Bool)
    (s3_uri : Text) where
  -- The build where it is not skipped, the upload, and the command to the instance.
  abbrev pub built : Log
  built = if skip_build then [] else build_command ∷ []

  abbrev pub sent : InstanceSummary → List Text
  sent b = send_command to_json region b.instance_id (redeploy_script s3_uri)

  abbrev pub plan : InstanceSummary → Log
  plan b = built ++ (upload_command s3_uri ∷ sent b ∷ [])

  -- The lookup in the state found the bastion.
  abbrev pub Finds : S → InstanceSummary → Type κ
  Finds s b = (find (instance_name ctx) s).1 ≡ ok (some b)

  -- What a run from the state s may have issued: with success the whole plan for the bastion that
  -- was found, and with an error nothing, or a beginning of that plan.
  unfoldable pub IsDeploy : S → (S × Log) × Result E Text → Type κ
  IsDeploy s ((t, log), ok cmd_id) = (b : InstanceSummary) × Finds s b × (log ≡ plan b)
  IsDeploy s ((t, log), err e) =
      (log ≡ []) ⊎ ((b : InstanceSummary) × Finds s b × IsPrefix log (plan b))

  -- The calls that also note the commands.
  abbrev pub found_in : Text → Call (S × Log) E (Option InstanceSummary)
  found_in name (s, log) = let (t, r) = find name s in ((t, log), r)

  abbrev pub run_noted : List Text → Call (S × Log) E Output
  run_noted args = noted args (command args)

  abbrev pub exists_in : Text → S × Log → Bool
  exists_in path st = exists path st.0

  stops :
      (s t : S) (b : InstanceSummary) (log rest : Log) (e : E)
      → Finds s b
      → plan b ≡ log ++ rest
      → IsDeploy s ((t, log), err e)
  unfolding IsDeploy IsPrefix
  stops s t b log rest e found h = inr (b, found, (rest, h))

  ends :
      (s t : S) (b : InstanceSummary) (log : Log) (cmd_id : Text)
      → Finds s b
      → log ≡ plan b
      → IsDeploy s ((t, log), ok cmd_id)
  unfolding IsDeploy
  ends s t b log cmd_id found h = (b, found, h)

  -- After a test, where it fails and where the run goes on.
  expect_success-elim :
      (Q : (S × Log) × Result E Text → Type κ) (e : DeployError) (b : Bool) (st : S × Log)
      (f : Unit {0} → Call (S × Log) E Text)
      → ((x : E) → Q (st, err x))
      → Q (f tt st)
      → Q (after (expect_success found_in run_noted exists_in to_json fail e b st) f)
  unfolding expect_success
  expect_success-elim Q e true st f fails goes = goes
  expect_success-elim Q e false st f fails goes = fails (fail e)

  -- With the whole plan issued but for the last command.
  send_redeploy-IsDeploy :
      (s t : S) (b : InstanceSummary) (log : Log)
      → Finds s b
      → log ++ sent b ∷ [] ≡ plan b
      → IsDeploy s (
          send_redeploy found_in run_noted exists_in to_json fail region b.instance_id
            (redeploy_script s3_uri)
            (t, log))
  unfolding send_redeploy
  send_redeploy-IsDeploy s t b log found h =
      let stopped = λ (u : S) (e : E).
        stops s u b (log ++ sent b ∷ []) [] e found
          (sym h ∙ sym (append-nil (log ++ sent b ∷ []))) in
      noted-elim (IsDeploy s) (sent b) (command (sent b)) t log _ stopped (λ u out.
        expect_success-elim (IsDeploy s) _ out.success _ _ (stopped u) (
          if_both (λ r. IsDeploy s ((u, log ++ sent b ∷ []), r)) (is_empty (trim out.stdout))
            (stopped u _) (ends s u b _ _ found h)))

  -- After the build.
  upload-IsDeploy :
      (s t : S) (b : InstanceSummary)
      → Finds s b
      → IsDeploy s (
          after (upload found_in run_noted exists_in to_json fail s3_uri (t, built)) (λ _.
            send_redeploy found_in run_noted exists_in to_json fail region b.instance_id
              (redeploy_script s3_uri)))
  unfolding upload
  upload-IsDeploy s t b found =
      let up = upload_command s3_uri in
      let assoc = append_assoc built (up ∷ []) (sent b ∷ []) in
      let stopped =
        λ (u : S) (e : E). stops s u b (built ++ up ∷ []) (sent b ∷ []) e found (sym assoc) in
      noted-elim
        (λ r. IsDeploy s (
          after r (λ _.
            send_redeploy found_in run_noted exists_in to_json fail region b.instance_id
              (redeploy_script s3_uri))))
        up (command up) t built _ stopped
        (λ u out.
          expect_success-elim (IsDeploy s) _ out.success _ _ (stopped u)
            (send_redeploy-IsDeploy s u b (built ++ up ∷ []) found assoc))

  -- What comes after the build.
  abbrev from_binary : InstanceSummary → Call (S × Log) E Text
  from_binary b st = after (require_binary found_in run_noted exists_in to_json fail st) (λ _ su.
      after (upload found_in run_noted exists_in to_json fail s3_uri su) (λ _.
        send_redeploy found_in run_noted exists_in to_json fail region b.instance_id
          (redeploy_script s3_uri)))

  from_binary-IsDeploy :
      (s t : S) (b : InstanceSummary) → Finds s b → IsDeploy s (from_binary b (t, built))
  unfolding require_binary
  from_binary-IsDeploy s t b found =
      expect_success-elim (IsDeploy s) _ (exists binary_path t) _ _
        (λ e. stops s t b built (upload_command s3_uri ∷ sent b ∷ []) e found refl)
        (upload-IsDeploy s t b found)

  abbrev built_by : Bool → Log
  built_by skip = if skip then [] else build_command ∷ []

  build_unless-IsDeploy :
      (s t : S) (b : InstanceSummary) (skip : Bool)
      → skip_build ≡ skip
      → Finds s b
      → IsDeploy s (
          after
            (build_unless found_in run_noted exists_in to_json fail skip (t, []))
            (λ _. from_binary b))
  unfolding build_unless
  build_unless-IsDeploy s t b true e found =
      subst (λ log. IsDeploy s (from_binary b (t, log))) (ap built_by e)
        (from_binary-IsDeploy s t b found)
  build_unless-IsDeploy s t b false e found =
      let rest = upload_command s3_uri ∷ sent b ∷ [] in
      let stopped = λ (u : S) (x : E).
        stops s u b (build_command ∷ []) rest x found (ap (λ skip. built_by skip ++ rest) e) in
      noted-elim (λ r. IsDeploy s (after r (λ _. from_binary b))) build_command
        (command build_command) t [] _ stopped
        (λ u out. expect_success-elim (IsDeploy s) _ out.success _ _ (stopped u) (
          subst (λ log. IsDeploy s (from_binary b (u, log))) (ap built_by e)
            (from_binary-IsDeploy s u b found)))

  -- Whatever the calls answer, a deployment that succeeds has issued the build where it is not
  -- skipped, the upload, and the command to the instance that the lookup found, in this order and
  -- once each; one that fails has issued nothing, or a beginning of these.
  pub deploy-IsDeploy :
      (s : S)
      → IsDeploy s
          (deploy found_in run_noted exists_in to_json fail ctx region skip_build s3_uri (s, []))
  unfolding deploy ok_or_fail IsDeploy
  deploy-IsDeploy s = elim (Result-cases (find (instance_name ctx) s).1) [
    | inr (e, bad) ↦ rw bad (inl refl)
    | inl (none, good) ↦ rw good (inl refl)
    | inl (some b, good) ↦
        rw good (build_unless-IsDeploy s (find (instance_name ctx) s).0 b skip_build refl good)
  ]
