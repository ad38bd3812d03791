-- ===== src/Provisioner/Order.antt =====
-- The order of the calls, for any provisioner and whatever its calls answer.
use ephemwork.Prelude.{
  true, false, ◌≡◌, refl, Option, none, some, inl, inr, ◌⊎◌, List, [], ◌∷◌, ◌++◌, Result, ok, err,
  arith, Option-cases, Bool-cases, Result-cases, sym, append-nil, append_assoc,
}
use ephemwork.Text.{Text}
use ephemwork.Provisioner.{
  BastionProvisioner, InstanceSummary, InitOutcome, DestroyOutcome, run_init, init_found, create,
  run_destroy, destroy_found, delete_group, is_gone, reuse,
}
use ephemwork.Provisioner.Calls.{after, noted, noted-elim, IsPrefix}
use ephemwork.Provisioner.Plans.{BastionContext, SecurityGroupPlan, LaunchPlan, instance_name}

-- The calls of the trait.
pub data Op : Type 0 where
  find role group launch wait terminate group_deletion role_deletion : Op

abbrev pub traced {ℓ κ} :
    {S : Type ℓ} {E : Type κ} → BastionProvisioner S E → BastionProvisioner (S × List Op) E
traced p = record {
  ensure_security_group = λ plan. noted group (p.ensure_security_group plan);
  ensure_iam_role = noted role p.ensure_iam_role;
  launch_instance = λ plan. noted launch (p.launch_instance plan);
  wait_until_running = λ id. noted wait (p.wait_until_running id);
  find_instance_by_name = λ name. noted find (p.find_instance_by_name name);
  terminate_instance = λ id. noted terminate (p.terminate_instance id);
  delete_security_group = λ id. noted group_deletion (p.delete_security_group id);
  delete_iam_role = noted role_deletion p.delete_iam_role;
}

abbrev pub init_order : List Op
init_order = find ∷ role ∷ group ∷ launch ∷ wait ∷ []

-- What a run of `run_init` may have called. A success has reused an instance after the lookup
-- alone, or has made all calls in order; a failure has stopped somewhere in that order.
unfoldable pub IsInitRun {ℓ κ} :
    {S : Type ℓ} {E : Type κ} → (S × List Op) × Result E InitOutcome → Type 0
IsInitRun ((s, ops), err e) = IsPrefix ops init_order
IsInitRun ((s, ops), ok out) =
    ((out.reused ≡ true) × (ops ≡ find ∷ [])) ⊎ ((out.reused ≡ false) × (ops ≡ init_order))

-- The calls of a teardown with this outcome.
unfoldable pub destroy_order : Option Text → Option Text → List Op
destroy_order none sg = find ∷ []
destroy_order (some id) none = find ∷ terminate ∷ role_deletion ∷ []
destroy_order (some id) (some sg) = find ∷ terminate ∷ group_deletion ∷ role_deletion ∷ []

unfoldable pub IsDestroyRun {ℓ κ} :
    {S : Type ℓ} {E : Type κ} → (S × List Op) × Result E DestroyOutcome → Type 0
IsDestroyRun ((s, ops), err e) = (id sg : Option Text) × IsPrefix ops (destroy_order id sg)
IsDestroyRun ((s, ops), ok out) = ops ≡ destroy_order out.instance_id out.security_group_id

-- The runs that have stopped or ended.
module _ {ℓ κ} {S : Type ℓ} (E : Type κ) where
  init_stops :
      (s : S) (ops rest : List Op) (e : E) → init_order ≡ ops ++ rest → IsInitRun ((s, ops), err e)
  unfolding IsInitRun IsPrefix
  init_stops s ops rest e h = (rest, h)

  init_creates :
      (s : S) (out : InitOutcome) → out.reused ≡ false → IsInitRun {E = E} ((s, init_order), ok out)
  unfolding IsInitRun
  init_creates s out h = inr (h, refl)

  init_reuses :
      (s : S) (out : InitOutcome) → out.reused ≡ true → IsInitRun {E = E} ((s, find ∷ []), ok out)
  unfolding IsInitRun
  init_reuses s out h = inl (h, refl)

  destroy_stops :
      (s : S) (ops rest : List Op) (id sg : Option Text) (e : E)
      → destroy_order id sg ≡ ops ++ rest
      → IsDestroyRun ((s, ops), err e)
  unfolding IsDestroyRun IsPrefix
  destroy_stops s ops rest id sg e h = (id, sg, (rest, h))

  destroy_ends :
      (s : S) (id sg : Option Text)
      → IsDestroyRun {E = E}
          ((s, destroy_order id sg), ok (record { instance_id = id; security_group_id = sg }))
  unfolding IsDestroyRun
  destroy_ends s id sg = refl

module _ {ℓ κ} {S : Type ℓ} {E : Type κ} (p : BastionProvisioner S E) where
  create-IsInitRun :
      (sg_plan : SecurityGroupPlan) (launch_plan_for : Text → Result E LaunchPlan) (s : S)
      → IsInitRun (create (traced p) sg_plan launch_plan_for (s, find ∷ []))
  unfolding create
  create-IsInitRun sg_plan launch_plan_for s =
      noted-elim IsInitRun role p.ensure_iam_role s (find ∷ []) _
        (λ t e. init_stops E t (find ∷ role ∷ []) (group ∷ launch ∷ wait ∷ []) e refl)
        (λ t _.
          noted-elim IsInitRun group (p.ensure_security_group sg_plan) t (find ∷ role ∷ []) _
            (λ u e. init_stops E u (find ∷ role ∷ group ∷ []) (launch ∷ wait ∷ []) e refl)
            (λ u sg. elim (Result-cases (launch_plan_for sg)) [
              | inr (e, bad) ↦
                  rw bad (init_stops E u (find ∷ role ∷ group ∷ []) (launch ∷ wait ∷ []) e refl)
              | inl (plan, good) ↦ rw good (
                  noted-elim IsInitRun launch (p.launch_instance plan) u (find ∷ role ∷ group ∷ [])
                    _ (λ v e. init_stops E v (find ∷ role ∷ group ∷ launch ∷ []) (wait ∷ []) e refl)
                    (λ v id.
                      noted-elim IsInitRun wait (p.wait_until_running id) v
                        (find ∷ role ∷ group ∷ launch ∷ []) _
                        (λ w e. init_stops E w init_order [] e refl)
                        (λ w _. init_creates E w _ refl)))
            ]))

  init_found-IsInitRun :
      (sg_plan : SecurityGroupPlan) (launch_plan_for : Text → Result E LaunchPlan)
      (found : Option InstanceSummary) (s : S)
      → IsInitRun (init_found (traced p) sg_plan launch_plan_for found (s, find ∷ []))
  unfolding init_found reuse
  init_found-IsInitRun sg_plan launch_plan_for none s = create-IsInitRun sg_plan launch_plan_for s
  init_found-IsInitRun sg_plan launch_plan_for (some existing) s =
      elim (Bool-cases (is_gone existing.state)) [
        | inl gone ↦ rw gone (create-IsInitRun sg_plan launch_plan_for s)
        | inr stays ↦ rw stays (init_reuses E s _ refl)
      ]

  -- Whatever the calls answer, an init that succeeds has either reused an instance and made no
  -- call but the lookup, or has looked up, ensured the role and the group, launched and waited, in
  -- this order and once each; an init that fails has stopped within that order.
  pub run_init-IsInitRun :
      (ctx : BastionContext) (sg_plan : SecurityGroupPlan)
      (launch_plan_for : Text → Result E LaunchPlan) (s : S)
      → IsInitRun (run_init (traced p) ctx sg_plan launch_plan_for (s, []))
  unfolding run_init
  run_init-IsInitRun ctx sg_plan launch_plan_for s =
      noted-elim IsInitRun find (p.find_instance_by_name (instance_name ctx)) s [] _
        (λ t e. init_stops E t (find ∷ []) (role ∷ group ∷ launch ∷ wait ∷ []) e refl)
        (λ t found. init_found-IsInitRun sg_plan launch_plan_for found t)

  destroy_rest-IsDestroyRun :
      (id : Text) (sg : Option Text) (s : S) (ops : List Op)
      → destroy_order (some id) sg ≡ ops ++ role_deletion ∷ []
      → IsDestroyRun (
          after
            (noted role_deletion p.delete_iam_role (s, ops))
            (λ _ t. (t, ok (record { instance_id = some id; security_group_id = sg }))))
  destroy_rest-IsDestroyRun id sg s ops h =
      noted-elim IsDestroyRun role_deletion p.delete_iam_role s ops _
        (λ t e. destroy_stops E t (ops ++ role_deletion ∷ []) [] (some id) sg e (
          ground (
            arith,
            append_assoc ops (role_deletion ∷ []) [],
            append-nil (ops ++ role_deletion ∷ []),
          )))
        (λ t _. rw (sym h) (destroy_ends E t (some id) sg))

  destroy_found-IsDestroyRun :
      (found : Option InstanceSummary) (s : S)
      → IsDestroyRun (destroy_found (traced p) found (s, find ∷ []))
  unfolding destroy_found delete_group destroy_order
  destroy_found-IsDestroyRun none s = destroy_ends E s none none
  destroy_found-IsDestroyRun (some summary) s =
      noted-elim IsDestroyRun terminate (p.terminate_instance summary.instance_id) s (find ∷ []) _
        (λ t e.
          destroy_stops E t (find ∷ terminate ∷ []) (role_deletion ∷ []) (some summary.instance_id)
            none e refl)
        (λ t _. elim (Option-cases summary.security_group_id) [
          | inl none_given ↦
              rw none_given
                (destroy_rest-IsDestroyRun summary.instance_id none t (find ∷ terminate ∷ []) refl)
          | inr (sg, has) ↦ rw has (
              noted-elim IsDestroyRun group_deletion (p.delete_security_group sg) t
                (find ∷ terminate ∷ []) _
                (λ u e.
                  destroy_stops E u (find ∷ terminate ∷ group_deletion ∷ []) (role_deletion ∷ [])
                    (some summary.instance_id) (some sg) e refl)
                (λ u _.
                  destroy_rest-IsDestroyRun summary.instance_id (some sg) u
                    (find ∷ terminate ∷ group_deletion ∷ []) refl))
        ])

  -- Whatever the calls answer, a teardown that succeeds has made exactly the calls of its outcome:
  -- the lookup alone without an instance, and otherwise the termination, the deletion of the group
  -- where there is one, and that of the role, in this order; a teardown that fails has stopped
  -- within such an order.
  pub run_destroy-IsDestroyRun :
      (ctx : BastionContext) (s : S) → IsDestroyRun (run_destroy (traced p) ctx (s, []))
  unfolding run_destroy destroy_order
  run_destroy-IsDestroyRun ctx s =
      noted-elim IsDestroyRun find (p.find_instance_by_name (instance_name ctx)) s [] _
        (λ t e. destroy_stops E t (find ∷ []) [] none none e refl)
        (λ t found. destroy_found-IsDestroyRun found t)
