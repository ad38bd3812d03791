-- ===== src/Commands/Worker.antt =====
-- A worker's `up` never touches the routing of the bastion.
use ephemwork.Prelude.{
  ℕ, Bool, true, false, not, Option, none, some, inl, inr, List, [], ◌∷◌, Result, ok, err,
  Bool-cases, is_empty, ◌==◌,
}
use ephemwork.Text.{Text}
use ephemwork.Sessions.{Session, State, forward_owner}
use ephemwork.Ssm.{RemoteHostForwardSpec, ForwardPortSpec, SpecError, parse_forward_port_spec}
use ephemwork.Provisioner.{InstanceSummary}
use ephemwork.Provisioner.Calls.{Call, after}
use ephemwork.Provisioner.Plans.{BastionContext, instance_name}
use ephemwork.Commands.{UpRequest}
use ephemwork.Commands.Up.{
  Laptop, failing, if_alive, reuse_of, check_forward_reuse, parsed_spec, free_for, open_forward,
  open_unless, open_forwards, bootstrap, located, locate_bastion, record_up, worker_forwards,
  plugin_if, up_worker, or_zero,
}

-- A call keeps I, whether it fails or not.
abbrev pub Keeps {ℓ κ μ ρ} :
    {S : Type ℓ} {E : Type κ} {A : Type μ} → (S → Type ρ) → Call S E A → Type (ℓ ⊔ ρ)
Keeps {S} I call = (s : S) → I s → I (call s).0

-- What is kept by all calls but those that route: the port forward to the bastion, the
-- registration, the health check and the reverse forward.
pub record KeepsUnrouted {ℓ κ ρ} {S : Type ℓ} {E : Type κ} (I : S → Type ρ) (p : Laptop S E)
    : Type (ℓ ⊔ ρ) where
  pub plugin : Keeps I p.assert_plugin_available
  pub port_free : (n : ℕ) → Keeps I (p.assert_port_free n)
  pub bootstrapped : (cmd : Text) → Keeps I (p.run_bootstrap cmd)
  pub connected : (region : Text) → Keeps I (p.connect region)
  pub found : (name : Text) → Keeps I (p.find_instance_by_name name)
  pub forwarded : (spec : RemoteHostForwardSpec) → Keeps I (p.start_remote_host_forward spec)
  pub waited : (port seconds : ℕ) → Keeps I (p.wait_for_local_port port seconds)
  pub loaded : Keeps I p.load_state
  pub saved : (st : State) → Keeps I (p.save_state st)
  pub probed : (pid : ℕ) → Keeps I (p.pid_is_alive pid)
  pub spawned : (cmd : Text) → Keeps I (p.spawn_service cmd)
  pub told_time : Keeps I p.now

after-keeps {ℓ κ μ ν ρ} :
    {S : Type ℓ} {E : Type κ} {A : Type μ} {B : Type ν} (I : S → Type ρ) (t : S) (r : Result E A)
    (f : A → Call S E B)
    → I t
    → ((a : A) → Keeps I (f a))
    → I (after (t, r) f).0
after-keeps I t (ok a) f i h = h a t i
after-keeps I t (err e) f i h = i

then {ℓ κ μ ν ρ} :
    {S : Type ℓ} {E : Type κ} {A : Type μ} {B : Type ν} (I : S → Type ρ) (call : Call S E A)
    (f : A → Call S E B)
    → Keeps I call
    → ((a : A) → Keeps I (f a))
    → Keeps I (λ s. after (call s) f)
then I call f hc hf s i = after-keeps I (call s).0 (call s).1 f (hc s i) hf

module _ {ℓ κ ρ} {S : Type ℓ} {E : Type κ} (I : S → Type ρ) (p : Laptop S E)
    (k : KeepsUnrouted I p) where
  if_alive-Keeps : (service : Text) (alive : Bool) → Keeps I (if_alive p service alive)
  unfolding if_alive failing
  if_alive-Keeps service true s i = i
  if_alive-Keeps service false s i = i

  reuse_of-Keeps : (owner : Option Session) → Keeps I (reuse_of p owner)
  unfolding reuse_of failing
  reuse_of-Keeps none s i = i
  reuse_of-Keeps (some owner) s i = elim (Bool-cases (or_zero owner.pid == 0)) [
    | inl gone ↦ rw gone i
    | inr there ↦ rw there (
        then I (p.pid_is_alive (or_zero owner.pid)) _ (k.probed (or_zero owner.pid))
          (λ alive. if_alive-Keeps owner.service alive) s i)
  ]

  parsed_spec-Keeps : (r : Result SpecError ForwardPortSpec) → Keeps I (parsed_spec p r)
  unfolding parsed_spec failing
  parsed_spec-Keeps (ok spec) s i = i
  parsed_spec-Keeps (err e) s i = i

  free_for-Keeps : (worker : Bool) (port : ℕ) → Keeps I (free_for p worker port)
  unfolding free_for
  free_for-Keeps true port s i = k.port_free port s i
  free_for-Keeps false port s i = i

  open_unless-Keeps :
      (reused worker : Bool) (req : UpRequest) (target : Text) (spec : ForwardPortSpec)
      → Keeps I (open_unless p reused worker req target spec)
  unfolding open_unless open_forward
  open_unless-Keeps true worker req target spec s i = i
  open_unless-Keeps false worker req target spec s i =
      then I (free_for p worker spec.local_port) _ (free_for-Keeps worker spec.local_port)
        (λ _.
          then I (p.start_remote_host_forward _) _ (k.forwarded _)
            (λ _. k.waited spec.local_port 15))
        s i

  open_forwards-Keeps :
      (worker : Bool) (state : State) (req : UpRequest) (target : Text) (raws : List Text)
      → Keeps I (open_forwards p worker state req target raws)
  unfolding open_forwards check_forward_reuse
  open_forwards-Keeps worker state req target [] s i = i
  open_forwards-Keeps worker state req target (raw ∷ raws) s i =
      then I (parsed_spec p (parse_forward_port_spec raw)) _ (parsed_spec-Keeps _)
        (λ spec.
          then I (reuse_of p (forward_owner req.user spec.local_port state)) _ (reuse_of-Keeps _)
            (λ reused.
              then I (open_unless p reused worker req target spec) _
                (open_unless-Keeps reused worker req target spec)
                (λ _.
                  then I (open_forwards p worker state req target raws) _
                    (open_forwards-Keeps worker state req target raws) (λ ports t j. j))))
        s i

  located-Keeps : (found : Option InstanceSummary) → Keeps I (located p found)
  unfolding located failing
  located-Keeps none s i = i
  located-Keeps (some instance) s i = i

  locate_bastion-Keeps :
      (region : Text) (ctx : BastionContext) → Keeps I (locate_bastion p region ctx)
  unfolding locate_bastion
  locate_bastion-Keeps region ctx s i =
      then I (p.connect region) _ (k.connected region)
        (λ _.
          then I (p.find_instance_by_name (instance_name ctx)) _ (k.found (instance_name ctx))
            located-Keeps)
        s i

  worker_forwards-Keeps :
      (needed : Bool) (req : UpRequest) (ctx : BastionContext)
      → Keeps I (worker_forwards p needed req ctx)
  unfolding worker_forwards
  worker_forwards-Keeps false req ctx s i = i
  worker_forwards-Keeps true req ctx s i =
      then I (locate_bastion p req.region ctx) _ (locate_bastion-Keeps req.region ctx)
        (λ bastion.
          then I p.load_state _ k.loaded
            (λ state. open_forwards-Keeps true state req bastion.instance_id req.forward_ports))
        s i

  plugin_if-Keeps : (needed : Bool) → Keeps I (plugin_if p needed)
  unfolding plugin_if
  plugin_if-Keeps true s i = k.plugin s i
  plugin_if-Keeps false s i = i

  bootstrap-Keeps : (cmd : Option Text) → Keeps I (bootstrap p cmd)
  unfolding bootstrap
  bootstrap-Keeps none s i = i
  bootstrap-Keeps (some cmd) s i = k.bootstrapped cmd s i

  record_up-Keeps :
      (req : UpRequest) (local_port remote_port pid : ℕ) (ports : List ℕ)
      → Keeps I (record_up p req local_port remote_port pid ports)
  unfolding record_up
  record_up-Keeps req local_port remote_port pid ports s i =
      then I p.now _ k.told_time (λ now. then I p.load_state _ k.loaded (λ st. k.saved _)) s i

  -- Whatever is kept by every call but the port forward to the bastion, the registration, the
  -- health check and the reverse forward, is kept by a worker's up, also where it fails.
  pub up_worker-Keeps : (req : UpRequest) (ctx : BastionContext) → Keeps I (up_worker p req ctx)
  unfolding up_worker
  up_worker-Keeps req ctx s i =
      then I (plugin_if p (not (is_empty req.forward_ports))) _ (plugin_if-Keeps _)
        (λ _.
          then I (bootstrap p req.bootstrap_command) _ (bootstrap-Keeps req.bootstrap_command) (λ _.
            then I (worker_forwards p (not (is_empty req.forward_ports)) req ctx) _
              (worker_forwards-Keeps _ req ctx)
              (λ ports.
                then I (p.spawn_service req.run_command) _ (k.spawned req.run_command) (λ pid.
                  then I (record_up p req 0 0 pid ports) _ (record_up-Keeps req 0 0 pid ports)
                    (λ _ t j. j)))))
        s i
