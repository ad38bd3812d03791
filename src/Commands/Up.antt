-- ===== src/Commands/Up.antt =====
-- The steps of `up` (`up_service`, `up_worker` and what they call in src/commands.rs). The
-- processes and the network are the record `Laptop` of state-passing calls. What goes out of scope
-- on an early return is closed by its `Drop`, which is not modelled.
use ephemwork.Prelude.{
  ℕ, Bool, true, false, Option, none, some, List, [], ◌∷◌, Result, ok, err, is_empty, ◌==◌, not,
  if◌then◌else◌,
}
use ephemwork.Text.{Text, codes}
use ephemwork.Client.{BastionEndpoint}
use ephemwork.Sessions.{Session, State, forward_owner, upsert}
use ephemwork.Ssm.{
  PortForwardSpec, RemoteHostForwardSpec, ForwardPortSpec, SpecError, parse_forward_port_spec,
}
use ephemwork.Provisioner.{InstanceSummary}
use ephemwork.Provisioner.Calls.{Call, ◌>>=◌, ◌>>◌, done}
use ephemwork.Provisioner.Plans.{BastionContext, instance_name}
use ephemwork.Commands.{
  CommandError, stale_forward, bad_spec, no_bastion, UpRequest, session_for, control_plane_port,
}

-- What a successful `up` leaves open; the ports are none for a worker.
pub record ActiveSession : Type 0 where
  pub user : Text
  pub service : Text
  pub local_port : Option ℕ
  pub remote_port : Option ℕ
  pub pid : ℕ
  pub forwards : List ℕ
  pub cp_endpoint : Option BastionEndpoint

-- The world of the command line; `fail` turns the file's own errors into those of the calls.
pub record Laptop {ℓ κ} (S : Type ℓ) (E : Type κ) : Type (ℓ ⊔ κ) where
  pub fail : CommandError → E
  pub assert_plugin_available : Call S E (Unit {0})
  pub assert_port_free : ℕ → Call S E (Unit {0})
  pub run_bootstrap : Text → Call S E (Unit {0})
  -- `AwsBastionProvisioner::new(region, ctx)`
  pub connect : Text → Call S E (Unit {0})
  pub find_instance_by_name : Text → Call S E (Option InstanceSummary)
  -- The local port.
  pub start_port_forward : PortForwardSpec → Call S E ℕ
  pub start_remote_host_forward : RemoteHostForwardSpec → Call S E (Unit {0})
  -- A port and a number of seconds.
  pub wait_for_local_port : ℕ → ℕ → Call S E (Unit {0})
  pub register : BastionEndpoint → Text → Text → Call S E ℕ
  pub load_state : Call S E State
  pub save_state : State → Call S E (Unit {0})
  pub pid_is_alive : ℕ → Call S E Bool
  -- The process.
  pub spawn_service : Text → Call S E ℕ
  -- A port, a path and a number of seconds.
  pub wait_for_health : ℕ → Text → ℕ → Call S E (Unit {0})
  -- The port of the SSH forward, the local and the remote port, and the request's settings.
  pub open_reverse_forward : ℕ → ℕ → ℕ → UpRequest → Call S E (Unit {0})
  pub now : Call S E ℕ

abbrev pub local_endpoint : ℕ → BastionEndpoint
local_endpoint port = record { host = codes "127.0.0.1"; port = port }

abbrev pub or_zero : Option ℕ → ℕ
or_zero none = 0
or_zero (some n) = n

-- Whether a forward was opened adds its port.
abbrev pub owning : Bool → ℕ → List ℕ → List ℕ
owning reused port ports = if reused then ports else port ∷ ports

module _ {ℓ κ} {S : Type ℓ} {E : Type κ} (p : Laptop S E) where
  unfoldable pub failing {μ} : {A : Type μ} → CommandError → Call S E A
  failing e = done (err (p.fail e))

  unfoldable pub if_alive : Text → Bool → Call S E Bool
  if_alive service true = done (ok true)
  if_alive service false = failing (stale_forward service)

  unfoldable pub reuse_of : Option Session → Call S E Bool
  unfolding failing if_alive
  reuse_of none = done (ok false)
  reuse_of (some owner) =
      if or_zero owner.pid == 0
      then failing (stale_forward owner.service)
      else p.pid_is_alive (or_zero owner.pid) >>= λ alive. if_alive owner.service alive

  unfoldable pub check_forward_reuse : State → Text → ForwardPortSpec → Call S E Bool
  check_forward_reuse state user spec = reuse_of (forward_owner user spec.local_port state)

  unfoldable pub parsed_spec : Result SpecError ForwardPortSpec → Call S E ForwardPortSpec
  parsed_spec (ok spec) = done (ok spec)
  parsed_spec (err e) = failing (bad_spec e)

  -- Only a worker checks that the local port is free.
  unfoldable pub free_for : Bool → ℕ → Call S E (Unit {0})
  free_for true port = p.assert_port_free port
  free_for false port = done (ok tt)

  -- One forward that no sibling has opened; `worker` tells the loop of `up_worker` from that of
  -- `up_service`.
  unfoldable pub open_forward : Bool → UpRequest → Text → ForwardPortSpec → Call S E (Unit {0})
  unfolding free_for
  open_forward worker req target spec = do
    free_for worker spec.local_port
    p.start_remote_host_forward (record {
      target = target;
      remote_host = spec.remote_host;
      remote_port = spec.remote_port;
      local_port = spec.local_port;
      region = req.region;
    })
    p.wait_for_local_port spec.local_port 15

  unfoldable pub open_unless :
      Bool → Bool → UpRequest → Text → ForwardPortSpec → Call S E (Unit {0})
  open_unless true worker req target spec = done (ok tt)
  open_unless false worker req target spec = open_forward worker req target spec

  -- The loop over the forward specifications: the ports that this session opened.
  unfoldable pub open_forwards : Bool → State → UpRequest → Text → List Text → Call S E (List ℕ)
  open_forwards worker state req target [] = done (ok [])
  open_forwards worker state req target (raw ∷ raws) =
      let rest = open_forwards worker state req target raws in
      do
        spec ← parsed_spec (parse_forward_port_spec raw)
        reused ← check_forward_reuse state req.user spec
        open_unless reused worker req target spec
        ports ← rest
        done (ok (owning reused spec.local_port ports))

  unfoldable pub bootstrap : Option Text → Call S E (Unit {0})
  bootstrap none = done (ok tt)
  bootstrap (some cmd) = p.run_bootstrap cmd

  unfoldable pub located : Option InstanceSummary → Call S E InstanceSummary
  located none = failing no_bastion
  located (some instance) = done (ok instance)

  -- `AwsBastionProvisioner::new(…)?` and `locate_bastion(…)?`
  unfoldable pub locate_bastion : Text → BastionContext → Call S E InstanceSummary
  unfolding located failing
  locate_bastion region ctx = do
    p.connect region
    found ← p.find_instance_by_name (instance_name ctx)
    located found

  unfoldable pub record_up : UpRequest → ℕ → ℕ → ℕ → List ℕ → Call S E (Unit {0})
  record_up req local_port remote_port pid ports = do
    now ← p.now
    state ← p.load_state
    p.save_state (
        upsert (session_for now req.user req.service local_port remote_port (some pid) ports) state)

  -- The forwards of a worker, which needs the bastion only for them.
  unfoldable pub worker_forwards : Bool → UpRequest → BastionContext → Call S E (List ℕ)
  worker_forwards false req ctx = done (ok [])
  worker_forwards true req ctx = do
    bastion ← locate_bastion req.region ctx
    state ← p.load_state
    open_forwards true state req bastion.instance_id req.forward_ports

  unfoldable pub plugin_if : Bool → Call S E (Unit {0})
  plugin_if false = done (ok tt)
  plugin_if true = p.assert_plugin_available

  unfoldable pub up_worker : UpRequest → BastionContext → Call S E ActiveSession
  up_worker req ctx = do
    plugin_if (not (is_empty req.forward_ports))
    bootstrap req.bootstrap_command
    ports ← worker_forwards (not (is_empty req.forward_ports)) req ctx
    pid ← p.spawn_service req.run_command
    record_up req 0 0 pid ports
    done (
        ok (record {
          user = req.user;
          service = req.service;
          local_port = none;
          remote_port = none;
          pid = pid;
          forwards = ports;
          cp_endpoint = none;
        }))

  unfoldable pub healthy : UpRequest → ℕ → Option Text → Call S E (Unit {0})
  healthy req port none = done (ok tt)
  healthy req port (some path) = p.wait_for_health port path req.health_timeout

  -- A port forward to the bastion, once it is reachable.
  unfoldable pub forward_to : UpRequest → Text → ℕ → Call S E ℕ
  forward_to req target remote_port = do
    local_port ←
        p.start_port_forward
          (record { target = target; remote_port = remote_port; region = req.region })
    p.wait_for_local_port local_port 15
    done (ok local_port)

  -- `up_service` of a service with a port.
  unfoldable pub up_routed : UpRequest → BastionContext → ℕ → Call S E ActiveSession
  up_routed req ctx local_service_port = do
    p.assert_plugin_available
    p.assert_port_free local_service_port
    bootstrap req.bootstrap_command
    bastion ← locate_bastion req.region ctx
    cp_port ← forward_to req bastion.instance_id control_plane_port
    remote_port ← p.register (local_endpoint cp_port) req.user req.service
    ssh_port ← forward_to req bastion.instance_id 22
    state ← p.load_state
    ports ← open_forwards false state req bastion.instance_id req.forward_ports
    pid ← p.spawn_service req.run_command
    healthy req local_service_port req.health_check_path
    p.open_reverse_forward ssh_port local_service_port remote_port req
    record_up req local_service_port remote_port pid ports
    done (
        ok (record {
          user = req.user;
          service = req.service;
          local_port = some local_service_port;
          remote_port = some remote_port;
          pid = pid;
          forwards = ports;
          cp_endpoint = some (local_endpoint cp_port);
        }))

  unfoldable pub up_for : Option ℕ → UpRequest → BastionContext → Call S E ActiveSession
  up_for none req ctx = up_worker req ctx
  up_for (some port) req ctx = up_routed req ctx port

  unfoldable pub up_service : UpRequest → BastionContext → Call S E ActiveSession
  up_service req ctx = up_for req.local_service_port req ctx
