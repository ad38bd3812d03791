-- ===== src/Commands/Down.antt =====
-- `down` (`down_service`, `deregister_via_bastion` and `deregister_best_effort` in
-- src/commands.rs): the file of sessions, and the calls that reach the control plane.
pub mod Deregistered
use ephemwork.Prelude.{
  ℕ, Bool, true, false, Option, none, some, List, [], ◌∷◌, Result, ok, err, is_empty, if◌then◌else◌,
}
use ephemwork.Text.{Text, codes}
use ephemwork.Storage.{FilePath, Disk, Weather, IoError, Codec}
use ephemwork.Client.{BastionEndpoint}
use ephemwork.Sessions.{Session, State, retain, load}
use ephemwork.Ssm.{PortForwardSpec}
use ephemwork.Provisioner.{InstanceSummary}
use ephemwork.Provisioner.Calls.{Call, ◌>>=◌, ◌>>◌, done}
use ephemwork.Provisioner.Plans.{BastionContext, instance_name}
use ephemwork.Commands.{control_plane_port}
use ephemwork.Commands.Up.{local_endpoint}
use ephemwork.Commands.Records.{is_meant, forget_sessions}

-- The calls of `down` that leave this machine.
pub record Plane {ℓ κ} (S : Type ℓ) (E : Type κ) : Type (ℓ ⊔ κ) where
  pub assert_plugin_available : Call S E (Unit {0})
  -- `AwsBastionProvisioner::new(region, ctx)`
  pub connect : Text → Call S E (Unit {0})
  pub find_instance_by_name : Text → Call S E (Option InstanceSummary)
  -- The local port.
  pub start_port_forward : PortForwardSpec → Call S E ℕ
  -- A port and a number of seconds.
  pub wait_for_local_port : ℕ → ℕ → Call S E (Unit {0})
  -- `bastion_client::deregister`; a user and a service.
  pub deregister : BastionEndpoint → Text → Text → Call S E (Unit {0})

module _ {ℓ κ} {S : Type ℓ} {E : Type κ} (p : Plane S E) where
  -- An error is only logged.
  unfoldable pub deregister_best_effort : BastionEndpoint → Text → Text → Call S E (Unit {0})
  deregister_best_effort endpoint user service s = ((p.deregister endpoint user service s).0, ok tt)

  -- `for s in sessions { .. }`
  unfoldable pub deregister_each : BastionEndpoint → Text → List Session → Call S E (Unit {0})
  deregister_each endpoint user [] = done (ok tt)
  deregister_each endpoint user (x ∷ sessions) = do
    deregister_best_effort endpoint user x.service
    deregister_each endpoint user sessions

  unfoldable pub deregister_at :
      Text → Text → List Session → Option InstanceSummary → Call S E (Unit {0})
  deregister_at region user sessions none = done (ok tt)
  deregister_at region user sessions (some bastion) = do
    port ←
        p.start_port_forward (record {
          target = bastion.instance_id;
          remote_port = control_plane_port;
          region = region;
        })
    p.wait_for_local_port port 10
    deregister_each (local_endpoint port) user sessions

  unfoldable pub deregister_via_bastion :
      Text → BastionContext → Text → List Session → Call S E (Unit {0})
  deregister_via_bastion region ctx user sessions = do
    p.assert_plugin_available
    p.connect region
    found ← p.find_instance_by_name (instance_name ctx)
    deregister_at region user sessions found

  -- `down_service` once it has the user and the configuration; whether the deregistration worked
  -- is only logged. The state is the disk and what the calls change.
  unfoldable pub down_service :
      Codec State
      → Bool
      → Weather
      → FilePath
      → Text
      → BastionContext
      → Text
      → Option Text
      → Disk × S
      → (Disk × S) × Result IoError (List Session)
  down_service c unreadable w path region ctx user service (d, s) =
      elim (load c unreadable path d) [
        | err e ↦ ((d, s), err e)
        | ok st ↦
            let candidates = retain (is_meant user service) st.sessions in
            let out = forget_sessions c unreadable w path (is_meant user service) d in
            if is_empty candidates
            then ((d, s), ok [])
            else ((out.0, (deregister_via_bastion region ctx user candidates s).0), out.1)
      ]
