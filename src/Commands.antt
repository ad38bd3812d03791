-- ===== src/Commands.antt =====
-- The commands (src/commands.rs): the requests for `up` here, its steps and the records of sessions
-- in the modules below.
pub mod Up
pub mod Records
pub mod Worker
pub mod LocalPort
pub mod Down
pub mod Showing
use ephemwork.Prelude.{
  ℕ, Bool, true, false, Option, none, some, List, [], ◌∷◌, ◌++◌, Result, ok, err, is_empty, ◌==◌,
  not, if◌then◌else◌,
}
use ephemwork.Text.{Text, codes, same}
use ephemwork.Config.{Config, ServiceConfig}
use ephemwork.Client.{BastionEndpoint}
use ephemwork.Sessions.{Session, State, forward_owner, upsert}
use ephemwork.Ssm.{
  PortForwardSpec, RemoteHostForwardSpec, ForwardPortSpec, SpecError, parse_forward_port_spec,
}
use ephemwork.Provisioner.{InstanceSummary}
use ephemwork.Provisioner.Calls.{Call, ◌>>=◌, ◌>>◌, done}
use ephemwork.Provisioner.Plans.{BastionContext, instance_name}

pub data CommandError : Type 0 where
  unknown_service stale_forward : Text → CommandError
  bad_spec : SpecError → CommandError
  no_bastion : CommandError

unfoldable pub find_service : Text → List (Text × ServiceConfig) → Option ServiceConfig
find_service service [] = none
find_service service ((name, svc) ∷ rest) =
    let later = find_service service rest in if same name service then some svc else later

unfoldable pub lookup_service : Config → Text → Result CommandError ServiceConfig
lookup_service cfg service = elim (find_service service cfg.service) [
  | none ↦ err (unknown_service service)
  | some svc ↦ ok svc
]

abbrev pub control_plane_port : ℕ
control_plane_port = 8443

unfoldable pub session_for : ℕ → Text → Text → ℕ → ℕ → Option ℕ → List ℕ → Session
session_for now user service local_port remote_port pid forward_local_ports = record {
  user = user;
  service = service;
  started_at = now;
  local_port = local_port;
  remote_port = remote_port;
  pid = pid;
  forward_local_ports = forward_local_ports;
}

pub record UpRequest : Type 0 where
  pub user : Text
  pub service : Text
  pub region : Text
  pub local_service_port : Option ℕ
  pub run_command : Text
  pub health_check_path : Option Text
  pub ssh_username : Text
  pub ssh_keepalive : ℕ
  pub health_timeout : ℕ
  pub forward_ports : List Text
  pub bootstrap_command : Option Text

-- The loop that parses every specification early.
unfoldable pub check_specs : List Text → Result CommandError (Unit {0})
check_specs [] = ok tt
check_specs (raw ∷ raws) =
    let rest = check_specs raws in
    elim (parse_forward_port_spec raw) [ err e ↦ err (bad_spec e) | ok spec ↦ rest ]

-- Times are in seconds.
unfoldable pub request_for : Config → ServiceConfig → Text → Text → UpRequest
request_for cfg svc service user = record {
  user = user;
  service = service;
  region = cfg.tunnel.region;
  local_service_port = svc.port;
  run_command = svc.run_command;
  health_check_path = svc.health_check_path;
  ssh_username = codes "ec2-user";
  ssh_keepalive = 30;
  health_timeout = 60;
  forward_ports = svc.forward_ports;
  bootstrap_command = svc.bootstrap_command;
}

unfoldable pub from_config : Config → Text → Text → Result CommandError UpRequest
from_config cfg service user = elim (lookup_service cfg service) [
  | err e ↦ err e
  | ok svc ↦ elim (check_specs svc.forward_ports) [
    | err e ↦ err e
    | ok u ↦ ok (request_for cfg svc service user)
  ]
]
