-- ===== src/Lib.antt =====
-- ephemwork: developers' sessions behind a shared bastion.
--
-- A laptop registers a session (a user and a service) with the control plane on the bastion, which
-- gives it a port, stores the registry in a file and writes an nginx configuration that routes
-- requests by the header X-Ephemwork to that port. The command line keeps its own table of
-- sessions, opens the tunnels and provisions the bastion.
--
-- Prelude        shared helpers: tests on numbers, lists over the native numbers, `Result`
-- Text           what the program uses of `str`: trimming, splitting, decimals, UTF-8
-- BTreeMap       sorted association lists for `BTreeMap<String, V>`
-- Storage        write to a sibling file and rename (`save` of bastion-server/src/registry.rs and
--                src/state.rs, `write_config` of bastion-server/src/nginx.rs)
-- Registry       bastion-server/src/registry.rs: `register`, `deregister`, `lookup`, `snapshot`,
--                `allocate_port`, `save`, `load`
-- Nginx          bastion-server/src/nginx.rs: `render_config`, `write_config`, `reload`, `on_change`
-- Protocol       common/src/lib.rs
-- Http           bastion-server/src/http.rs: `parse_request`, `read_request`, `to_wire`
-- Handlers       bastion-server/src/handlers.rs: `route` and its handlers
-- Server         bastion-server/src/main.rs: the listeners, the start, the requests in the order in
--                which they get the lock, and in Server.Threads the threads of `serve` as steps
-- Client         src/bastion_client.rs
-- Sessions       src/state.rs
-- Config         src/config.rs: `validate`, `resolve_user`
-- Commands       src/commands.rs: the records of sessions, `up_service`, `up_worker`, `down_service`,
--                `wait_for_local_port` and `status`
-- Tunnel         src/tunnel.rs: the bridge, its writes, the worker that accepts channels, and
--                `open_ssh2_reverse_forward`
-- Runner         src/runner.rs: `wait_for_health`, `http_get_status`, the stop of a service
-- Polling        the loops of Runner, Commands, Aws and Cli that poll until a deadline
-- Ssm            src/ssm.rs: the arguments of the processes, `parse_forward_port_spec`
-- Provisioner    src/bastion_provisioner.rs: plans, scripts, `run_init`, `run_destroy`, the dry run
-- Aws            src/aws_bastion_provisioner.rs: the pure checks, `base64_encode`, the calls for
--                the role and the security group, the search for endpoints without ingress, and
--                the lookup of an instance and the wait for it
-- Cli            src/main.rs: the guard of `bastion init`, `bastion redeploy`, the issues of
--                `bastion doctor`
-- Tests          concrete runs
--
-- State is passed along: a handler takes the registry and its listener's state and gives them back;
-- a call of the cloud gives its new state with its result. A text is its list of code points, a
-- message its list of bytes. Machine integers are natural numbers with the bounds of their parsers
-- written out (`u16_max`, `usize_max`). Loops over lists and ports are structural, and the loop that
-- reads a request runs over the list of what the socket gives. The digits of a number take the
-- number itself as fuel, and one more, which is never used up. The loop that writes a buffer has
-- fuel for 1001 calls of `write` for each byte, which are all that it can make, and the loops that
-- poll have one round for each time that their clock can advance before the deadline. The bridge
-- and the worker may run for ever: they are given by their state after a number of turns.
--
-- Parameters stand for code outside the repository: JSON (`Codec`, `Wire`), which file-system calls
-- fail (`Weather`), how a process ends (`Exit`), the exchange of bytes with the bastion, the AWS
-- calls (`BastionProvisioner`), and Unicode's tables where the program only calls them. What
-- nginx makes of the map is that of its documentation, written out in Nginx.Routing.Matching.
--
-- Not modelled: the AWS SDK's calls, the SSH library inside its calls, the spawning of processes,
-- the argument parser and what is printed. The commands take what they call of these as the records
-- `Laptop` and `Plane`, the tunnel as `Ssh`, the provisioner as `Iam` and `Ec2`, and the loops that
-- wait as functions from the number of a call to its result.
mod Tests
mod Prelude
pub mod Text
pub mod Tunnel
pub mod Aws
pub mod BTreeMap
pub mod Storage
pub mod Registry
pub mod Runner
pub mod Nginx
pub mod Polling
pub mod Protocol
pub mod Http
pub mod Handlers
pub mod Server
pub mod Cli
pub mod Client
pub mod Sessions
pub mod Config
pub mod Ssm
pub mod Provisioner
pub mod Commands
