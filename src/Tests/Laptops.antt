-- ===== src/Tests/Laptops.antt =====
-- Runs of the commands: the records of sessions, and a worker.
use ephemwork.Prelude.{
  ℕ, suc, ◌+◌, ◌≡◌, refl, Bool, true, false, not, ◌&&◌, all, none, some, [], ◌∷◌, ok, length,
}
use ephemwork.Text.{Text, codes, same, trim, trim_end, trim_start, is_whitespace}
use ephemwork.Storage.{FilePath, Disk, save_json, load_json, replace_file, parent_ok, same_path}
use ephemwork.Sessions.{Session, State, load, save, upsert, remove_where}
use ephemwork.Sessions.Table.{session_of}
use ephemwork.Commands.{UpRequest, CommandError}
use ephemwork.Commands.Up.{Laptop, up_worker}
use ephemwork.Commands.Records.{
  record_session, put_session, forget_sessions, drop_sessions, answer_removed, record_session_found,
  forget_sessions_clears,
}
use ephemwork.Commands.Worker.{KeepsUnrouted, up_worker-Keeps}
use ephemwork.Provisioner.{InstanceSummary}
use ephemwork.Provisioner.Plans.{BastionContext}
use ephemwork.Tests.Examples.{empty_disk, fair_weather}
use ephemwork.Tests.SessionCodec.{
  session_codec, session_codec-RoundTrips, encode, decode, flat, read,
}

abbrev pub state_path : FilePath
state_path = record {
  dir = codes "/home/a/.ephemwork";
  stem = codes "state";
  extension = codes "json";
}

abbrev worker_session : Session
worker_session = record {
  user = codes "a";
  service = codes "w";
  started_at = 0;
  local_port = 0;
  remote_port = 0;
  pid = some 7;
  forward_local_ports = 5432 ∷ [];
}

abbrev no_sessions : State
no_sessions = record { sessions = [] }

starts_empty : load session_codec false state_path empty_disk ≡ ok no_sessions
unfolding load load_json
starts_empty = refl

recorded :
    (record_session session_codec false fair_weather state_path worker_session empty_disk).1 ≡ ok tt
unfolding record_session put_session load load_json save save_json replace_file parent_ok same
    encode
recorded = refl

record_session_found_example :
    (after : State) × (load session_codec false state_path
        (record_session session_codec false fair_weather state_path worker_session empty_disk).0
      ≡ ok after)
    × (session_of worker_session.user worker_session.service after ≡ some worker_session)
    × ((user service : Text)
        → same worker_session.user user && same worker_session.service service ≡ false
        → session_of user service after ≡ session_of user service no_sessions)
record_session_found_example =
    record_session_found session_codec fair_weather state_path worker_session empty_disk no_sessions
      session_codec-RoundTrips (cc) starts_empty recorded

-- The disk after the record, and the state in its file.
abbrev pub one_disk : Disk
one_disk = (record_session session_codec false fair_weather state_path worker_session empty_disk).0

abbrev one_state : State
one_state = record { sessions = worker_session ∷ [] }

abbrev of_a : Session → Bool
of_a s = same s.user (codes "a")

one_stored : load session_codec false state_path one_disk ≡ ok one_state
unfolding record_session put_session load load_json save save_json replace_file parent_ok same
    encode same_path trim trim_end trim_start is_whitespace flat upsert decode read
one_stored = refl

forgotten :
    (forget_sessions session_codec false fair_weather state_path of_a one_disk).1
    ≡ ok (worker_session ∷ [])
unfolding record_session put_session load load_json save save_json replace_file parent_ok same
    encode forget_sessions drop_sessions answer_removed same_path trim trim_end trim_start
    is_whitespace flat upsert decode read remove_where
forgotten = refl

forget_sessions_clears_example :
    (after : State) × (load session_codec false state_path
        (forget_sessions session_codec false fair_weather state_path of_a one_disk).0
      ≡ ok after)
    × (all of_a (worker_session ∷ []) ≡ true)
    × (all (λ s. not (of_a s)) after.sessions ≡ true)
    × (length after.sessions + length (worker_session ∷ []) ≡ length one_state.sessions)
forget_sessions_clears_example =
    forget_sessions_clears session_codec fair_weather state_path of_a one_disk one_state
      (worker_session ∷ []) session_codec-RoundTrips (cc) one_stored forgotten

abbrev pub instance_found : InstanceSummary
instance_found = record {
  instance_id = codes "i-1";
  state = codes "running";
  private_ip = none;
  security_group_id = none;
}

-- A laptop whose state counts the registrations.
abbrev counting : Laptop ℕ CommandError
counting = record {
  fail = λ e. e;
  assert_plugin_available = λ n. (n, ok tt);
  assert_port_free = λ port n. (n, ok tt);
  run_bootstrap = λ cmd n. (n, ok tt);
  connect = λ region n. (n, ok tt);
  find_instance_by_name = λ name n. (n, ok (some instance_found));
  start_port_forward = λ spec n. (n, ok 9000);
  start_remote_host_forward = λ spec n. (n, ok tt);
  wait_for_local_port = λ port seconds n. (n, ok tt);
  register = λ endpoint user service n. (suc n, ok 10000);
  load_state = λ n. (n, ok no_sessions);
  save_state = λ st n. (n, ok tt);
  pid_is_alive = λ pid n. (n, ok true);
  spawn_service = λ cmd n. (n, ok 7);
  wait_for_health = λ port path seconds n. (n, ok tt);
  open_reverse_forward = λ ssh local_port remote_port req n. (n, ok tt);
  now = λ n. (n, ok 0);
}

abbrev Unregistered : ℕ → Type 0
Unregistered n = n ≡ 0

counting-KeepsUnrouted : KeepsUnrouted Unregistered counting
counting-KeepsUnrouted = record {
  plugin = λ n i. i;
  port_free = λ port n i. i;
  bootstrapped = λ cmd n i. i;
  connected = λ region n i. i;
  found = λ name n i. i;
  forwarded = λ spec n i. i;
  waited = λ port seconds n i. i;
  loaded = λ n i. i;
  saved = λ st n i. i;
  probed = λ pid n i. i;
  spawned = λ cmd n i. i;
  told_time = λ n i. i;
}

abbrev worker_request : UpRequest
worker_request = record {
  user = codes "a";
  service = codes "w";
  region = codes "us-east-1";
  local_service_port = none;
  run_command = codes "make work";
  health_check_path = none;
  ssh_username = codes "ec2-user";
  ssh_keepalive = 30;
  health_timeout = 60;
  forward_ports = codes "5432:db:5432" ∷ [];
  bootstrap_command = none;
}

abbrev app : BastionContext
app = record { project_name = codes "app" }

up_worker-Keeps_example : (up_worker counting worker_request app 0).0 ≡ 0
up_worker-Keeps_example =
    up_worker-Keeps Unregistered counting counting-KeepsUnrouted worker_request app 0 refl
