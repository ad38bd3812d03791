-- ===== src/Tests/Down.antt =====
-- Runs of `down`.
use ephemwork.Prelude.{ℕ, ◌≡◌, Result, ok, err, false, none, some, List, []}
use ephemwork.Text.{Text, codes}
use ephemwork.Storage.{Disk, IoError}
use ephemwork.Sessions.{Session}
use ephemwork.Provisioner.Plans.{BastionContext}
use ephemwork.Commands.Records.{down_sessions}
use ephemwork.Commands.Down.{Plane, down_service}
use ephemwork.Commands.Down.Deregistered.{Asked, noting, IsAskedFor, down_service-clears}
use ephemwork.Tests.Examples.{fair_weather}
use ephemwork.Tests.SessionCodec.{session_codec}
use ephemwork.Tests.Laptops.{state_path, one_disk, instance_found}

abbrev project : BastionContext
project = record { project_name = codes "my-app" }

-- A plane that is reached, and whose deregistrations fail.
abbrev refusing : Plane ℕ Text
refusing = record {
  assert_plugin_available = λ n. (n, ok tt);
  connect = λ region n. (n, ok tt);
  find_instance_by_name = λ name n. (n, ok (some instance_found));
  start_port_forward = λ spec n. (n, ok 9000);
  wait_for_local_port = λ port seconds n. (n, ok tt);
  deregister = λ endpoint user service n. (n, err (codes "503"));
}

abbrev no_requests : List Asked
no_requests = []

abbrev down_run : (Disk × (ℕ × List Asked)) × Result IoError (List Session)
down_run =
    down_service (noting refusing) session_codec false fair_weather state_path (codes "us-east-1")
      project (codes "a") none (one_disk, (0, no_requests))

down_service-clears_example :
    (down_run.0.0
      ≡ (down_sessions session_codec false fair_weather state_path (codes "a") none one_disk).0)
    × (down_run.1
        ≡ (down_sessions session_codec false fair_weather state_path (codes "a") none one_disk).1)
    × IsAskedFor refusing (codes "a") down_run.1 no_requests down_run.0.1.1
down_service-clears_example =
    down_service-clears refusing session_codec false fair_weather state_path (codes "us-east-1")
      project (codes "a") none one_disk 0 no_requests
