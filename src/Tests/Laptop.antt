-- ===== src/Tests/Laptop.antt =====
-- Runs of the command line: the client's messages and a request that is read, the session state, the configuration, the
-- forward specifications and the provisioner.
use ephemwork.Prelude.{
  ◌+◌, ◌++◌, List, ℕ, ◌≡◌, refl, ◌↔◌, ◌<◌, none, some, [], ◌∷◌, Result, ok, err, arith, length,
}
use ephemwork.Text.{Text, codes, trim, trim_start, trim_end, is_whitespace}
use ephemwork.Text.Decimal.{decimal, digits_onto}
use ephemwork.Text.Splitting.{split_char, split_once, trim_end_matches}
use ephemwork.Text.Utf8.{as_bytes, from_utf8}
use ephemwork.Http.{framed, joined, Response, to_wire}
use ephemwork.Http.Parse.{parse_request, find_header_terminator, position, starts_with}
use ephemwork.Http.Read.{ReadEvent, chunk, read_loop, is_complete, declared_length}
use ephemwork.Http.Read.Bounds.{read_loop_bounded}
use ephemwork.Client.{build_request, request_line, parse_response}
use ephemwork.Client.RoundTrip.{IsPlain, IsToken}
use ephemwork.Client.Requests.{parse-build_request}
use ephemwork.Client.Responses.{parse-to_wire}
use ephemwork.Sessions.{Session, State}
use ephemwork.Config.{Config, validate}
use ephemwork.Config.Validity.{IsValid, validate_iff}
use ephemwork.Ssm.{ForwardPortSpec, parse_forward_port_spec}
use ephemwork.Ssm.Specs.{IsUsable, print_spec, parse-print_spec}
use ephemwork.Provisioner.{run_init, run_destroy}
use ephemwork.Provisioner.Plans.{BastionContext, SecurityGroupPlan, LaunchPlan}
use ephemwork.Provisioner.DryRun.{plan_logger, new}
use ephemwork.Provisioner.Order.{
  traced, IsInitRun, IsDestroyRun, run_init-IsInitRun, run_destroy-IsDestroyRun,
}

abbrev greeting : Text
greeting = codes "hi"

local-IsPlain : IsPlain (codes "127.0.0.1")
local-IsPlain = (refl, refl, refl)

register-IsToken : IsToken (codes "/register")
unfolding is_whitespace
register-IsToken = ((refl, cc), refl)

message_short :
    length (build_request (codes "127.0.0.1") (codes "/register") greeting) < 18446744073709551616
unfolding build_request request_line framed joined as_bytes decimal digits_onto
message_short = omega arith

parse-build_request_example :
    parse_request (build_request (codes "127.0.0.1") (codes "/register") greeting)
    ≡ ok (record { method = codes "POST"; path = codes "/register"; body = greeting })
parse-build_request_example =
    parse-build_request (codes "127.0.0.1") (codes "/register") greeting local-IsPlain
      register-IsToken message_short

abbrev answer : Response
answer = record {
  status = 200;
  reason = codes "OK";
  body = greeting;
  content_type = codes "text/plain";
}

parse-to_wire_example :
    parse_response (to_wire answer) ≡ ok (record { status = 200; body = greeting })
parse-to_wire_example = parse-to_wire answer (omega arith) (refl, refl, refl) (refl, refl, refl)

abbrev session : Text → Text → ℕ → Session
session user service port = record {
  user = user;
  service = service;
  started_at = 0;
  local_port = 8000;
  remote_port = port;
  pid = some 7;
  forward_local_ports = 5432 ∷ [];
}

abbrev alice_api : Session
alice_api = session (codes "alice") (codes "api") 10000

abbrev bob_web : Session
bob_web = session (codes "bob") (codes "web") 10001

abbrev both : State
both = record { sessions = alice_api ∷ bob_web ∷ [] }

abbrev config : Config
config = record {
  tunnel = record {
    tunnel_type = codes "bastion";
    region = codes "us-east-1";
    instance_type = codes "t4g.nano";
    project_name = codes "my-app";
    expected_vpc_id = none;
  };
  service =
      (
        codes "api",
        record {
          port = some 8000;
          build_command = none;
          run_command = codes "make run";
          health_check_path = none;
          forward_ports = [];
          bootstrap_command = none;
        },
      )
      ∷ [];
}

validate_iff_example : (validate config ≡ ok tt) ↔ IsValid config
validate_iff_example = validate_iff config

abbrev postgres : ForwardPortSpec
postgres = record { local_port = 5432; remote_host = codes "db.internal"; remote_port = 5432 }

postgres-IsUsable : IsUsable postgres
unfolding trim trim_start trim_end is_whitespace
postgres-IsUsable = record {
  local_bound = omega arith;
  local_positive = omega arith;
  remote_bound = omega arith;
  remote_positive = omega arith;
  host = cc;
  trimmed = refl;
  no_colon = refl;
}

parse-print_spec_example : parse_forward_port_spec (print_spec postgres) ≡ ok postgres
parse-print_spec_example = parse-print_spec postgres postgres-IsUsable

abbrev project : BastionContext
project = record { project_name = codes "my-app" }

abbrev group : SecurityGroupPlan
group = record { name = codes "sg"; description = []; ingress = [] }

abbrev no_launch : Text → Result Text LaunchPlan
no_launch sg = err (codes "no image")

run_init-IsInitRun_example :
    IsInitRun
      (run_init (traced (plan_logger (λ t. t) Text)) project group no_launch (new project, []))
run_init-IsInitRun_example =
    run_init-IsInitRun (plan_logger (λ t. t) Text) project group no_launch (new project)

run_destroy-IsDestroyRun_example :
    IsDestroyRun (run_destroy (traced (plan_logger (λ t. t) Text)) project (new project, []))
run_destroy-IsDestroyRun_example =
    run_destroy-IsDestroyRun (plan_logger (λ t. t) Text) project (new project)

abbrev two_reads : List ReadEvent
two_reads = chunk (codes "GET /healthz HTTP/1.1") ∷ chunk (13 ∷ 10 ∷ 13 ∷ 10 ∷ []) ∷ []

abbrev two_reads_bytes : Text
two_reads_bytes = codes "GET /healthz HTTP/1.1" ++ 13 ∷ 10 ∷ 13 ∷ 10 ∷ []

two_reads_read : read_loop two_reads [] ≡ ok two_reads_bytes
unfolding read_loop is_complete find_header_terminator position starts_with declared_length
    split_char from_utf8 split_once trim_end_matches
two_reads_read = refl

read_loop_bounded_example : length two_reads_bytes < 65536 + 2048
read_loop_bounded_example =
    read_loop_bounded 2048 two_reads [] two_reads_bytes (omega arith, (omega arith, tt))
      two_reads_read
