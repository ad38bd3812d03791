-- ===== src/Runner.antt =====
-- The service's process and its health check (src/runner.rs): the parser of a status, the probes
-- and the loops here; when the loops end in the modules below. The network, the processes and the
-- clock are parameters; times are in milliseconds.
pub mod Health
pub mod Status
pub mod Stopping
use ephemwork.Prelude.{
  ℕ, zero, suc, ◌+◌, Bool, true, false, ◌&&◌, Option, none, some, List, [], ◌∷◌, ◌++◌, Result, ok,
  err, ◌>>=◌, ◌>>◌, ok_or, map_err, take, leb, ltb, if◌then◌else◌,
}
use ephemwork.Text.{Text, codes}
use ephemwork.Text.Decimal.{u16_max, parse_unsigned}
use ephemwork.Text.Splitting.{split_whitespace}
use ephemwork.Text.Utf8.{from_utf8}
use ephemwork.Protocol.{Bytes}
use ephemwork.Http.{framed}
use ephemwork.Client.{next_line}
use ephemwork.Polling.{Round, again, finished, poll_loop}

pub data HealthError : Type 0 where
  not_utf8 empty_response missing_version missing_code bad_code : HealthError
  no_address : HealthError
  network : Text → HealthError
  unhealthy : ℕ → HealthError
  timed_out : HealthError

unfoldable pub code_word : List Text → Result HealthError Text
code_word [] = err missing_version
code_word (version ∷ []) = err missing_code
code_word (version ∷ code ∷ rest) = ok code

unfoldable pub parse_status_code : Bytes → Result HealthError ℕ
unfolding code_word
parse_status_code response = do
  head ← ok_or (from_utf8 response) not_utf8
  line ← ok_or (next_line head) empty_response
  code ← code_word (split_whitespace line)
  ok_or (parse_unsigned u16_max code) bad_code

unfoldable pub get_request : Text → Text → Bytes
get_request host path =
    framed (codes "GET " ++ path ++ codes " HTTP/1.0")
      ((codes "Host: " ++ host) ∷ codes "Connection: close" ∷ []) []

-- Addresses by name, and all bytes that come back for a request within a timeout.
pub record Network (Address : Type 0) : Type 0 where
  pub resolve : Text → ℕ → Result HealthError (List Address)
  pub exchange : Address → ℕ → Bytes → Result HealthError Bytes

abbrev pub first_address : {Address : Type 0} → List Address → Option Address
first_address [] = none
first_address (a ∷ rest) = some a

-- At most 4096 bytes are read.
unfoldable pub http_get_status :
    {Address : Type 0} → Network Address → Text → ℕ → Text → ℕ → Result HealthError ℕ
http_get_status net host port path timeout = do
  addresses ← net.resolve host port
  addr ← ok_or (first_address addresses) no_address
  raw ← net.exchange addr timeout (get_request host path)
  parse_status_code (take 4096 raw)

pub record HealthCheck : Type 0 where
  pub host : Text
  pub port : ℕ
  pub path : Text
  pub overall_timeout : ℕ
  pub poll_interval : ℕ

unfoldable pub min : ℕ → ℕ → ℕ
min a b = if leb a b then a else b

unfoldable pub max : ℕ → ℕ → ℕ
max a b = if leb a b then b else a

unfoldable pub attempt_timeout : HealthCheck → ℕ
unfolding min max
attempt_timeout check = max (min check.overall_timeout 2000) 100

abbrev pub is_success : ℕ → Bool
is_success code = leb 200 code && ltb code 300

abbrev pub last_or_timeout : Option HealthError → HealthError
last_or_timeout none = timed_out
last_or_timeout (some e) = e

-- What a probe makes of the round; the state is the last error.
unfoldable pub judge : Result HealthError ℕ → Round (Option HealthError) (Result HealthError ℕ)
judge (ok code) = if is_success code then finished (ok code) else again (some (unhealthy code))
judge (err e) = again (some e)

-- The loop. Reading 0 of the clock gives the deadline, reading k + 1 is tested by round k;
-- `probe k` is `http_get_status` in round k, given the timeout.
module _ (clock : ℕ → ℕ) (probe : ℕ → ℕ → Result HealthError ℕ) (check : HealthCheck) where
  unfoldable pub health_round :
      ℕ → Option HealthError → Round (Option HealthError) (Result HealthError ℕ)
  unfolding judge
  health_round k last =
      if ltb (clock (suc k)) (clock 0 + check.overall_timeout)
      then judge (probe k (attempt_timeout check))
      else finished (err (last_or_timeout last))

  -- At most this many rounds.
  unfoldable pub wait_for_health : ℕ → Option (Result HealthError ℕ)
  wait_for_health rounds = poll_loop rounds health_round 0 none

-- What `try_wait` gives.
pub data Probe : Type 0 where
  exited not_yet unknown : Probe

pub data Signal : Type 0 where
  sigterm sigkill : Signal

-- Reading 0 of the clock gives the deadline of the grace period, two seconds long; reading k + 1
-- and `child k` belong to round k. The signals go to the whole process group.
module _ (clock : ℕ → ℕ) (child : ℕ → Probe) where
  unfoldable pub after_probe : Probe → Bool → Round (Unit {0}) (List Signal)
  after_probe exited late = finished (sigterm ∷ [])
  after_probe not_yet true = finished (sigterm ∷ sigkill ∷ [])
  after_probe not_yet false = again tt
  after_probe unknown late = finished (sigterm ∷ sigkill ∷ [])

  unfoldable pub drop_round : ℕ → Unit {0} → Round (Unit {0}) (List Signal)
  unfolding after_probe
  drop_round k u = after_probe (child k) (leb (clock 0 + 2000) (clock (suc k)))

  -- `RunningService::drop`: the signals sent, within a number of rounds.
  unfoldable pub drop_service : ℕ → Option (List Signal)
  drop_service rounds = poll_loop rounds drop_round 0 tt

-- What `bind` on the loopback address gives.
pub data Bind : Type 0 where
  bound in_use : Bind
  bind_failed : Text → Bind

pub data PortError : Type 0 where
  already_in_use : ℕ → PortError
  probing : ℕ → Text → PortError

-- The listener is dropped at once.
unfoldable pub assert_port_free : (ℕ → Bind) → ℕ → Result PortError (Unit {0})
assert_port_free bind port = elim (bind port) [
  | bound ↦ ok tt
  | in_use ↦ err (already_in_use port)
  | bind_failed e ↦ err (probing port e)
]

-- What `sh -c` exits with; none where a signal ended it.
pub data BootstrapError : Type 0 where
  spawning : Text → BootstrapError
  exited_with : Option ℕ → BootstrapError

abbrev pub is_zero : Option ℕ → Bool
is_zero (some zero) = true
is_zero (some (suc n)) = false
is_zero none = false

unfoldable pub run_bootstrap :
    (Text → Result Text (Option ℕ)) → Text → Result BootstrapError (Unit {0})
run_bootstrap sh command = elim (sh command) [
  | err e ↦ err (spawning e)
  | ok code ↦ if is_zero code then ok tt else err (exited_with code)
]
