-- ===== src/Tests/Tunnels.antt =====
-- Runs of the tunnel, of the health check and of the encoding of the user data.
use ephemwork.Prelude.{
  ℕ, zero, suc, ◌*◌, ◌≡◌, ◌≤◌, refl, Bool, false, some, [], ◌∷◌, ◌++◌, Result, ok, arith, length,
}
use ephemwork.Text.{codes, is_whitespace}
use ephemwork.Text.Decimal.{decimal, digits_onto}
use ephemwork.Text.Splitting.Words.{IsWord}
use ephemwork.Protocol.{Bytes}
use ephemwork.Tunnel.Writing.{Attempt, room, blocked, Writer, Written, write_all_nonblocking}
use ephemwork.Tunnel.Writing.Delivery.{IsDelivered, write_all-delivers}
use ephemwork.Tunnel.Writing.Patience.{IsPatient, write_all-patient}
use ephemwork.Tunnel.Bridge.{Input, arrived, nothing_yet, bridge_bidirectional, bridge_start}
use ephemwork.Tunnel.Bridge.Relaying.{Relayed}
use ephemwork.Tunnel.Bridge.Ending.{IsEnding, bridge-relays}
use ephemwork.Tunnel.Accepting.{Accept, channel, refused, session, negsuc}
use ephemwork.Polling.{IsTicking}
use ephemwork.Runner.{HealthError, HealthCheck, Network, http_get_status, wait_for_health}
use ephemwork.Runner.Health.{IsVerdict, wait_for_health-ends}
use ephemwork.Runner.Status.{line_of, http_get_status-line}
use ephemwork.Aws.Base64.{base64_encode}
use ephemwork.Aws.Base64.Decoding.{decode, decode-base64_encode}

-- A writer that takes three bytes in every other call.
abbrev halting_from : ℕ → Attempt
halting_from zero = blocked
halting_from (suc zero) = room 3
halting_from (suc (suc n)) = halting_from n

abbrev halting : Writer
halting = record { attempts = halting_from; writes = 0; written = [] }

write_all-delivers_example :
    (out : Written) × (write_all_nonblocking (codes "hello") halting ≡ some out)
    × IsDelivered (codes "hello") halting out
write_all-delivers_example = write_all-delivers (codes "hello") halting

-- A writer with room for three bytes in every call.
abbrev open_writer : Writer
open_writer = record { attempts = λ n. room 3; writes = 0; written = [] }

open_writer-IsPatient : IsPatient open_writer
open_writer-IsPatient k = (0, 2, omega arith, refl, λ i h. absurd (omega (arith, h)))

write_all-patient_example :
    (out : Written) × (write_all_nonblocking (codes "hello") open_writer ≡ some out)
    × (out.1 ≡ ok tt)
    × (out.0.written ≡ open_writer.written ++ codes "hello")
write_all-patient_example = write_all-patient (codes "hello") open_writer open_writer-IsPatient

abbrev greets : ℕ → Input
greets zero = arrived (codes "hi")
greets (suc n) = arrived []

abbrev answers : ℕ → Input
answers zero = nothing_yet
answers (suc zero) = arrived (codes "yes")
answers (suc (suc n)) = arrived []

abbrev never : ℕ → Bool
never n = false

bridge-relays_example :
    Relayed greets halting answers open_writer
      (bridge_bidirectional never 4 (bridge_start greets halting answers open_writer))
    × IsEnding greets halting answers open_writer never
        (bridge_bidirectional never 4 (bridge_start greets halting answers open_writer))
bridge-relays_example = bridge-relays greets halting answers open_writer never 4

abbrev three_accepts : ℕ → Accept
three_accepts zero = channel
three_accepts (suc zero) = refused (session (negsuc 36))
three_accepts (suc (suc n)) = refused (session (negsuc 42))

abbrev clock : ℕ → ℕ
clock k = 250 * k

clock-IsTicking : IsTicking clock 200
clock-IsTicking = (omega arith, λ k. omega arith)

abbrev check : HealthCheck
check = record {
  host = codes "127.0.0.1";
  port = 8000;
  path = codes "/health";
  overall_timeout = 1000;
  poll_interval = 200;
}

-- Not ready at first.
abbrev warming_up : ℕ → ℕ → Result HealthError ℕ
warming_up zero timeout = ok 503
warming_up (suc k) timeout = ok 200

wait_for_health-ends_example :
    (r : Result HealthError ℕ) × (wait_for_health clock warming_up check 1001 ≡ some r)
    × IsVerdict clock warming_up check r
wait_for_health-ends_example =
    wait_for_health-ends clock warming_up check clock-IsTicking (omega arith)

abbrev reply_text : Bytes
reply_text = line_of (codes "HTTP/1.1") 204 (codes "No Content") ++ 13 ∷ 10 ∷ codes "Server: x"

abbrev one_server : Network ℕ
one_server = record {
  resolve = λ host port. ok (7 ∷ []);
  exchange = λ a timeout request. ok reply_text;
}

http-IsWord : IsWord (codes "HTTP/1.1")
unfolding is_whitespace
http-IsWord = (refl, cc)

reply_short : length (line_of (codes "HTTP/1.1") 204 (codes "No Content")) ≤ 4094
unfolding decimal digits_onto
reply_short = omega arith

http_get_status-line_example :
    http_get_status one_server (codes "127.0.0.1") 8000 (codes "/health") 2000 ≡ ok 204
http_get_status-line_example =
    http_get_status-line one_server (codes "127.0.0.1") 8000 (codes "/health") 2000 7 []
      (codes "HTTP/1.1") 204 (codes "No Content") (codes "Server: x") refl refl http-IsWord
      (refl, refl, refl) (refl, refl, refl) refl (omega arith) reply_short

decode-base64_encode_example : decode (base64_encode (codes "foob")) ≡ codes "foob"
decode-base64_encode_example =
    decode-base64_encode (codes "foob")
      (omega arith, (omega arith, (omega arith, (omega arith, tt))))
