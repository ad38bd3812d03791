-- ===== src/Tunnel/Writing.antt =====
-- `write_all_nonblocking` of src/tunnel.rs. The waits between two attempts are not modelled.
pub mod Delivery
pub mod Patience
use ephemwork.Prelude.{
  ℕ, zero, suc, ◌+◌, ◌*◌, Option, none, some, List, [], ◌∷◌, ◌++◌, Result, ok, err, length, take,
  drop, ltb, if◌then◌else◌,
}
use ephemwork.Protocol.{Bytes}
use ephemwork.Text.{Text}

-- Another error of an endpoint, by its words.
abbrev pub SocketError : Type 0
SocketError = Text

-- What `write` finds: room for a number of bytes, of which it takes those that it is given, no
-- room for now (`WouldBlock`), or another error.
pub data Attempt : Type 0 where
  room : ℕ → Attempt
  blocked : Attempt
  broken : SocketError → Attempt

-- One end's writing half, with what the calls of `write` find, how many there were, and what was
-- written.
pub record Writer : Type 0 where
  pub attempts : ℕ → Attempt
  pub writes : ℕ
  pub written : Bytes

pub data WriteError : Type 0 where
  write_zero timed_out : WriteError
  io : SocketError → WriteError

abbrev pub max_spins : ℕ
max_spins = 1000

abbrev pub Written : Type 0
Written = Writer × Result WriteError (Unit {0})

-- The writer after a call that took the bytes.
abbrev pub put : Bytes → Writer → Writer
put bytes w = record w { writes = suc w.writes; written = w.written ++ bytes }

-- One round of the loop, with the loop's rest.
unfoldable pub write_round :
    (ℕ → Bytes → Writer → Option Written) → ℕ → Bytes → Writer → Attempt → Option Written
write_round rest spins buf w (room zero) = some (put [] w, err write_zero)
write_round rest spins buf w (room (suc n)) = rest 0 (drop (suc n) buf) (put (take (suc n) buf) w)
write_round rest spins buf w blocked =
    if ltb max_spins (suc spins)
    then some (put [] w, err timed_out)
    else rest (suc spins) buf (put [] w)
write_round rest spins buf w (broken e) = some (put [] w, err (io e))

-- The loop; none where the fuel runs out.
unfoldable pub write_loop : ℕ → ℕ → Bytes → Writer → Option Written
write_loop zero spins buf w = none
write_loop (suc fuel) spins [] w = some (w, ok tt)
write_loop (suc fuel) spins (b ∷ bytes) w =
    let rest = write_loop fuel in write_round rest spins (b ∷ bytes) w (w.attempts w.writes)

-- Every byte may wait as often as allowed.
abbrev pub write_fuel : Bytes → ℕ
write_fuel buf = suc (1001 * length buf)

unfoldable pub write_all_nonblocking : Bytes → Writer → Option Written
write_all_nonblocking buf w = write_loop (write_fuel buf) 0 buf w
