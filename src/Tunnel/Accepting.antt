-- ===== src/Tunnel/Accepting.antt =====
-- The worker of the reverse tunnel, which accepts channels and hands each to a bridge of its own,
-- and the handle around it (src/tunnel.rs). The wait after a refused accept is not modelled.
pub mod Death
use ephemwork.Prelude.{
  ℕ, zero, suc, ◌+◌, Bool, true, false, not, Option, none, some, List, [], ◌∷◌, ◌==◌, if◌then◌else◌,
}

-- An `i32`: n, or -(n + 1).
pub data ℤ : Type 0 where
  pos negsuc : ℕ → ℤ

abbrev pub same_int : ℤ → ℤ → Bool
same_int (pos m) (pos n) = m == n
same_int (negsuc m) (negsuc n) = m == n
same_int (pos m) (negsuc n) = false
same_int (negsuc m) (pos n) = false

-- `ssh2::ErrorCode`
pub data ErrorCode : Type 0 where
  session sftp : ℤ → ErrorCode

-- -37
abbrev pub libssh2_error_eagain : ℤ
libssh2_error_eagain = negsuc 36

unfoldable pub error_code_is_eagain : ErrorCode → Bool
error_code_is_eagain (session c) = same_int c libssh2_error_eagain
error_code_is_eagain (sftp c) = false

unfoldable pub is_fatal_ssh_error : ErrorCode → Bool
unfolding error_code_is_eagain
is_fatal_ssh_error e = not (error_code_is_eagain e)

-- What `accept` returns.
pub data Accept : Type 0 where
  channel : Accept
  refused : ErrorCode → Accept

-- The worker's thread: whether it still runs, the dead flag, and how many channels it handed over.
pub record Worker : Type 0 where
  pub is_running : Bool
  pub dead : Bool
  pub bridges : ℕ

abbrev pub worker_start : Worker
worker_start = record { is_running = true; dead = false; bridges = 0 }

unfoldable pub on_accept : Accept → Worker → Worker
on_accept channel w = record w { bridges = suc w.bridges }
on_accept (refused e) w =
    if is_fatal_ssh_error e then record w { is_running = false; dead = true } else w

-- One round of a running worker; `stop` is what it loads of the flag.
unfoldable pub accept_round : Bool → Accept → Worker → Worker
accept_round stop a w =
    if w.is_running then (if stop then record w { is_running = false } else on_accept a w) else w

-- The worker after a number of rounds.
unfoldable pub accept_loop : (ℕ → Bool) → (ℕ → Accept) → ℕ → Worker
accept_loop stops accepts zero = worker_start
accept_loop stops accepts (suc n) = accept_round (stops n) (accepts n) (accept_loop stops accepts n)

-- The handle; `worker` is the thread that is still to be joined.
pub record ReverseForward : Type 0 where
  pub local_port : ℕ
  pub remote_port : ℕ
  pub stop : Bool
  pub dead : Bool
  pub worker : Option ℕ

-- `from_worker_with_dead`, from what the two flags hold.
unfoldable pub from_worker_with_dead : ℕ → ℕ → Bool → Bool → ℕ → ReverseForward
from_worker_with_dead local_port remote_port stop dead worker = record {
  local_port = local_port;
  remote_port = remote_port;
  stop = stop;
  dead = dead;
  worker = some worker;
}

unfoldable pub from_worker : ℕ → ℕ → Bool → ℕ → ReverseForward
from_worker local_port remote_port stop worker =
    from_worker_with_dead local_port remote_port stop false worker

unfoldable pub is_dead : ReverseForward → Bool
is_dead h = h.dead

abbrev pub joined : Option ℕ → List ℕ
joined none = []
joined (some worker) = worker ∷ []

-- `Drop::drop`: the handle after it, and the threads it joined.
unfoldable pub drop_handle : ReverseForward → ReverseForward × List ℕ
drop_handle h = (record h { stop = true; worker = none }, joined h.worker)

-- `shutdown`, up to the drop of the handle at its end.
unfoldable pub shutdown : ReverseForward → ReverseForward × List ℕ
shutdown h = (record h { stop = true; worker = none }, joined h.worker)
