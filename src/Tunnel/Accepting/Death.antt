-- ===== src/Tunnel/Accepting/Death.antt =====
-- When the worker calls the tunnel dead.
use ephemwork.Prelude.{ℕ, suc, ◌≡◌, ◌<◌, Bool, true, false}
use ephemwork.Tunnel.Accepting.{Accept, channel, refused, ErrorCode, is_fatal_ssh_error, Worker}

abbrev pub is_fatal : Accept → Bool
is_fatal channel = false
is_fatal (refused e) = is_fatal_ssh_error e

-- In round k accept gave a fatal error, and no round until then saw the stop flag or such an error.
pub record DiesAt (stops : ℕ → Bool) (accepts : ℕ → Accept) (k : ℕ) : Type 0 where
  pub code : ErrorCode
  pub gave : accepts k ≡ refused code
  pub fatal : is_fatal_ssh_error code ≡ true
  pub unstopped : (j : ℕ) → j < suc k → stops j ≡ false
  pub alive : (j : ℕ) → j < k → is_fatal (accepts j) ≡ false

-- The worker ran until round n, and nothing has ended it.
record IsLive (stops : ℕ → Bool) (accepts : ℕ → Accept) (n : ℕ) : Type 0 where
  unstopped : (j : ℕ) → j < n → stops j ≡ false
  alive : (j : ℕ) → j < n → is_fatal (accepts j) ≡ false

-- The worker saw the stop flag in round k.
record IsStoppedAt (stops : ℕ → Bool) (accepts : ℕ → Accept) (k : ℕ) : Type 0 where
  seen : stops k ≡ true
  alive : (j : ℕ) → j < k → is_fatal (accepts j) ≡ false

module _ (stops : ℕ → Bool) (accepts : ℕ → Accept) where
  -- Where the worker stands.
  data Stands (n : ℕ) (w : Worker) : Type 0 where
    live : w.is_running ≡ true → w.dead ≡ false → IsLive stops accepts n → Stands n w
    died :
        w.is_running ≡ false → w.dead ≡ true → (k : ℕ) → k < n → DiesAt stops accepts k → Stands n w
    stopped :
        w.is_running ≡ false
        → w.dead ≡ false
        → (k : ℕ) → k < n
        → IsStoppedAt stops accepts k
        → Stands n w
