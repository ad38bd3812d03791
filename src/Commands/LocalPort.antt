-- ===== src/Commands/LocalPort.antt =====
-- The wait for a port of this machine (`wait_for_local_port` in src/commands.rs). The connection
-- attempts and the clock are parameters; times are in milliseconds.
use ephemwork.Prelude.{
  ℕ, suc, ◌+◌, ◌*◌, ◌≡◌, ◌≤◌, ◌<◌, refl, subst, Bool, true, false, Option, some, Result, ok, err,
  leb, leb→le, le→leb, below, arith,
}
use ephemwork.Polling.{
  Round, again, finished, poll_loop, poll_loop-ends, Polled, now, later, IsTicking, IsTicking-late,
}

-- The port did not become reachable.
pub data PortWaitError : Type 0 where
  unreachable : ℕ → PortWaitError

-- Reading 0 of the clock gives the deadline; `connects k` and reading k + 1 belong to round k.
module _ (clock : ℕ → ℕ) (connects : ℕ → Bool) (port timeout : ℕ) where
  unfoldable pub after_attempt : Bool → Bool → Round (Unit {0}) (Result PortWaitError (Unit {0}))
  after_attempt true late = finished (ok tt)
  after_attempt false true = finished (err (unreachable port))
  after_attempt false false = again tt

  unfoldable pub port_round : ℕ → Unit {0} → Round (Unit {0}) (Result PortWaitError (Unit {0}))
  unfolding after_attempt
  port_round k u = after_attempt (connects k) (leb (clock 0 + timeout) (clock (suc k)))

  -- At most this many rounds.
  unfoldable pub wait_for_local_port : ℕ → Option (Result PortWaitError (Unit {0}))
  wait_for_local_port rounds = poll_loop rounds port_round 0 tt

  -- A success is an attempt that connected, a failure an attempt that did not and after which the
  -- deadline had passed; no attempt before it had connected.
  abbrev pub IsOutcome : Result PortWaitError (Unit {0}) → Type 0
  IsOutcome (ok u) = (k : ℕ) × (connects k ≡ true) × ((j : ℕ) → j < k → connects j ≡ false)
  IsOutcome (err e) =
      (k : ℕ) × (clock 0 + timeout ≤ clock (suc k)) × ((j : ℕ) → j < suc k → connects j ≡ false)

  abbrev Means : ℕ → Round (Unit {0}) (Result PortWaitError (Unit {0})) → Type 0
  Means k (again u) = connects k ≡ false
  Means k (finished (ok u)) = connects k ≡ true
  Means k (finished (err e)) = (clock 0 + timeout ≤ clock (suc k)) × (connects k ≡ false)

  after_attempt-Means :
      (k : ℕ) (here late : Bool)
      → connects k ≡ here
      → leb (clock 0 + timeout) (clock (suc k)) ≡ late
      → Means k (after_attempt here late)
  unfolding after_attempt
  after_attempt-Means k true late e f = e
  after_attempt-Means k false true e f = (leb→le (clock 0 + timeout) (clock (suc k)) f, e)
  after_attempt-Means k false false e f = e

  after_attempt-late :
      (here : Bool) → (r : Result PortWaitError (Unit {0})) × (after_attempt here true ≡ finished r)
  unfolding after_attempt
  after_attempt-late true = (_, refl)
  after_attempt-late false = (_, refl)

  port_round-late :
      (k : ℕ) (u : Unit {0})
      → clock 0 + timeout ≤ clock (suc k)
      → (r : Result PortWaitError (Unit {0})) × (port_round k u ≡ finished r)
  unfolding port_round
  port_round-late k u h =
      rw (le→leb (clock 0 + timeout) (clock (suc k)) h) (after_attempt-late (connects k))

  finished-IsOutcome :
      (k : ℕ) (r : Result PortWaitError (Unit {0}))
      → ((j : ℕ) → j < k → connects j ≡ false)
      → Means k (finished r)
      → IsOutcome r
  finished-IsOutcome k (ok u) before e = (k, e, before)
  finished-IsOutcome k (err x) before (h, e) = (k, h, below before e)

  Polled-IsOutcome :
      (r : Result PortWaitError (Unit {0})) (k : ℕ) (u : Unit {0})
      → ((j : ℕ) → j < k → connects j ≡ false)
      → Polled port_round r k u
      → IsOutcome r
  unfolding port_round
  Polled-IsOutcome r k u before (now e) =
      finished-IsOutcome k r before
        (subst (Means k) e (after_attempt-Means k (connects k) _ refl refl))
  Polled-IsOutcome r k u before (later {next = next} e p) =
      Polled-IsOutcome r (suc k) next
        (below before (subst (Means k) e (after_attempt-Means k (connects k) _ refl refl))) p

  -- On a clock that advances by 200 ms at least between two attempts, the wait ends within one
  -- attempt more than the timeout has fifths of a second. It succeeds with the first attempt that
  -- connects, and fails only after the deadline where none has.
  pub wait_for_local_port-ends :
      (rounds : ℕ)
      → IsTicking clock 200
      → timeout ≤ rounds * 200
      → (r : Result PortWaitError (Unit {0})) × (wait_for_local_port (suc rounds) ≡ some r)
        × IsOutcome r
  unfolding wait_for_local_port
  wait_for_local_port-ends m ticks enough =
      let (r, e, p) =
        poll_loop-ends port_round (suc m) 0 tt m
          (λ u. port_round-late m u (omega (arith, enough, IsTicking-late clock 200 ticks m)))
          (omega arith) (omega arith) in
      (r, e, Polled-IsOutcome r 0 tt (λ j h. absurd (omega arith)) p)
