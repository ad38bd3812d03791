-- ===== src/Cli/Redeploy.antt =====
-- The wait for the command that replaces the control plane (`run_ssm_redeploy` in src/main.rs).
use ephemwork.Prelude.{
  ℕ, suc, ◌+◌, ◌≡◌, ◌≤◌, inl, inr, refl, subst, Bool, true, false, ◌||◌, Option, none, some, Result,
  ok, err, leb, le→leb, Bool-cases, if_both, if◌then◌else◌, arith,
}
use ephemwork.Text.{Text, codes, same}
use ephemwork.Polling.{
  Round, again, finished, poll_loop, poll_loop-ends, Polled, now, later, IsTicking, IsTicking-late,
}

pub data RedeployError : Type 0 where
  poll_timed_out : RedeployError
  ended_with stuck_in : Text → RedeployError

abbrev pub is_failure : Text → Bool
is_failure status =
    same status (codes "Failed")
    || same status (codes "Cancelled")
    || same status (codes "TimedOut")

-- Reading 0 of the clock, in seconds, gives the deadline; `answers k` is the trimmed status that
-- round k gets, none where the call fails, and reading k + 1 is that of round k.
module _ (clock : ℕ → ℕ) (answers : ℕ → Option Text) where
  unfoldable pub after_answer :
      Option Text → Bool → Round (Unit {0}) (Result RedeployError (Unit {0}))
  after_answer none late = if late then finished (err poll_timed_out) else again tt
  after_answer (some status) late =
      if same status (codes "Success")
      then finished (ok tt)
      else if is_failure status
      then finished (err (ended_with status))
      else if late
      then finished (err (stuck_in status))
      else again tt

  unfoldable pub redeploy_round : ℕ → Unit {0} → Round (Unit {0}) (Result RedeployError (Unit {0}))
  unfolding after_answer
  redeploy_round k u = after_answer (answers k) (leb (clock 0 + 180) (clock (suc k)))

  -- At most this many rounds.
  unfoldable pub wait_for_redeploy : ℕ → Option (Result RedeployError (Unit {0}))
  wait_for_redeploy rounds = poll_loop rounds redeploy_round 0 tt

  -- A success is an answer "Success".
  abbrev pub IsReported : Result RedeployError (Unit {0}) → Type 0
  IsReported (ok u) =
      (k : ℕ) × (status : Text) × (answers k ≡ some status) × (same status (codes "Success") ≡ true)
  IsReported (err e) = Unit {0}

  abbrev Means : ℕ → Round (Unit {0}) (Result RedeployError (Unit {0})) → Type 0
  Means k (again u) = Unit {0}
  Means k (finished r) = IsReported r

  after_answer-Means :
      (k : ℕ) (answer : Option Text) (late : Bool)
      → answers k ≡ answer
      → Means k (after_answer answer late)
  unfolding after_answer
  after_answer-Means k none true e = tt
  after_answer-Means k none false e = tt
  after_answer-Means k (some status) late e = elim (Bool-cases (same status (codes "Success"))) [
    | inl good ↦ rw good (k, status, e, good)
    | inr bad ↦ rw bad (if_both (Means k) (is_failure status) tt (if_both (Means k) late tt tt))
  ]

  after_answer-late :
      (answer : Option Text)
      → (r : Result RedeployError (Unit {0})) × (after_answer answer true ≡ finished r)
  unfolding after_answer
  after_answer-late none = (_, refl)
  after_answer-late (some status) =
      if_both (λ x. (r : Result RedeployError (Unit {0})) × (x ≡ finished r))
        (same status (codes "Success")) (_, refl)
        (if_both (λ x. (r : Result RedeployError (Unit {0})) × (x ≡ finished r)) (is_failure status)
          (_, refl) (_, refl))

  Polled-IsReported :
      (r : Result RedeployError (Unit {0})) (k : ℕ) (u : Unit {0})
      → Polled redeploy_round r k u
      → IsReported r
  unfolding redeploy_round
  Polled-IsReported r k u (now e) = subst (Means k) e (after_answer-Means k (answers k) _ refl)
  Polled-IsReported r k u (later {next = next} e p) = Polled-IsReported r (suc k) next p

  redeploy_round-late :
      (k : ℕ) (u : Unit {0})
      → clock 0 + 180 ≤ clock (suc k)
      → (r : Result RedeployError (Unit {0})) × (redeploy_round k u ≡ finished r)
  unfolding redeploy_round
  redeploy_round-late k u h =
      rw (le→leb (clock 0 + 180) (clock (suc k)) h) (after_answer-late (answers k))

  -- On a clock that advances by five seconds at least between two answers, the wait ends within 37
  -- answers, and with success only where one of them was "Success".
  pub wait_for_redeploy-ends :
      IsTicking clock 5
      → (r : Result RedeployError (Unit {0})) × (wait_for_redeploy 37 ≡ some r) × IsReported r
  unfolding wait_for_redeploy
  wait_for_redeploy-ends ticks =
      let (r, e, p) =
        poll_loop-ends redeploy_round 37 0 tt 36
          (λ u. redeploy_round-late 36 u (omega (arith, IsTicking-late clock 5 ticks 36)))
          (omega arith) (omega arith) in
      (r, e, Polled-IsReported r 0 tt p)
