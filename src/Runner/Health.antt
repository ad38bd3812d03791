-- ===== src/Runner/Health.antt =====
-- When the wait for health ends, and with what.
use ephemwork.Prelude.{
  ℕ, zero, suc, ◌+◌, ◌*◌, ◌≡◌, ◌≤◌, ◌<◌, inl, inr, refl, subst, Bool-cases, Option, none, some,
  Result, ok, err, ltb, ltb→lt, below, arith,
}
use ephemwork.Polling.{
  Round, again, finished, poll_loop-ends, Polled, now, later, IsTicking, IsTicking-late,
}
use ephemwork.Runner.{
  HealthError, HealthCheck, attempt_timeout, is_success, last_or_timeout, judge, health_round,
  wait_for_health,
}

times_up : (n m : ℕ) → 1 ≤ m → n ≤ n * m
times_up zero m h = omega arith
times_up (suc n) m h = omega (arith, h, times_up n m h)

module _ (clock : ℕ → ℕ) (probe : ℕ → ℕ → Result HealthError ℕ) (check : HealthCheck) where
  abbrev pub deadline : ℕ
  deadline = clock 0 + check.overall_timeout

  -- A status 2xx.
  abbrev pub IsTwoHundred : ℕ → Type 0
  IsTwoHundred code = (200 ≤ code) × (code < 300)

  -- Round k was begun in time, and its probe gave no success.
  pub record IsFailedRound (k : ℕ) : Type 0 where
    pub in_time : clock (suc k) < deadline
    pub no_success : (code : ℕ) → probe k (attempt_timeout check) ≡ ok code → ¬ IsTwoHundred code

  -- A success is that of the first probe that had one, in a round begun in time; a failure comes
  -- when the deadline has passed.
  abbrev pub IsVerdict : Result HealthError ℕ → Type 0
  IsVerdict (ok code) =
      (k : ℕ) × (probe k (attempt_timeout check) ≡ ok code)
      × IsTwoHundred code
      × (clock (suc k) < deadline)
      × ((j : ℕ) → j < k → IsFailedRound j)
  IsVerdict (err e) = (k : ℕ) × (deadline ≤ clock (suc k)) × ((j : ℕ) → j < k → IsFailedRound j)

  health_round-late :
      (k : ℕ) (last : Option HealthError)
      → deadline ≤ clock (suc k)
      → (r : Result HealthError ℕ) × (health_round clock probe check k last ≡ finished r)
  unfolding health_round
  health_round-late k last h = elim (Bool-cases (ltb (clock (suc k)) deadline)) [
    | inl early ↦ absurd (ground (arith, early, h))
    | inr past ↦ (err (last_or_timeout last), rw past refl)
  ]

  -- What a round says.
  abbrev Means : ℕ → Round (Option HealthError) (Result HealthError ℕ) → Type 0
  Means k (again last) = IsFailedRound k
  Means k (finished (ok code)) =
      (probe k (attempt_timeout check) ≡ ok code) × IsTwoHundred code × (clock (suc k) < deadline)
  Means k (finished (err e)) = deadline ≤ clock (suc k)

  judge-Means :
      (k : ℕ) (r : Result HealthError ℕ)
      → probe k (attempt_timeout check) ≡ r
      → clock (suc k) < deadline
      → Means k (judge r)
  unfolding judge
  judge-Means k (ok code) e h = elim (Bool-cases (is_success code)) [
    | inl good ↦ rw good (e, (ground (arith, good), ground (arith, good)), h)
    | inr bad ↦ rw bad (record {
      in_time = h;
      no_success = λ c f (low, high).
          let same : c ≡ code = ground (arith, e, f) in ground (arith, same, bad, low, high);
    })
  ]
  judge-Means k (err x) e h = record { in_time = h; no_success = λ c f two. absurd (cc (e, f)) }

  health_round-Means :
      (k : ℕ) (last : Option HealthError) → Means k (health_round clock probe check k last)
  unfolding health_round
  health_round-Means k last = elim (Bool-cases (ltb (clock (suc k)) deadline)) [
    | inl early ↦ rw early (judge-Means k _ refl (ltb→lt (clock (suc k)) deadline early))
    | inr past ↦ rw past (ground (arith, past))
  ]

  finished-IsVerdict :
      (k : ℕ) (r : Result HealthError ℕ)
      → ((j : ℕ) → j < k → IsFailedRound j)
      → Means k (finished r)
      → IsVerdict r
  finished-IsVerdict k (ok code) before (e, good, h) = (k, e, good, h, before)
  finished-IsVerdict k (err x) before h = (k, h, before)

  Polled-IsVerdict :
      (r : Result HealthError ℕ) (k : ℕ) (last : Option HealthError)
      → ((j : ℕ) → j < k → IsFailedRound j)
      → Polled (health_round clock probe check) r k last
      → IsVerdict r
  Polled-IsVerdict r k last before (now e) =
      finished-IsVerdict k r before (subst (Means k) e (health_round-Means k last))
  Polled-IsVerdict r k last before (later {next = next} e p) =
      Polled-IsVerdict r (suc k) next (below before (subst (Means k) e (health_round-Means k last)))
        p

  -- On a clock that advances by the poll interval at least between two rounds, with an interval of
  -- one millisecond at least, the wait ends within as many rounds as the timeout has milliseconds
  -- and one more. It succeeds only with the 2xx status of the first probe that gave one, in a
  -- round begun before the deadline, and fails only after the deadline.
  pub wait_for_health-ends :
      IsTicking clock check.poll_interval
      → 1 ≤ check.poll_interval
      → (r : Result HealthError ℕ) × (wait_for_health clock probe check (suc check.overall_timeout)
          ≡ some r)
        × IsVerdict r
  unfolding wait_for_health
  wait_for_health-ends ticks moves =
      let (r, e, p) =
        poll_loop-ends (health_round clock probe check) (suc check.overall_timeout) 0 none
          check.overall_timeout
          (λ s. health_round-late check.overall_timeout s (
            omega (
              arith,
              IsTicking-late clock check.poll_interval ticks check.overall_timeout,
              times_up check.overall_timeout check.poll_interval moves,
            )))
          (omega arith) (omega arith) in
      (r, e, Polled-IsVerdict r 0 none (λ j h. absurd (omega arith)) p)
