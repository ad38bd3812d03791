-- ===== src/Runner/Stopping.antt =====
-- How a service is stopped.
use ephemwork.Prelude.{
  ℕ, suc, ◌+◌, ◌≡◌, ◌≤◌, ◌<◌, ◌⊎◌, inl, inr, refl, subst, Bool, true, false, leb→le, le→leb, below,
  some, List, [], ◌∷◌, leb, arith,
}
use ephemwork.Polling.{
  Round, again, finished, poll_loop-ends, Polled, now, later, IsTicking, IsTicking-late,
}
use ephemwork.Runner.{
  Probe, exited, not_yet, unknown, Signal, sigterm, sigkill, after_probe, drop_round, drop_service,
}

module _ (clock : ℕ → ℕ) (child : ℕ → Probe) where
  -- SIGKILL is sent only where the child could not be waited for, or was not gone by the end of
  -- the grace period, after rounds in which it ran.
  abbrev pub IsStopped : List Signal → Type 0
  IsStopped signals =
      (k : ℕ) × ((j : ℕ) → j < k → child j ≡ not_yet)
      × (((child k ≡ exited) × (signals ≡ sigterm ∷ []))
          ⊎ ((signals ≡ sigterm ∷ sigkill ∷ [])
              × ((child k ≡ unknown) ⊎ ((child k ≡ not_yet) × (clock 0 + 2000 ≤ clock (suc k))))))

  abbrev Means : ℕ → Round (Unit {0}) (List Signal) → Type 0
  Means k (again u) = child k ≡ not_yet
  Means k (finished signals) =
      ((child k ≡ exited) × (signals ≡ sigterm ∷ []))
      ⊎ ((signals ≡ sigterm ∷ sigkill ∷ [])
          × ((child k ≡ unknown) ⊎ ((child k ≡ not_yet) × (clock 0 + 2000 ≤ clock (suc k)))))

  after_probe-Means :
      (k : ℕ) (p : Probe) (late : Bool)
      → child k ≡ p
      → leb (clock 0 + 2000) (clock (suc k)) ≡ late
      → Means k (after_probe clock child p late)
  unfolding after_probe
  after_probe-Means k exited late e f = inl (e, refl)
  after_probe-Means k not_yet true e f =
      inr (refl, inr (e, leb→le (clock 0 + 2000) (clock (suc k)) f))
  after_probe-Means k not_yet false e f = e
  after_probe-Means k unknown late e f = inr (refl, inl e)

  after_probe-late :
      (p : Probe) → (signals : List Signal) × (after_probe clock child p true ≡ finished signals)
  unfolding after_probe
  after_probe-late exited = (_, refl)
  after_probe-late not_yet = (_, refl)
  after_probe-late unknown = (_, refl)

  drop_round-late :
      (k : ℕ) (u : Unit {0})
      → clock 0 + 2000 ≤ clock (suc k)
      → (signals : List Signal) × (drop_round clock child k u ≡ finished signals)
  unfolding drop_round
  drop_round-late k u h =
      rw (le→leb (clock 0 + 2000) (clock (suc k)) h) (after_probe-late (child k))

  Polled-IsStopped :
      (signals : List Signal) (k : ℕ) (u : Unit {0})
      → ((j : ℕ) → j < k → child j ≡ not_yet)
      → Polled (drop_round clock child) signals k u
      → IsStopped signals
  unfolding drop_round
  Polled-IsStopped signals k u before (now e) =
      (k, before, subst (Means k) e (after_probe-Means k (child k) _ refl refl))
  Polled-IsStopped signals k u before (later {next = next} e p) =
      Polled-IsStopped signals (suc k) next
        (below before (subst (Means k) e (after_probe-Means k (child k) _ refl refl))) p

  -- On a clock that advances by 50 ms at least between two looks at the child, the drop of a
  -- service ends within 41 looks. It has sent SIGTERM, and SIGKILL after it just where the child
  -- could not be waited for or had not exited within two seconds.
  pub drop_service-ends :
      IsTicking clock 50
      → (signals : List Signal) × (drop_service clock child 41 ≡ some signals) × IsStopped signals
  unfolding drop_service
  drop_service-ends ticks =
      let (r, e, p) =
        poll_loop-ends (drop_round clock child) 41 0 tt 40
          (λ u. drop_round-late 40 u (omega (arith, IsTicking-late clock 50 ticks 40)))
          (omega arith) (omega arith) in
      (r, e, Polled-IsStopped r 0 tt (λ j h. absurd (omega arith)) p)
