-- ===== src/Polling.antt =====
-- Loops that poll, as in src/runner.rs and src/commands.rs: each round either goes on with a state
-- or ends the loop. How long a round takes shows in what the clock says in the next.
use ephemwork.Prelude.{
  ℕ, zero, suc, ◌+◌, ◌*◌, ◌≡◌, ◌≤◌, ◌<◌, ◌⊎◌, inl, inr, refl, ap, ◌∙◌, Option, none, some, arith,
}
use native.Mathlib.Decide.{ℕ_discrete}

pub data Round {ℓ κ} (St : Type ℓ) (R : Type κ) : Type (ℓ ⊔ κ) where
  again : St → Round St R
  finished : R → Round St R

-- The loop from round k on, given a number of rounds at most.
unfoldable pub after_round {ℓ κ} :
    {St : Type ℓ} {R : Type κ} → (St → Option R) → Round St R → Option R
after_round rest (again st) = rest st
after_round rest (finished r) = some r

unfoldable pub poll_loop {ℓ κ} :
    {St : Type ℓ} {R : Type κ} → ℕ → (ℕ → St → Round St R) → ℕ → St → Option R
poll_loop zero round k st = none
poll_loop (suc fuel) round k st = after_round (poll_loop fuel round (suc k)) (round k st)

-- From round k and the state on, the loop ends with the result.
pub data Polled {ℓ κ} {St : Type ℓ} {R : Type κ} (round : ℕ → St → Round St R) (r : R)
    : ℕ → St → Type (ℓ ⊔ κ) where
  now : {k : ℕ} {st : St} → round k st ≡ finished r → Polled round r k st
  later :
      {k : ℕ} {st next : St}
      → round k st ≡ again next
      → Polled round r (suc k) next
      → Polled round r k st

Round-cases {ℓ κ} :
    {St : Type ℓ} {R : Type κ} (x : Round St R)
    → ((st : St) × (x ≡ again st)) ⊎ ((r : R) × (x ≡ finished r))
Round-cases (again st) = inl (st, refl)
Round-cases (finished r) = inr (r, refl)

module _ {ℓ κ} {St : Type ℓ} {R : Type κ} (round : ℕ → St → Round St R) where
  goes_on-lt :
      (k m : ℕ) (st next : St)
      → ((s : St) → (r : R) × (round m s ≡ finished r))
      → round k st ≡ again next
      → k ≤ m
      → suc k ≤ m
  goes_on-lt k m st next sure e low = elim (ℕ_discrete k m) [
    | yes here ↦ let (r, f) = sure st in absurd (cc (ap (λ n. round n st) here, e, f))
    | no other ↦ omega (arith, low, other)
  ]

  -- Where some round is sure to end it, the loop ends if it is given that many rounds.
  pub poll_loop-ends :
      (fuel k : ℕ) (st : St) (m : ℕ)
      → ((s : St) → (r : R) × (round m s ≡ finished r))
      → k ≤ m
      → m < k + fuel
      → (r : R) × (poll_loop fuel round k st ≡ some r) × Polled round r k st
  unfolding poll_loop after_round
  poll_loop-ends zero k st m sure low high = absurd (omega (arith, low, high))
  poll_loop-ends (suc fuel) k st m sure low high = elim (Round-cases (round k st)) [
    | inl (next, e) ↦
        let (r, f, p) =
          poll_loop-ends fuel (suc k) next m sure (goes_on-lt k m st next sure e low)
            (omega (arith, high)) in
        (r, ap (after_round (poll_loop fuel round (suc k))) e ∙ f, later e p)
    | inr (r, e) ↦ (r, ap (after_round (poll_loop fuel round (suc k))) e, now e)
  ]

-- The clock: its first reading starts the loop, and between the readings of two rounds lie at
-- least the milliseconds of the sleep.
abbrev pub IsTicking : (ℕ → ℕ) → ℕ → Type 0
IsTicking clock pause =
    (clock 0 ≤ clock 1) × ((k : ℕ) → clock (suc k) + pause ≤ clock (suc (suc k)))

pub IsTicking-late :
    (clock : ℕ → ℕ) (pause : ℕ)
    → IsTicking clock pause
    → (k : ℕ) → clock 0 + k * pause ≤ clock (suc k)
IsTicking-late clock pause ticks zero = omega (arith, ticks.0)
IsTicking-late clock pause ticks (suc k) =
    omega (arith, IsTicking-late clock pause ticks k, ticks.1 k)
