-- ===== src/Aws/Instances.antt =====
-- The instances in src/aws_bastion_provisioner.rs: what is read of an answer to
-- `describe_instances`, and `wait_until_running`. The calls are parameters; a text for the name of
-- a state is what `as_str` gives for it.
use ephemwork.Prelude.{
  ℕ, suc, ◌+◌, ◌≡◌, ◌≤◌, inl, inr, refl, subst, Bool, true, false, Bool-cases, Option, none, some,
  List, [], ◌∷◌, Result, ok, err, leb, le→leb, if_both, if◌then◌else◌, arith,
}
use ephemwork.Text.{Text, codes, same}
use ephemwork.Provisioner.{InstanceSummary, unwrap_or}
use ephemwork.Polling.{
  Round, again, finished, poll_loop, poll_loop-ends, Polled, now, later, IsTicking, IsTicking-late,
}

pub record Instance : Type 0 where
  pub instance_id : Option Text
  pub state : Option (Option Text)
  pub private_ip_address : Option Text
  pub security_groups : Option (List (Option Text))

-- The reservations of an answer, each with its instances.
abbrev pub Reservations : Type 0
Reservations = Option (List (Option (List Instance)))

-- `and_then`
abbrev pub chain {ℓ κ} : {A : Type ℓ} {B : Type κ} → Option A → (A → Option B) → Option B
chain none f = none
chain (some a) f = f a

-- `and_then(|v| v.into_iter().next())`
abbrev pub first {ℓ} : {A : Type ℓ} → Option (List A) → Option A
first none = none
first (some []) = none
first (some (a ∷ more)) = some a

abbrev pub first_instance : Reservations → Option Instance
first_instance reservations = first (chain (first reservations) (λ r. r))

unfoldable pub state_name : Instance → Option Text
state_name i = chain i.state (λ s. s)

unfoldable pub summary_of : Instance → InstanceSummary
unfolding state_name
summary_of i = record {
  instance_id = unwrap_or i.instance_id [];
  state = unwrap_or (state_name i) [];
  private_ip = i.private_ip_address;
  security_group_id = chain (first i.security_groups) (λ g. g);
}

abbrev pub Summary : Type 0
Summary = Option InstanceSummary

-- From what `describe_instances` answers for the tag and the states that are not terminated.
unfoldable pub find_instance_by_name {ℓ} : {E : Type ℓ} → Result E Reservations → Result E Summary
find_instance_by_name (err e) = err e
find_instance_by_name (ok reservations) =
    ok (chain (first_instance reservations) (λ i. some (summary_of i)))

pub data WaitError {ℓ} (E : Type ℓ) : Type ℓ where
  call_failed : E → WaitError E
  timed_out : WaitError E

abbrev pub names_running : Option Text → Bool
names_running none = false
names_running (some name) = same name (codes "running")

abbrev pub is_running : Reservations → Bool
is_running reservations = names_running (chain (first_instance reservations) state_name)

-- Reading 0 of the clock, in seconds, gives the deadline; `answers k` is what the call of round k
-- gives, and reading k + 1 is that of round k.
module _ {ℓ} {E : Type ℓ} (clock : ℕ → ℕ) (answers : ℕ → Result E Reservations) where
  unfoldable pub after_describe :
      Result E Reservations → Bool → Round (Unit {0}) (Result (WaitError E) (Unit {0}))
  after_describe (err e) late = finished (err (call_failed e))
  after_describe (ok reservations) late =
      if is_running reservations
      then finished (ok tt)
      else if late
      then finished (err timed_out)
      else again tt

  unfoldable pub wait_round : ℕ → Unit {0} → Round (Unit {0}) (Result (WaitError E) (Unit {0}))
  unfolding after_describe
  wait_round k u = after_describe (answers k) (leb (clock 0 + 300) (clock (suc k)))

  -- At most this many rounds.
  unfoldable pub wait_until_running : ℕ → Option (Result (WaitError E) (Unit {0}))
  wait_until_running rounds = poll_loop rounds wait_round 0 tt

  -- A success is an answer whose first instance runs; a failed call is the error that it gave.
  abbrev pub IsObserved : Result (WaitError E) (Unit {0}) → Type ℓ
  IsObserved (ok u) = (k : ℕ) × (r : Reservations) × (answers k ≡ ok r) × (is_running r ≡ true)
  IsObserved (err (call_failed e)) = (k : ℕ) × (answers k ≡ err e)
  IsObserved (err timed_out) = Unit {ℓ}

  abbrev Means : Round (Unit {0}) (Result (WaitError E) (Unit {0})) → Type ℓ
  Means (again u) = Unit {ℓ}
  Means (finished r) = IsObserved r

  after_describe-Means :
      (k : ℕ) (answer : Result E Reservations) (late : Bool)
      → answers k ≡ answer
      → Means (after_describe answer late)
  unfolding after_describe
  after_describe-Means k (err x) late e = (k, e)
  after_describe-Means k (ok r) late e = elim (Bool-cases (is_running r)) [
    | inl good ↦ rw good (k, r, e, good)
    | inr bad ↦ rw bad (if_both Means late tt tt)
  ]

  Polled-IsObserved :
      (r : Result (WaitError E) (Unit {0})) (k : ℕ) (u : Unit {0})
      → Polled wait_round r k u
      → IsObserved r
  unfolding wait_round
  Polled-IsObserved r k u (now e) = subst Means e (after_describe-Means k (answers k) _ refl)
  Polled-IsObserved r k u (later {next = next} e p) = Polled-IsObserved r (suc k) next p

  after_describe-late :
      (answer : Result E Reservations)
      → (r : Result (WaitError E) (Unit {0})) × (after_describe answer true ≡ finished r)
  unfolding after_describe
  after_describe-late (err e) = (_, refl)
  after_describe-late (ok r) =
      if_both (λ x. (s : Result (WaitError E) (Unit {0})) × (x ≡ finished s)) (is_running r)
        (_, refl) (_, refl)

  wait_round-late :
      (k : ℕ) (u : Unit {0})
      → clock 0 + 300 ≤ clock (suc k)
      → (r : Result (WaitError E) (Unit {0})) × (wait_round k u ≡ finished r)
  unfolding wait_round
  wait_round-late k u h =
      rw (le→leb (clock 0 + 300) (clock (suc k)) h) (after_describe-late (answers k))

  -- On a clock that advances by five seconds at least between two answers, the wait ends within 61
  -- answers: with success only where the first instance of one of them runs, with the error of a
  -- call only where the call gave it, and otherwise with the timeout.
  pub wait_until_running-ends :
      IsTicking clock 5
      → (r : Result (WaitError E) (Unit {0})) × (wait_until_running 61 ≡ some r) × IsObserved r
  unfolding wait_until_running
  wait_until_running-ends ticks =
      let (r, e, p) =
        poll_loop-ends wait_round 61 0 tt 60
          (λ u. wait_round-late 60 u (omega (arith, IsTicking-late clock 5 ticks 60))) (omega arith)
          (omega arith) in
      (r, e, Polled-IsObserved r 0 tt p)
