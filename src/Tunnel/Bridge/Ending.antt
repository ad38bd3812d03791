-- ===== src/Tunnel/Bridge/Ending.antt =====
-- When the bridge ends.
use ephemwork.Prelude.{
  ℕ, zero, suc, ◌≡◌, ◌⊎◌, inl, inr, Bool, true, ◌&&◌, ◌||◌, Bool-cases, Option, none, some, arith,
}
use ephemwork.Tunnel.Writing.{Writer, WriteError}
use ephemwork.Tunnel.Bridge.{
  Input, Bridge, Direction, pump, Status, running, returned, failed, after_back, turn_back,
  after_forth, turn, guarded_turn, next, bridge_bidirectional, bridge_start,
}
use ephemwork.Tunnel.Bridge.Directions.{IsClosed}
use ephemwork.Tunnel.Bridge.Relaying.{Relayed, bridge-Relayed}

-- Where the loop has returned, the flag was set or both ends are done.
abbrev HasReason : (ℕ → Bool) → Status → Type 0
HasReason stops (running s) = Unit {0}
HasReason stops (returned s) =
    ((k : ℕ) × (stops k ≡ true)) ⊎ ((s.a_done ≡ true) × (s.b_done ≡ true))
HasReason stops (failed s e) = Unit {0}

module _ (stops : ℕ → Bool) where
  after_back-HasReason :
      (s : Bridge) (d : Direction) (f : Option WriteError) → HasReason stops (after_back s d f)
  unfolding after_back
  after_back-HasReason s d none = tt
  after_back-HasReason s d (some e) = tt

  turn_back-HasReason : (s : Bridge) → HasReason stops (turn_back s)
  unfolding turn_back
  turn_back-HasReason s = after_back-HasReason s (pump s.b_done s.b s.a.writer s.b_to_a) _

  after_forth-HasReason :
      (s : Bridge) (d : Direction) (f : Option WriteError) → HasReason stops (after_forth s d f)
  unfolding after_forth
  after_forth-HasReason s d none = turn_back-HasReason _
  after_forth-HasReason s d (some e) = tt

  or_reason :
      (n : ℕ) (a b : Bool)
      → stops n || (a && b) ≡ true
      → ((k : ℕ) × (stops k ≡ true)) ⊎ ((a ≡ true) × (b ≡ true))
  or_reason n a b h = elim (Bool-cases (stops n)) [
    | inl set ↦ inl (n, set)
    | inr clear ↦ inr (ground (arith, h, clear), ground (arith, h, clear))
  ]

  next-HasReason : (n : ℕ) (t : Status) → HasReason stops t → HasReason stops (next (stops n) t)
  unfolding next guarded_turn turn
  next-HasReason n (running s) h = elim (Bool-cases (stops n || (s.a_done && s.b_done))) [
    | inl out ↦ rw out (or_reason n s.a_done s.b_done out)
    | inr on ↦ rw on (after_forth-HasReason s (pump s.a_done s.a s.b.writer s.a_to_b) _)
  ]
  next-HasReason n (returned s) h = h
  next-HasReason n (failed s e) h = tt

  bridge-HasReason : (n : ℕ) (s : Bridge) → HasReason stops (bridge_bidirectional stops n s)
  unfolding bridge_bidirectional
  bridge-HasReason zero s = tt
  bridge-HasReason (suc n) s = next-HasReason n _ (bridge-HasReason n s)

module _ (inputs_a : ℕ → Input) (writer_a : Writer) (inputs_b : ℕ → Input) (writer_b : Writer) where
  -- The bridge has returned only after the flag was set or both endpoints were closed.
  abbrev pub IsEnding : (ℕ → Bool) → Status → Type 0
  IsEnding stops (running s) = Unit {0}
  IsEnding stops (returned s) =
      ((k : ℕ) × (stops k ≡ true)) ⊎ (IsClosed inputs_a × IsClosed inputs_b)
  IsEnding stops (failed s e) = Unit {0}

  ending :
      (stops : ℕ → Bool) (t : Status)
      → Relayed inputs_a writer_a inputs_b writer_b t
      → HasReason stops t
      → IsEnding stops t
  ending stops (running s) relayed reason = tt
  ending stops (returned s) relayed (inl stopped) = inl stopped
  ending stops (returned s) relayed (inr (a, b)) = inr (relayed.0.ended a, relayed.1.ended b)
  ending stops (failed s e) relayed reason = tt

  -- At every moment, all that was read from each endpoint is written to the other, in order and
  -- once, after what it had before, and the counts are the lengths; after an error the two have
  -- got the beginning of what was read. The bridge has returned its counts only where the stop
  -- flag was set or both endpoints were closed.
  pub bridge-relays :
      (stops : ℕ → Bool) (n : ℕ)
      → let t = bridge_bidirectional stops n (bridge_start inputs_a writer_a inputs_b writer_b) in
        Relayed inputs_a writer_a inputs_b writer_b t × IsEnding stops t
  bridge-relays stops n =
      let start = bridge_start inputs_a writer_a inputs_b writer_b in
      let relayed = bridge-Relayed inputs_a writer_a inputs_b writer_b stops n in
      (relayed, ending stops _ relayed (bridge-HasReason stops n start))
