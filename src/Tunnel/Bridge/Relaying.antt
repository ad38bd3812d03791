-- ===== src/Tunnel/Bridge/Relaying.antt =====
-- What the bridge copies both ways.
use ephemwork.Prelude.{
  ℕ, zero, suc, ◌≡◌, refl, sym, Bool, false, ◌&&◌, ◌||◌, if_both, Option, none, some, append-nil,
}
use ephemwork.Tunnel.Writing.{Writer, WriteError}
use ephemwork.Tunnel.Bridge.{
  Input, Direction, pump, Bridge, Status, running, returned, failed, with_forth, after_back,
  turn_back, after_forth, turn, guarded_turn, next, bridge_bidirectional, bridge_start,
}
use ephemwork.Tunnel.Bridge.Directions.{
  OneWay, PartWay, OneWay-PartWay, OneWay-with, PartWay-with, Moves, pump-Moves, pump-keeps,
}

start_way :
    (inputs : ℕ → Input) (own dst : Writer)
    → OneWay inputs dst.written (record { inputs = inputs; reads = 0; writer = own }) dst 0 false
start_way inputs own dst = record {
  kept = refl;
  delivered = sym (append-nil dst.written);
  counted = refl;
  ended = λ e. absurd (cc);
}

module _ (inputs_a : ℕ → Input) (writer_a : Writer) (inputs_b : ℕ → Input) (writer_b : Writer) where
  abbrev IsRelayed : Bridge → Type 0
  IsRelayed s =
      OneWay inputs_a writer_b.written s.a s.b.writer s.a_to_b s.a_done
      × OneWay inputs_b writer_a.written s.b s.a.writer s.b_to_a s.b_done

  abbrev IsPartlyRelayed : Bridge → Type 0
  IsPartlyRelayed s =
      PartWay inputs_a writer_b.written s.a s.b.writer
      × PartWay inputs_b writer_a.written s.b s.a.writer

  -- Each endpoint was written what the other gave: all of it, or its beginning after an error.
  abbrev pub Relayed : Status → Type 0
  Relayed (running s) = IsRelayed s
  Relayed (returned s) = IsRelayed s
  Relayed (failed s e) = IsPartlyRelayed s

  after_back-Relayed :
      (s : Bridge) (d : Direction) (f : Option WriteError)
      → IsRelayed s
      → Moves inputs_b writer_a.written d
      → d.reader.writer ≡ s.b.writer
      → d.failure ≡ f
      → Relayed (after_back s d f)
  unfolding after_back
  after_back-Relayed s d none h m e g = (
    OneWay-with inputs_a writer_b.written s.a d.target s.b.writer d.reader.writer s.a_to_b s.a_done
        e h.0,
    m.0 g,
  )
  after_back-Relayed s d (some x) h m e g = (
    PartWay-with inputs_a writer_b.written s.a d.target s.b.writer d.reader.writer e
        (OneWay-PartWay inputs_a writer_b.written s.a s.b.writer s.a_to_b s.a_done h.0),
    m.1,
  )

  turn_back-Relayed : (s : Bridge) → IsRelayed s → Relayed (turn_back s)
  unfolding turn_back
  turn_back-Relayed s h =
      after_back-Relayed s (pump s.b_done s.b s.a.writer s.b_to_a)
        (pump s.b_done s.b s.a.writer s.b_to_a).failure h
        (pump-Moves inputs_b writer_a.written s.b_done s.b s.a.writer s.b_to_a h.1)
        (pump-keeps s.b_done s.b s.a.writer s.b_to_a) refl

  after_forth-Relayed :
      (s : Bridge) (d : Direction) (f : Option WriteError)
      → IsRelayed s
      → Moves inputs_a writer_b.written d
      → d.reader.writer ≡ s.a.writer
      → d.failure ≡ f
      → Relayed (after_forth s d f)
  unfolding after_forth
  after_forth-Relayed s d none h m e g = turn_back-Relayed (with_forth s d) (
    m.0 g,
    OneWay-with inputs_b writer_a.written s.b d.target s.a.writer d.reader.writer s.b_to_a s.b_done
        e h.1,
  )
  after_forth-Relayed s d (some x) h m e g = (
    m.1,
    PartWay-with inputs_b writer_a.written s.b d.target s.a.writer d.reader.writer e
        (OneWay-PartWay inputs_b writer_a.written s.b s.a.writer s.b_to_a s.b_done h.1),
  )

  turn-Relayed : (s : Bridge) → IsRelayed s → Relayed (turn s)
  unfolding turn
  turn-Relayed s h =
      after_forth-Relayed s (pump s.a_done s.a s.b.writer s.a_to_b)
        (pump s.a_done s.a s.b.writer s.a_to_b).failure h
        (pump-Moves inputs_a writer_b.written s.a_done s.a s.b.writer s.a_to_b h.0)
        (pump-keeps s.a_done s.a s.b.writer s.a_to_b) refl

  next-Relayed : (stop : Bool) (t : Status) → Relayed t → Relayed (next stop t)
  unfolding next guarded_turn
  next-Relayed stop (running s) h =
      if_both Relayed (stop || (s.a_done && s.b_done)) h (turn-Relayed s h)
  next-Relayed stop (returned s) h = h
  next-Relayed stop (failed s e) h = h

  pub bridge-Relayed :
      (stops : ℕ → Bool) (n : ℕ)
      → Relayed (bridge_bidirectional stops n (bridge_start inputs_a writer_a inputs_b writer_b))
  unfolding bridge_bidirectional
  bridge-Relayed stops zero =
      (start_way inputs_a writer_a writer_b, start_way inputs_b writer_b writer_a)
  bridge-Relayed stops (suc n) = next-Relayed (stops n) _ (bridge-Relayed stops n)
