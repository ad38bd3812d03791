-- ===== src/Tunnel/Bridge.antt =====
-- `bridge_bidirectional` of src/tunnel.rs, which copies between two endpoints both ways in turns.
-- The wait of a turn without progress and the buffer's size are not modelled.
pub mod Directions
pub mod Relaying
pub mod Ending
use ephemwork.Prelude.{
  ℕ, zero, suc, ◌+◌, Bool, true, false, ◌&&◌, ◌||◌, Option, none, some, List, [], ◌∷◌, Result, ok,
  err, length, if◌then◌else◌,
}
use ephemwork.Protocol.{Bytes}
use ephemwork.Tunnel.Writing.{SocketError, Writer, WriteError, io, Written, write_all_nonblocking}

-- What `read` gives: bytes, of which none mean the end (`Ok(0)`), nothing for now (`WouldBlock`),
-- or another error.
pub data Input : Type 0 where
  arrived : Bytes → Input
  nothing_yet : Input
  lost : SocketError → Input

-- What the calls of `read` give, how many there were, and the writing half.
pub record Endpoint : Type 0 where
  pub inputs : ℕ → Input
  pub reads : ℕ
  pub writer : Writer

-- One direction: where it is read, where it is written, whether the end was read, the bytes
-- copied, and the error that ends the bridge.
pub record Direction : Type 0 where
  pub reader : Endpoint
  pub target : Writer
  pub is_done : Bool
  pub copied : ℕ
  pub failure : Option WriteError

unfoldable pub after_write : Endpoint → Writer → ℕ → Bytes → Option Written → Direction
after_write src dst copied bytes none = record {
  reader = src;
  target = dst;
  is_done = false;
  copied = copied;
  failure = none;
}
after_write src dst copied bytes (some (w, ok u)) = record {
  reader = src;
  target = w;
  is_done = false;
  copied = copied + length bytes;
  failure = none;
}
after_write src dst copied bytes (some (w, err e)) = record {
  reader = src;
  target = w;
  is_done = false;
  copied = copied;
  failure = some e;
}

unfoldable pub after_read : Endpoint → Writer → ℕ → Input → Direction
unfolding after_write
after_read src dst copied (arrived []) = record {
  reader = src;
  target = dst;
  is_done = true;
  copied = copied;
  failure = none;
}
after_read src dst copied (arrived (b ∷ bytes)) =
    after_write src dst copied (b ∷ bytes) (write_all_nonblocking (b ∷ bytes) dst)
after_read src dst copied nothing_yet = record {
  reader = src;
  target = dst;
  is_done = false;
  copied = copied;
  failure = none;
}
after_read src dst copied (lost e) = record {
  reader = src;
  target = dst;
  is_done = false;
  copied = copied;
  failure = some (io e);
}

abbrev pub read_once : Endpoint → Endpoint
read_once e = record e { reads = suc e.reads }

-- `if !a_done { match a.read(..) .. }`
unfoldable pub pump : Bool → Endpoint → Writer → ℕ → Direction
pump true src dst copied = record {
  reader = src;
  target = dst;
  is_done = true;
  copied = copied;
  failure = none;
}
pump false src dst copied = after_read (read_once src) dst copied (src.inputs src.reads)

pub record Bridge : Type 0 where
  pub a : Endpoint
  pub b : Endpoint
  pub a_to_b : ℕ
  pub b_to_a : ℕ
  pub a_done : Bool
  pub b_done : Bool

-- Where the loop stands: it runs, or it returned the two counts or an error.
pub data Status : Type 0 where
  running : Bridge → Status
  returned : Bridge → Status
  failed : Bridge → WriteError → Status

-- The bridge after its turn from a to b.
abbrev pub with_forth : Bridge → Direction → Bridge
with_forth s d = record s {
  a = d.reader;
  b = record s.b { writer = d.target };
  a_to_b = d.copied;
  a_done = d.is_done;
}

-- The bridge after its turn from b to a.
abbrev pub with_back : Bridge → Direction → Bridge
with_back s d = record s {
  b = d.reader;
  a = record s.a { writer = d.target };
  b_to_a = d.copied;
  b_done = d.is_done;
}

unfoldable pub after_back : Bridge → Direction → Option WriteError → Status
after_back s d none = running (with_back s d)
after_back s d (some e) = failed (with_back s d) e

unfoldable pub turn_back : Bridge → Status
unfolding after_back
turn_back s = let d = pump s.b_done s.b s.a.writer s.b_to_a in after_back s d d.failure

unfoldable pub after_forth : Bridge → Direction → Option WriteError → Status
unfolding turn_back
after_forth s d none = turn_back (with_forth s d)
after_forth s d (some e) = failed (with_forth s d) e

-- The body of the loop.
unfoldable pub turn : Bridge → Status
unfolding after_forth
turn s = let d = pump s.a_done s.a s.b.writer s.a_to_b in after_forth s d d.failure

-- The loop's test; `stop` is what it loads.
unfoldable pub guarded_turn : Bool → Bridge → Status
guarded_turn stop s = if stop || (s.a_done && s.b_done) then returned s else turn s

unfoldable pub next : Bool → Status → Status
unfolding guarded_turn
next stop (running s) = guarded_turn stop s
next stop (returned s) = returned s
next stop (failed s e) = failed s e

-- The loop after a number of turns; `stops` is what each loads of the flag.
unfoldable pub bridge_bidirectional : (ℕ → Bool) → ℕ → Bridge → Status
bridge_bidirectional stops zero s = running s
bridge_bidirectional stops (suc n) s = next (stops n) (bridge_bidirectional stops n s)

-- How the loop begins.
abbrev pub bridge_start : (ℕ → Input) → Writer → (ℕ → Input) → Writer → Bridge
bridge_start inputs_a writer_a inputs_b writer_b = record {
  a = record { inputs = inputs_a; reads = 0; writer = writer_a };
  b = record { inputs = inputs_b; reads = 0; writer = writer_b };
  a_to_b = 0;
  b_to_a = 0;
  a_done = false;
  b_done = false;
}
