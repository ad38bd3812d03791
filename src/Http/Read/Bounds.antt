-- ===== src/Http/Read/Bounds.antt =====
-- How much of a request is kept in memory while it is read.
use ephemwork.Prelude.{
  ℕ, ◌+◌, ◌≡◌, ◌≤◌, ◌<◌, All, List, [], ◌∷◌, ◌++◌, ok, arith, length, length-append,
}
use ephemwork.Protocol.{Bytes}
use ephemwork.Http.Read.{ReadEvent, failed, chunk, read_loop}

-- A read gives at most n bytes.
abbrev pub IsWithin : ℕ → ReadEvent → Type 0
IsWithin n failed = Unit {0}
IsWithin n (chunk bytes) = length bytes ≤ n

-- Where no read gives more than n bytes, what the reading loop returns is shorter than the cap of
-- 65536 bytes and n together, whatever it started from.
pub read_loop_bounded :
    (n : ℕ) (events : List ReadEvent) (buf out : Bytes)
    → All (IsWithin n) events
    → read_loop events buf ≡ ok out
    → length out < 65536 + n
unfolding read_loop
read_loop_bounded n [] buf out h e = ground arith
read_loop_bounded n (failed ∷ events) buf out h e = ground arith
read_loop_bounded n (chunk [] ∷ events) buf out h e = ground arith
read_loop_bounded n (chunk (b ∷ bytes) ∷ events) buf out (within, rest) e =
    ground
      (arith, length-append buf (b ∷ bytes), read_loop_bounded n events (buf ++ b ∷ bytes) out rest)
