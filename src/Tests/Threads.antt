-- ===== src/Tests/Threads.antt =====
-- Runs of the control plane's threads: a message in pieces, and an interleaving of two connections.
use ephemwork.Prelude.{
  ℕ, ◌≡◌, ◌≢◌, ◌≤◌, ◌⊎◌, refl, false, some, List, [], ◌∷◌, ◌++◌, map, ok, arith, All, length, drop,
}
use mathlib.Core.List.{flatten}
use native.Mathlib.Decide.{ℕ_discrete}
use ephemwork.Text.{codes, is_whitespace}
use ephemwork.Text.Decimal.{decimal, digits_onto}
use ephemwork.Text.Utf8.{as_bytes}
use ephemwork.Protocol.{Bytes}
use ephemwork.Http.{Request, framed, joined}
use ephemwork.Http.Read.{ReadEvent, failed, chunk, read_request}
use ephemwork.Client.{build_request, request_line}
use ephemwork.Client.RoundTrip.{IsPlain, IsToken}
use ephemwork.Client.Chunks.{read_request-chunks}
use ephemwork.Server.Threads.{
  System, Log, Reach, start, later, accept, parse, acquire, commit, release, is_inside, shown,
}
use ephemwork.Server.Threads.Linear.{replayed, IsServed, Reach-linear}
use ephemwork.Tests.Examples.{words, server_config, always_fair, fresh_server}
use ephemwork.Tests.FlatCodec.{flat_codec}

abbrev body : Bytes
body = codes "carol api"

abbrev first_piece : Bytes
first_piece = codes "POST /register HT"

abbrev second_piece : Bytes
second_piece =
    drop 17 (
      joined (codes "POST /register HTTP/1.0") (
        codes "Host: 127.0.0.1"
        ∷ codes "Content-Type: application/json"
        ∷ codes "Content-Length: 9"
        ∷ codes "Connection: close"
        ∷ []))
    ++ 13 ∷ 10 ∷ 13 ∷ 10 ∷ body

loopback-IsPlain : IsPlain (codes "127.0.0.1")
loopback-IsPlain = (refl, refl, refl)

path-IsToken : IsToken (codes "/register")
unfolding is_whitespace
path-IsToken = ((refl, cc), refl)

carol_short : length (build_request (codes "127.0.0.1") (codes "/register") body) ≤ 65536
unfolding build_request request_line framed joined as_bytes decimal digits_onto
carol_short = omega arith

pieces_full : All (λ q. q ≢ []) (first_piece ∷ second_piece ∷ [])
unfolding joined
pieces_full = (cc, (cc, tt))

pieces_join :
    first_piece ++ flatten (second_piece ∷ [])
    ≡ build_request (codes "127.0.0.1") (codes "/register") body
unfolding build_request request_line framed joined as_bytes decimal digits_onto flatten
pieces_join = refl

abbrev carol : Request
carol = record { method = codes "POST"; path = codes "/register"; body = body }

abbrev carol_events : List ReadEvent
carol_events = map chunk (first_piece ∷ second_piece ∷ []) ++ failed ∷ []

carol_read : read_request carol_events ≡ ok carol
carol_read =
    read_request-chunks (codes "127.0.0.1") (codes "/register") body first_piece (second_piece ∷ [])
      (failed ∷ []) loopback-IsPlain path-IsToken carol_short pieces_full pieces_join

read_request-chunks_example : read_request carol_events ≡ ok carol
read_request-chunks_example =
    read_request-chunks (codes "127.0.0.1") (codes "/register") body first_piece (second_piece ∷ [])
      (failed ∷ []) loopback-IsPlain path-IsToken carol_short pieces_full pieces_join

-- Thread 1 is served while thread 0 still reads.
abbrev Runs : Log → System → Type 0
Runs = Reach flat_codec words server_config always_fair fresh_server

abbrev served : (log : Log) × (s : System) × Runs log s
unfolding ℕ_discrete
served = (
  _,
  _,
  later 1
      (later 1
        (later 1
          (later 1 (later 1 (later 0 start (accept (failed ∷ []))) (accept carol_events))
            (parse carol_read))
          (acquire refl))
        commit)
      release,
)

Reach-linear_example :
    (served.1.server ≡ replayed flat_codec words server_config always_fair served.0 fresh_server)
    × ((i : ℕ) → (is_inside (served.1.phase i) ≡ false) ⊎ (served.1.lock ≡ some i))
    × ((i : ℕ)
        → IsServed flat_codec words server_config always_fair fresh_server served.0 i
            (shown (served.1.phase i)))
Reach-linear_example =
    Reach-linear flat_codec words server_config always_fair fresh_server served.0 served.1 served.2
