-- ===== src/Server/Threads.antt =====
-- The connections of the control plane as interleaved threads (`serve` and `handle_connection` in
-- bastion-server/src/main.rs). What is shared is the registry with the world behind its listener,
-- and the mutex; a step of a thread reads or writes it once. A failure of `accept` itself, which
-- ends the server, and a panic under the lock are not modelled.
pub mod Linear
use mathlib.Core.Logic.{ite}
use native.Mathlib.Decide.{ℕ_discrete}
use ephemwork.Prelude.{ℕ, ◌≡◌, Bool, true, false, Option, none, some, List, [], ◌∷◌, ◌++◌, ok, err}
use ephemwork.Storage.{Codec}
use ephemwork.Registry.{Registry}
use ephemwork.Protocol.{Wire}
use ephemwork.Http.{Request, Response}
use ephemwork.Http.Read.{ReadEvent, RequestError, read_request}
use ephemwork.Server.{Server, ServerConfig, Conditions, locked_route}

-- Where a connection's thread stands. A thread that works has read what is shared and has not
-- written it back.
pub data Phase : Type 0 where
  unborn : Phase
  reading : List ReadEvent → Phase
  waiting : Request → Phase
  working : Request → Server → Phase
  leaving replying : Response → Phase
  closed : Option Response → Phase

pub record System : Type 0 where
  pub server : Server
  pub lock : Option ℕ
  pub phase : ℕ → Phase

abbrev pub update {ℓ} : {A : Type ℓ} → (ℕ → A) → ℕ → A → ℕ → A
update f i a j = ite (ℕ_discrete i j) a (f j)

-- The requests that were routed, with their threads.
abbrev pub Log : Type 0
Log = List (ℕ × Request)

module _ (codec : Codec Registry) (wire : Wire) (cfg : ServerConfig)
    (conditions : ℕ → Conditions) where
  -- One step of thread i, from the shared state, the lock and its phase, to those after it; the
  -- last index is what the step adds to the log.
  pub data Move (i : ℕ) (server : Server) (lock : Option ℕ)
      : Phase → Server → Option ℕ → Phase → Log → Type 0 where
    accept : (events : List ReadEvent) → Move i server lock unborn server lock (reading events) []
    parse :
        {events : List ReadEvent} {req : Request}
        → read_request events ≡ ok req
        → Move i server lock (reading events) server lock (waiting req) []
    reject :
        {events : List ReadEvent} {e : RequestError}
        → read_request events ≡ err e
        → Move i server lock (reading events) server lock (closed none) []
    acquire :
        {req : Request}
        → lock ≡ none
        → Move i server lock (waiting req) server (some i) (working req server) []
    commit :
        {req : Request} {seen : Server}
        → Move i server lock
            (working req seen)
            (locked_route codec wire cfg conditions req seen).1
            lock
            (leaving (locked_route codec wire cfg conditions req seen).0)
            ((i, req) ∷ [])
    release :
        {response : Response}
        → Move i server lock (leaving response) server none (replying response) []
    reply :
        {response : Response}
        → Move i server lock (replying response) server lock (closed (some response)) []
    -- The response cannot be written.
    hang_up :
        {response : Response} → Move i server lock (replying response) server lock (closed none) []

  pub data Reach (first : Server) : Log → System → Type 0 where
    start : Reach first [] (record { server = first; lock = none; phase = λ i. unborn })
    later :
        {log new : Log} {s : System} {server : Server} {lock : Option ℕ} {q : Phase} (i : ℕ)
        → Reach first log s
        → Move i s.server s.lock (s.phase i) server lock q new
        → Reach first
            (log ++ new)
            (record { server = server; lock = lock; phase = update s.phase i q })

-- Whether a thread holds the lock.
abbrev pub is_inside : Phase → Bool
is_inside (working req seen) = true
is_inside (leaving response) = true
is_inside _ = false

-- The response that a thread has.
abbrev pub shown : Phase → Option Response
shown (leaving response) = some response
shown (replying response) = some response
shown (closed response) = response
shown _ = none
