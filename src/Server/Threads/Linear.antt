-- ===== src/Server/Threads/Linear.antt =====
-- Whatever the interleaving, the control plane serves one request after another.
use mathlib.Core.Logic.{if_pos, if_neg}
use native.Mathlib.Decide.{ℕ_discrete}
use ephemwork.Prelude.{
  ℕ, ◌≡◌, ◌≢◌, refl, sym, ap, ◌∙◌, ◌⊎◌, inl, inr, Bool, true, false, Option, none, some, [], ◌∷◌,
  ◌++◌, map, arith, append-nil, append_assoc,
}
use ephemwork.Storage.{Codec}
use ephemwork.Registry.{Registry}
use ephemwork.Protocol.{Wire}
use ephemwork.Http.{Request, Response}
use ephemwork.Server.{Server, ServerConfig, Conditions, locked_route, run}
use ephemwork.Server.Threads.{
  Phase, reading, waiting, working, leaving, replying, closed, System, update, Log, Move, accept,
  parse, reject, acquire, commit, release, reply, hang_up, Reach, start, later, is_inside, shown,
}

update-cases {ℓ} :
    {A : Type ℓ} (f : ℕ → A) (i : ℕ) (a : A) (j : ℕ)
    → ((i ≡ j) × (update f i a j ≡ a)) ⊎ ((i ≢ j) × (update f i a j ≡ f j))
update-cases f i a j = elim (ℕ_discrete i j) [
  | yes here ↦ inl (here, if_pos (ℕ_discrete i j) here a (f j))
  | no other ↦ inr (other, if_neg (ℕ_discrete i j) other a (f j))
]

module _ (codec : Codec Registry) (wire : Wire) (cfg : ServerConfig)
    (conditions : ℕ → Conditions) where
  -- The server after the requests of a log, one after another.
  abbrev pub replayed : Log → Server → Server
  replayed log s = run codec wire cfg conditions (map (λ e. e.1) log) s

  replayed-append : (xs ys : Log) (s : Server) → replayed (xs ++ ys) s ≡ replayed ys (replayed xs s)
  unfolding run
  replayed-append [] ys s = refl
  replayed-append ((i, req) ∷ xs) ys s =
      replayed-append xs ys (locked_route codec wire cfg conditions req s).1

  -- The response is the one that a request of thread i gets at its place in the log.
  abbrev pub IsAnswered : Server → Log → ℕ → Response → Type 0
  IsAnswered first log i response =
      (before after : Log) × (req : Request) × (log ≡ before ++ (i, req) ∷ after)
      × (response ≡ (locked_route codec wire cfg conditions req (replayed before first)).0)

  record Inv (first : Server) (log : Log) (s : System) : Type 0 where
    current : s.server ≡ replayed log first
    holds : (j : ℕ) → is_inside (s.phase j) ≡ true → s.lock ≡ some j
    fresh : (j : ℕ) (req : Request) (seen : Server) → s.phase j ≡ working req seen → seen ≡ s.server
    answered :
        (j : ℕ) (response : Response)
        → shown (s.phase j) ≡ some response
        → IsAnswered first log j response

  IsAnswered-append :
      (first : Server) (log new : Log) (i : ℕ) (response : Response)
      → IsAnswered first log i response
      → IsAnswered first (log ++ new) i response
  IsAnswered-append first log new i response (before, after, req, e, r) =
      (before, after ++ new, req, rw e (append_assoc before ((i, req) ∷ after) new), r)

  module _ (first : Server) (log : Log) (s : System) (inv : Inv first log s) (i : ℕ) where
    -- A step that leaves the server and adds nothing to the log.
    quiet-Inv :
        (lock : Option ℕ) (q : Phase)
        → ((j : ℕ) → is_inside (update s.phase i q j) ≡ true → lock ≡ some j)
        → ((req : Request) (seen : Server) → q ≡ working req seen → seen ≡ s.server)
        → ((response : Response) → shown q ≡ some response → shown (s.phase i) ≡ some response)
        → Inv first
            (log ++ [])
            (record { server = s.server; lock = lock; phase = update s.phase i q })
    quiet-Inv lock q holds fresh shows = record {
      current = rw (append-nil log) inv.current;
      holds = holds;
      fresh = λ j req seen e. elim (update-cases s.phase i q j) [
        | inl (here, u) ↦ fresh req seen (sym u ∙ e)
        | inr (other, u) ↦ inv.fresh j req seen (sym u ∙ e)
      ];
      answered = λ j response e.
          IsAnswered-append first log [] j response (elim (update-cases s.phase i q j) [
            | inl (here, u) ↦
                rw (sym here) (inv.answered i response (shows response (ap shown (sym u) ∙ e)))
            | inr (other, u) ↦ inv.answered j response (ap shown (sym u) ∙ e)
          ]);
    }

    -- A thread outside leaves the lock to its holder.
    outside-holds :
        (q : Phase)
        → is_inside q ≡ false
        → (j : ℕ) → is_inside (update s.phase i q j) ≡ true
        → s.lock ≡ some j
    outside-holds q out j e = elim (update-cases s.phase i q j) [
      | inl (here, u) ↦ absurd (ground (arith, ap is_inside u))
      | inr (other, u) ↦ inv.holds j (ap is_inside (sym u) ∙ e)
    ]

    acquire-holds :
        (req : Request)
        → s.lock ≡ none
        → (j : ℕ) → is_inside (update s.phase i (working req s.server) j) ≡ true
        → some i ≡ some j
    acquire-holds req free j e = elim (update-cases s.phase i (working req s.server) j) [
      | inl (here, u) ↦ ap some here
      | inr (other, u) ↦ absurd (cc (inv.holds j (ap is_inside (sym u) ∙ e)))
    ]

    release-holds :
        (response : Response)
        → is_inside (s.phase i) ≡ true
        → (j : ℕ) → is_inside (update s.phase i (replying response) j) ≡ true
        → none ≡ some j
    release-holds response held j e = elim (update-cases s.phase i (replying response) j) [
      | inl (here, u) ↦ absurd (ground (arith, ap is_inside u))
      | inr (other, u) ↦
          absurd (ground (arith, other, inv.holds i held, inv.holds j (ap is_inside (sym u) ∙ e)))
    ]

    commit-Inv :
        (req : Request) (seen : Server)
        → s.phase i ≡ working req seen
        → Inv first (log ++ (i, req) ∷ []) (record {
          server = (locked_route codec wire cfg conditions req seen).1;
          lock = s.lock;
          phase = update s.phase i (leaving (locked_route codec wire cfg conditions req seen).0);
        })
    unfolding run
    commit-Inv req seen e =
        let response = (locked_route codec wire cfg conditions req seen).0 in
        let q = leaving response in
        let current = inv.fresh i req seen e ∙ inv.current in
        record {
          current =
              rw (replayed-append log ((i, req) ∷ []) first)
                (ap (λ x. (locked_route codec wire cfg conditions req x).1) current);
          holds = λ j h. elim (update-cases s.phase i q j) [
            | inl (here, u) ↦ rw (sym here) (inv.holds i (ap is_inside e))
            | inr (other, u) ↦ inv.holds j (ap is_inside (sym u) ∙ h)
          ];
          fresh = λ j r x h. elim (update-cases s.phase i q j) [
            | inl (here, u) ↦ absurd (ground (arith, sym u ∙ h))
            | inr (other, u) ↦ absurd (
                ground (
                  arith,
                  other,
                  inv.holds i (ap is_inside e),
                  inv.holds j (ap is_inside (sym u ∙ h)),
                ))
          ];
          answered = λ j r h. elim (update-cases s.phase i q j) [
            | inl (here, u) ↦ (
              log,
              [],
              req,
              ap (λ x. log ++ (x, req) ∷ []) here,
              ground (arith, sym (ap shown u) ∙ h)
                  ∙ ap (λ x. (locked_route codec wire cfg conditions req x).0) current,
            )
            | inr (other, u) ↦
                IsAnswered-append first log ((i, req) ∷ []) j r
                  (inv.answered j r (ap shown (sym u) ∙ h))
          ];
        }

  Move-Inv :
      (first : Server) (log new : Log) (s : System) (inv : Inv first log s) (i : ℕ) (p q : Phase)
      (server : Server) (lock : Option ℕ)
      → s.phase i ≡ p
      → Move codec wire cfg conditions i s.server s.lock p server lock q new
      → Inv first (log ++ new) (record { server = server; lock = lock; phase = update s.phase i q })
  Move-Inv first log new s inv i p q server lock e (accept events) =
      quiet-Inv first log s inv i s.lock (reading events)
        (outside-holds first log s inv i (reading events) refl) (λ req seen h. absurd (cc))
        (λ response h. absurd (cc))
  Move-Inv first log new s inv i p q server lock e (parse {events} {req} r) =
      quiet-Inv first log s inv i s.lock (waiting req)
        (outside-holds first log s inv i (waiting req) refl) (λ req' seen h. absurd (cc))
        (λ response h. absurd (cc))
  Move-Inv first log new s inv i p q server lock e (reject r) =
      quiet-Inv first log s inv i s.lock (closed none)
        (outside-holds first log s inv i (closed none) refl) (λ req seen h. absurd (cc))
        (λ response h. absurd (cc))
  Move-Inv first log new s inv i p q server lock e (acquire {req} free) =
      quiet-Inv first log s inv i (some i) (working req s.server)
        (acquire-holds first log s inv i req free) (λ req' seen h. ground (arith, h))
        (λ response h. absurd (cc))
  Move-Inv first log new s inv i p q server lock e (commit {req} {seen}) =
      commit-Inv first log s inv i req seen e
  Move-Inv first log new s inv i p q server lock e (release {response}) =
      quiet-Inv first log s inv i none (replying response)
        (release-holds first log s inv i response (ap is_inside e)) (λ req seen h. absurd (cc))
        (λ r h. ap shown e ∙ h)
  Move-Inv first log new s inv i p q server lock e (reply {response}) =
      quiet-Inv first log s inv i s.lock (closed (some response))
        (outside-holds first log s inv i (closed (some response)) refl) (λ req seen h. absurd (cc))
        (λ r h. ap shown e ∙ h)
  Move-Inv first log new s inv i p q server lock e (hang_up {response}) =
      quiet-Inv first log s inv i s.lock (closed none)
        (outside-holds first log s inv i (closed none) refl) (λ req seen h. absurd (cc))
        (λ r h. absurd (cc))

  Reach-Inv :
      (first : Server) (log : Log) (s : System)
      → Reach codec wire cfg conditions first log s
      → Inv first log s
  unfolding run
  Reach-Inv first log s start = record {
    current = refl;
    holds = λ j h. absurd (cc);
    fresh = λ j req seen h. absurd (cc);
    answered = λ j response h. absurd (cc);
  }
  Reach-Inv first log s (later {log = before} {new} {s = earlier} {server} {lock} {q} i r m) =
      Move-Inv first before new earlier (Reach-Inv first before earlier r) i (earlier.phase i) q
        server lock refl m

  -- A response that is there is the one of `IsAnswered`.
  abbrev pub IsServed : Server → Log → ℕ → Option Response → Type 0
  IsServed first log i none = Unit {0}
  IsServed first log i (some response) = IsAnswered first log i response

  answered-IsServed :
      (first : Server) (log : Log) (i : ℕ) (shows : Option Response)
      → ((response : Response) → shows ≡ some response → IsAnswered first log i response)
      → IsServed first log i shows
  answered-IsServed first log i none h = tt
  answered-IsServed first log i (some response) h = h response refl

  outside_or_holder :
      (inside : Bool) (lock : Option ℕ) (i : ℕ)
      → (inside ≡ true → lock ≡ some i)
      → (inside ≡ false) ⊎ (lock ≡ some i)
  outside_or_holder true lock i h = inr (h refl)
  outside_or_holder false lock i h = inl refl

  -- However the steps of the connections' threads interleave, only the thread that has the lock is
  -- inside, the shared registry and world are those after serving the logged requests one after
  -- another with no interleaving, and whoever has a response has the one that its own request gets
  -- at its place in that order.
  pub Reach-linear :
      (first : Server) (log : Log) (s : System)
      → Reach codec wire cfg conditions first log s
      → (s.server ≡ replayed log first)
        × ((i : ℕ) → (is_inside (s.phase i) ≡ false) ⊎ (s.lock ≡ some i))
        × ((i : ℕ) → IsServed first log i (shown (s.phase i)))
  Reach-linear first log s r =
      let inv = Reach-Inv first log s r in
      (
        inv.current,
        λ i. outside_or_holder (is_inside (s.phase i)) s.lock i (inv.holds i),
        λ i. answered-IsServed first log i (shown (s.phase i)) (inv.answered i),
      )
