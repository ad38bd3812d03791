-- ===== src/Tests/SessionCodec.antt =====
-- A format of the session state that round-trips: before each number stands what it belongs to.
use ephemwork.Prelude.{
  ℕ, zero, suc, ◌≡◌, refl, sym, ap, ◌∙◌, ◌≢◌, Option, none, some, List, [], ◌∷◌, arith,
}
use ephemwork.Text.{Text, trim, trim_start, trim_end, is_whitespace}
use ephemwork.Storage.{Codec, RoundTrips}
use ephemwork.Sessions.{Session, State}

-- What was read of the session before which the rest stands, and the sessions of the rest.
pub record Pending : Type 0 where
  pub user : Text
  pub service : Text
  pub ports : List ℕ
  pub sessions : List Session

abbrev nothing : Pending
nothing = record { user = []; service = []; ports = []; sessions = [] }

abbrev pid_of : ℕ → Option ℕ
pid_of zero = none
pid_of (suc n) = some n

abbrev pid_number : Option ℕ → ℕ
pid_number none = 0
pid_number (some n) = suc n

abbrev ended : ℕ → ℕ → ℕ → ℕ → Pending → Pending
ended started local_port remote_port pid q = record nothing {
  sessions =
      record {
        user = q.user;
        service = q.service;
        started_at = started;
        local_port = local_port;
        remote_port = remote_port;
        pid = pid_of pid;
        forward_local_ports = q.ports;
      }
      ∷ q.sessions;
}

abbrev noted : ℕ → ℕ → Pending → Pending
noted zero n q = record q { user = n ∷ q.user }
noted (suc zero) n q = record q { service = n ∷ q.service }
noted (suc (suc tag)) n q = record q { ports = n ∷ q.ports }

-- 0 stands before a session's numbers, and 1, 2 and 3 before a character of the user, one of the
-- service, and a port.
unfoldable pub read : Text → Pending
read (zero ∷ a ∷ b ∷ c ∷ d ∷ s) = ended a b c d (read s)
read (suc tag ∷ n ∷ s) = noted tag n (read s)
read _ = nothing

unfoldable pub onto : ℕ → List ℕ → Text → Text
onto tag [] rest = rest
onto tag (n ∷ ns) rest = tag ∷ n ∷ onto tag ns rest

unfoldable pub flat : List Session → Text
unfolding onto
flat [] = []
flat (x ∷ xs) =
    0
    ∷ x.started_at
    ∷ x.local_port
    ∷ x.remote_port
    ∷ pid_number x.pid
    ∷ onto 1 x.user (onto 2 x.service (onto 3 x.forward_local_ports (flat xs)))

read-users :
    (u s : Text) (q : Pending)
    → read s ≡ q
    → q.user ≡ []
    → read (onto 1 u s) ≡ record q { user = u }
unfolding read onto
read-users [] s q h k = ground (arith, h, k)
read-users (c ∷ u) s q h k = ground (arith, read-users u s q h k)

read-services :
    (u s : Text) (q : Pending)
    → read s ≡ q
    → q.service ≡ []
    → read (onto 2 u s) ≡ record q { service = u }
unfolding read onto
read-services [] s q h k = ground (arith, h, k)
read-services (c ∷ u) s q h k = ground (arith, read-services u s q h k)

read-ports :
    (u s : Text) (q : Pending)
    → read s ≡ q
    → q.ports ≡ []
    → read (onto 3 u s) ≡ record q { ports = u }
unfolding read onto
read-ports [] s q h k = ground (arith, h, k)
read-ports (c ∷ u) s q h k = ground (arith, read-ports u s q h k)

-- A session is rebuilt from its numbers and what was read before it.
ended-flat :
    (x : Session) (xs : List Session)
    → ended x.started_at x.local_port x.remote_port (pid_number x.pid) (record {
      user = x.user;
      service = x.service;
      ports = x.forward_local_ports;
      sessions = xs;
    })
      ≡ record nothing { sessions = x ∷ xs }
ended-flat x xs = ground arith

read-flat : (xs : List Session) → read (flat xs) ≡ record nothing { sessions = xs }
unfolding read flat
read-flat [] = refl
read-flat (x ∷ xs) =
    let ports = read-ports x.forward_local_ports (flat xs) _ (read-flat xs) refl in
    let services = read-services x.service (onto 3 x.forward_local_ports (flat xs)) _ ports refl in
    let users =
      read-users x.user (onto 2 x.service (onto 3 x.forward_local_ports (flat xs))) _ services
        refl in
    rw users (ended-flat x xs)

unfoldable pub encode : State → Option Text
encode st = some (b'{' ∷ flat st.sessions)

unfoldable pub decode : Text → Option State
decode [] = none
decode (brace ∷ s) = some (record { sessions = (read s).sessions })

abbrev pub session_codec : Codec State
session_codec = record { encode = encode; decode = decode }

trim-brace : (s : Text) → trim (b'{' ∷ s) ≢ []
unfolding trim trim_start trim_end is_whitespace
trim-brace s = ground arith

pub session_codec-RoundTrips : RoundTrips session_codec
unfolding encode decode
session_codec-RoundTrips st t h =
    let e : b'{' ∷ flat st.sessions ≡ t = cc in
    (
      rw (sym e) (rw (read-flat st.sessions) refl),
      λ x. trim-brace (flat st.sessions) (ap trim e ∙ x),
    )
