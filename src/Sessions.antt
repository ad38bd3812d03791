-- ===== src/Sessions.antt =====
-- The session state of the command line (src/state.rs). A time is a number here: the program only
-- stores it and prints it.
pub mod Table
use ephemwork.Prelude.{
  ℕ, Bool, true, false, not, ◌&&◌, Option, none, some, List, [], ◌∷◌, ◌++◌, Result, contains, ◌==◌,
  if◌then◌else◌,
}
use ephemwork.Text.{Text, same}
use ephemwork.Storage.{FilePath, Disk, Weather, IoError, Codec, save_json, load_json}

pub record Session : Type 0 where
  pub user : Text
  pub service : Text
  pub started_at : ℕ
  pub local_port : ℕ
  pub remote_port : ℕ
  pub pid : Option ℕ
  pub forward_local_ports : List ℕ

pub record State : Type 0 where
  pub sessions : List Session

abbrev pub empty_state : State
empty_state = record { sessions = [] }

-- `retain(p)`
unfoldable pub retain : (Session → Bool) → List Session → List Session
retain p [] = []
retain p (s ∷ ss) = let rest = retain p ss in if p s then s ∷ rest else rest

-- `find(p)`
unfoldable pub find : (Session → Bool) → List Session → Option Session
find p [] = none
find p (s ∷ ss) = let rest = find p ss in if p s then some s else rest

unfoldable pub is_for : Text → Text → Session → Bool
is_for user service s = same s.user user && same s.service service

unfoldable pub upsert : Session → State → State
unfolding retain
upsert session st = record {
  sessions = retain (λ s. not (is_for session.user session.service s)) st.sessions ++ session ∷ [];
}

-- The state without the sessions that match, and those sessions.
unfoldable pub remove_where : (Session → Bool) → State → State × List Session
unfolding retain
remove_where pred st =
    (record { sessions = retain (λ s. not (pred s)) st.sessions }, retain pred st.sessions)

unfoldable pub for_user : Text → State → List Session
unfolding retain
for_user user st = retain (λ s. same s.user user) st.sessions

unfoldable pub forward_owner : Text → ℕ → State → Option Session
unfolding find
forward_owner user port st =
    find (λ s. same s.user user && contains s.forward_local_ports port) st.sessions

module _ (c : Codec State) where
  unfoldable pub save : Weather → State → FilePath → Disk → Disk × Result IoError (Unit {0})
  save w st path d = save_json c w path st d

  unfoldable pub load : Bool → FilePath → Disk → Result IoError State
  load fails path d = load_json c fails empty_state path d
