-- ===== src/Commands/Showing.antt =====
-- `status` and its text, and the header of a session (src/commands.rs). How a time is printed is a
-- parameter.
use ephemwork.Prelude.{
  ℕ, zero, suc, ◌-◌, ◌≡◌, refl, Bool, true, false, Option, none, some, List, [], ◌∷◌, ◌++◌, Result,
  ok, err, length, all, arith,
}
use ephemwork.Text.{Text, codes, same}
use ephemwork.Text.Decimal.{decimal}
use ephemwork.Storage.{FilePath, Disk, IoError, Codec}
use ephemwork.Sessions.{Session, State, for_user, load, retain, find, is_for}
use ephemwork.Sessions.Table.{session_of}

pub record StatusOutput : Type 0 where
  pub user : Text
  pub sessions : List Session

-- `status`, once it has the user and the path.
unfoldable pub status : Codec State → Bool → FilePath → Text → Disk → Result IoError StatusOutput
status c unreadable path user d = elim (load c unreadable path d) [
  | err e ↦ err e
  | ok st ↦ ok (record { user = user; sessions = for_user user st })
]

-- n spaces.
abbrev pub spaces : ℕ → Text
spaces zero = []
spaces (suc n) = 32 ∷ spaces n

-- `{:<20}`
abbrev pub padded : Text → Text
padded s = s ++ spaces (20 - length s)

abbrev pub pid_text : Option ℕ → Text
pid_text none = codes "?"
pid_text (some p) = decimal p

module _ (to_rfc3339 : ℕ → Text) where
  unfoldable pub session_line : Session → Text
  session_line s =
      codes "  "
      ++ (padded s.service
          ++ (codes " local:"
              ++ (decimal s.local_port
                  ++ (codes " -> bastion:"
                      ++ (decimal s.remote_port
                          ++ (codes "  pid="
                              ++ (pid_text s.pid
                                  ++ (codes "  since " ++ to_rfc3339 s.started_at))))))))

  -- The lines after the first, each behind a line feed.
  unfoldable pub session_lines : List Session → Text
  unfolding session_line
  session_lines [] = []
  session_lines (s ∷ sessions) = 10 ∷ (session_line s ++ session_lines sessions)

  unfoldable pub render_status : StatusOutput → Text
  unfolding session_lines
  render_status out = elim out.sessions [
    | [] ↦ codes "no active ephemwork sessions for " ++ out.user
    | s ∷ sessions ↦
        codes "active sessions for " ++ (out.user ++ (codes ":" ++ session_lines (s ∷ sessions)))
  ]

-- `ActiveSession::header_value` and `header_line`.
unfoldable pub header_value : Text → Text → Text
header_value user service = user ++ b':' ∷ service

unfoldable pub header_line : Text → Text → Text
unfolding header_value
header_line user service = codes "X-Ephemwork: " ++ header_value user service

-- A session that is there for its user and service is among those of its user.
find-for_user :
    (user service : Text) (xs : List Session)
    → find (is_for user service) (retain (λ s. same s.user user) xs) ≡ find (is_for user service) xs
unfolding find retain is_for
find-for_user user service [] = refl
find-for_user user service (x ∷ xs) = ground (arith, find-for_user user service xs)

retain-all : (p : Session → Bool) (xs : List Session) → all p (retain p xs) ≡ true
unfolding retain
retain-all p [] = refl
retain-all p (x ∷ xs) = ground (arith, retain-all p xs)

-- Status shows sessions of this user alone, and finds for each service what the table holds for the
-- user and it.
pub status-shows :
    (c : Codec State) (path : FilePath) (user : Text) (d : Disk) (st : State)
    → load c false path d ≡ ok st
    → (out : StatusOutput) × (status c false path user d ≡ ok out)
      × (all (λ s. same s.user user) out.sessions ≡ true)
      × ((service : Text) → find (is_for user service) out.sessions ≡ session_of user service st)
unfolding status for_user session_of
status-shows c path user d st e = (
  record { user = user; sessions = for_user user st },
  rw (e, status) refl,
  retain-all (λ s. same s.user user) st.sessions,
  λ service. find-for_user user service st.sessions,
)
