-- ===== src/Commands/Records.antt =====
-- The file of sessions under `record_session` and `forget_sessions`, and `down` on it.
use ephemwork.Prelude.{
  ◌+◌, ◌≡◌, refl, sym, ◌∙◌, ap, ◌≢◌, Bool, true, false, not, ◌&&◌, Option, none, some, List, [],
  Result, ok, err, all, length, arith, is_empty, if◌then◌else◌,
}
use ephemwork.Text.{Text, codes, same}
use ephemwork.Text.Laws.{same_refl}
use ephemwork.Storage.{FilePath, Disk, Weather, IoError, Codec, RoundTrips}
use ephemwork.Storage.Laws.{load-save}
use ephemwork.Sessions.{Session, State, empty_state, upsert, remove_where, retain, save, load}
use ephemwork.Sessions.Table.{
  session_of, session_of-upsert, remove_where_splits, remove_where_counts,
}

-- A user's sessions: of one service, or all of them.
unfoldable pub is_meant : Text → Option Text → Session → Bool
is_meant user none s = same s.user user
is_meant user (some service) s = same s.user user && same s.service service

module _ (c : Codec State) where
  -- Written back where the file could be read.
  unfoldable pub put_session :
      Weather → FilePath → Session → Result IoError State → Disk → Disk × Result IoError (Unit {0})
  put_session w path session (err e) d = (d, err e)
  put_session w path session (ok st) d = save c w (upsert session st) path d

  -- `unreadable` says that the file is there and cannot be read.
  unfoldable pub record_session :
      Bool → Weather → FilePath → Session → Disk → Disk × Result IoError (Unit {0})
  unfolding put_session
  record_session unreadable w path session d =
      put_session w path session (load c unreadable path d) d

  unfoldable pub answer_removed :
      Result IoError (Unit {0}) → List Session → Result IoError (List Session)
  answer_removed (ok u) removed = ok removed
  answer_removed (err e) removed = err e

  unfoldable pub drop_sessions :
      Weather
      → FilePath
      → (Session → Bool)
      → Result IoError State
      → Disk
      → Disk × Result IoError (List Session)
  unfolding answer_removed
  drop_sessions w path pred (err e) d = (d, err e)
  drop_sessions w path pred (ok st) d = (
    (save c w (remove_where pred st).0 path d).0,
    answer_removed (save c w (remove_where pred st).0 path d).1 (remove_where pred st).1,
  )

  unfoldable pub forget_sessions :
      Bool → Weather → FilePath → (Session → Bool) → Disk → Disk × Result IoError (List Session)
  unfolding drop_sessions
  forget_sessions unreadable w path pred d = drop_sessions w path pred (load c unreadable path d) d

  -- `down` once it has the user; whether the deregistration worked is only logged, so that it does
  -- not show here.
  unfoldable pub down_sessions :
      Bool → Weather → FilePath → Text → Option Text → Disk → Disk × Result IoError (List Session)
  down_sessions unreadable w path user service d = elim (load c unreadable path d) [
    | err e ↦ (d, err e)
    | ok st ↦
        if is_empty (retain (is_meant user service) st.sessions)
        then (d, ok [])
        else forget_sessions unreadable w path (is_meant user service) d
  ]

  pub answer_removed_ok :
      (r : Result IoError (Unit {0})) (removed answered : List Session)
      → answer_removed r removed ≡ ok answered
      → (r ≡ ok tt) × (removed ≡ answered)
  unfolding answer_removed
  answer_removed_ok (ok u) removed answered h = (refl, cc)
  answer_removed_ok (err e) removed answered h = absurd (cc)

  -- After a session is recorded with success, its file holds it, and holds for every other user
  -- and service what it held before; the file could be loaded, the format round-trips, and the
  -- extension is not json.tmp.
  pub record_session_found :
      (w : Weather) (path : FilePath) (x : Session) (d : Disk) (st : State)
      → RoundTrips c
      → path.extension ≢ codes "json.tmp"
      → load c false path d ≡ ok st
      → (record_session false w path x d).1 ≡ ok tt
      → (after : State) × (load c false path (record_session false w path x d).0 ≡ ok after)
        × (session_of x.user x.service after ≡ some x)
        × ((user service : Text)
            → same x.user user && same x.service service ≡ false
            → session_of user service after ≡ session_of user service st)
  unfolding record_session put_session save load
  record_session_found w path x d st trips named was saved = (
    upsert x st,
    rw was (
        load-save c w path (upsert x st) d empty_state trips named
          (ap (λ r. (put_session w path x r d).1) (sym was) ∙ saved)),
    session_of-upsert x st x.user x.service ∙ ground (arith, same_refl x.user, same_refl x.service),
    λ user service other. session_of-upsert x st user service ∙ rw other refl,
  )

  -- After sessions are forgotten with success, all those returned match, the file holds none that
  -- matches, and those returned and those left are as many as there were; the file could be
  -- loaded, the format round-trips, and the extension is not json.tmp.
  pub forget_sessions_clears :
      (w : Weather) (path : FilePath) (pred : Session → Bool) (d : Disk) (st : State)
      (removed : List Session)
      → RoundTrips c
      → path.extension ≢ codes "json.tmp"
      → load c false path d ≡ ok st
      → (forget_sessions false w path pred d).1 ≡ ok removed
      → (after : State) × (load c false path (forget_sessions false w path pred d).0 ≡ ok after)
        × (all pred removed ≡ true)
        × (all (λ s. not (pred s)) after.sessions ≡ true)
        × (length after.sessions + length removed ≡ length st.sessions)
  unfolding forget_sessions drop_sessions answer_removed save load
  forget_sessions_clears w path pred d st removed trips named was forgot =
      let saved =
        answer_removed_ok (save c w (remove_where pred st).0 path d).1 (remove_where pred st).1
          removed (ap (λ r. (drop_sessions w path pred r d).1) (sym was) ∙ forgot) in
      (
        (remove_where pred st).0,
        rw was (load-save c w path (remove_where pred st).0 d empty_state trips named saved.0),
        rw (sym saved.1) (remove_where_splits pred st).0,
        (remove_where_splits pred st).1,
        rw (sym saved.1) (remove_where_counts pred st),
      )
