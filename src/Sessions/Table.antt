-- ===== src/Sessions/Table.antt =====
-- The sessions as a table keyed by user and service.
use ephemwork.Prelude.{
  ◌+◌, ◌≡◌, refl, ◌∙◌, Bool, true, false, not, ◌&&◌, Option, none, some, List, [], ◌∷◌, ◌++◌, arith,
  length, all, Bool-cases, inl, inr, if◌then◌else◌,
}
use ephemwork.Text.{Text, same}
use ephemwork.Text.Laws.{same_iff}
use ephemwork.Sessions.{Session, State, retain, find, is_for, upsert, remove_where}

-- The session of a user and a service.
unfoldable pub session_of : Text → Text → State → Option Session
session_of user service st = find (is_for user service) st.sessions

find-append :
    (p : Session → Bool) (xs ys : List Session)
    → find p (xs ++ ys) ≡ elim (find p xs) [ none ↦ find p ys | some s ↦ some s ]
unfolding find
find-append p [] ys = refl
find-append p (x ∷ xs) ys = ground (arith, find-append p xs ys)

-- Of the entries for another key, those without one key are as many, in the same order.
find-retain_ne :
    (u v s t : Text) (xs : List Session)
    → same u s && same v t ≡ false
    → find (is_for s t) (retain (λ x. not (is_for u v x)) xs) ≡ find (is_for s t) xs
unfolding find retain is_for
find-retain_ne u v s t [] h = refl
find-retain_ne u v s t (x ∷ xs) h = ground (
  arith,
  find-retain_ne u v s t xs h,
  same_iff x.user u,
  same_iff x.service v,
  same_iff x.user s,
  same_iff x.service t,
  same_iff u s,
  same_iff v t,
)

find-retain_self :
    (u v s t : Text) (xs : List Session)
    → same u s && same v t ≡ true
    → find (is_for s t) (retain (λ x. not (is_for u v x)) xs) ≡ none
unfolding find retain is_for
find-retain_self u v s t [] h = refl
find-retain_self u v s t (x ∷ xs) h = ground (
  arith,
  find-retain_self u v s t xs h,
  same_iff x.user u,
  same_iff x.service v,
  same_iff x.user s,
  same_iff x.service t,
  same_iff u s,
  same_iff v t,
)

-- After a session is recorded, its user and service find it, and every other user and service find
-- the session that they found before.
pub session_of-upsert :
    (x : Session) (st : State) (user service : Text)
    → session_of user service (upsert x st)
      ≡ (if same x.user user && same x.service service then some x else session_of user service st)
unfolding session_of upsert find is_for
session_of-upsert x st user service =
    find-append (is_for user service) (retain (λ s. not (is_for x.user x.service s)) st.sessions)
      (x ∷ [])
    ∙ elim (Bool-cases (same x.user user && same x.service service)) [
      | inl here ↦ ground (arith, find-retain_self x.user x.service user service st.sessions here)
      | inr other ↦ ground (arith, find-retain_ne x.user x.service user service st.sessions other)
    ]

retain_counts :
    (p : Session → Bool) (xs : List Session)
    → length (retain (λ s. not (p s)) xs) + length (retain p xs) ≡ length xs
unfolding retain
retain_counts p [] = omega arith
retain_counts p (x ∷ xs) = ground (arith, retain_counts p xs)

-- A removal splits the sessions into those that match and those that do not.
pub remove_where_counts :
    (pred : Session → Bool) (st : State)
    → length (remove_where pred st).0.sessions + length (remove_where pred st).1
      ≡ length st.sessions
unfolding remove_where
remove_where_counts pred st = retain_counts pred st.sessions

all-retain : (p : Session → Bool) (xs : List Session) → all p (retain p xs) ≡ true
unfolding retain
all-retain p [] = refl
all-retain p (x ∷ xs) = ground (arith, all-retain p xs)

-- What is removed matches, and nothing that is left does.
pub remove_where_splits :
    (pred : Session → Bool) (st : State)
    → (all pred (remove_where pred st).1 ≡ true)
      × (all (λ s. not (pred s)) (remove_where pred st).0.sessions ≡ true)
unfolding remove_where
remove_where_splits pred st =
    (all-retain pred st.sessions, all-retain (λ s. not (pred s)) st.sessions)
