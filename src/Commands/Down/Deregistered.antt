-- ===== src/Commands/Down/Deregistered.antt =====
-- What `down` asks of the control plane, and what it leaves on this machine.
use ephemwork.Prelude.{
  ◌≡◌, ◌⊎◌, inl, inr, refl, sym, ap, subst, ◌∙◌, Bool, Bool-cases, Option, none, some, List, [],
  ◌∷◌, ◌++◌, map, append-nil, append_assoc, Result, ok, err, Result-cases, is_empty,
}
use ephemwork.Text.{Text}
use ephemwork.Storage.{FilePath, Disk, Weather, IoError, Codec}
use ephemwork.Client.{BastionEndpoint}
use ephemwork.Sessions.{Session, State, retain, remove_where, save, load}
use ephemwork.Provisioner.{InstanceSummary}
use ephemwork.Provisioner.Calls.{Call, after}
use ephemwork.Provisioner.Plans.{BastionContext}
use ephemwork.Commands.Up.{local_endpoint}
use ephemwork.Commands.Records.{
  is_meant, down_sessions, forget_sessions, drop_sessions, answer_removed_ok,
}
use ephemwork.Commands.Down.{
  Plane, deregister_best_effort, deregister_each, deregister_at, deregister_via_bastion,
  down_service,
}

-- A request for deregistration.
abbrev pub Asked : Type 0
Asked = BastionEndpoint × Text × Text

-- A call that asks nothing.
abbrev pub aside {ℓ κ μ} :
    {S : Type ℓ} {E : Type κ} {A : Type μ} → Call S E A → Call (S × List Asked) E A
aside call (s, asked) = let (t, r) = call s in ((t, asked), r)

-- The plane p that also notes what it is asked to deregister.
abbrev pub noting {ℓ κ} : {S : Type ℓ} {E : Type κ} → Plane S E → Plane (S × List Asked) E
noting p = record {
  assert_plugin_available = aside p.assert_plugin_available;
  connect = λ region. aside (p.connect region);
  find_instance_by_name = λ name. aside (p.find_instance_by_name name);
  start_port_forward = λ spec. aside (p.start_port_forward spec);
  wait_for_local_port = λ port seconds. aside (p.wait_for_local_port port seconds);
  deregister = λ endpoint user service (s, asked).
      let (t, r) = p.deregister endpoint user service s in
      ((t, asked ++ (endpoint, user, service) ∷ []), r);
}

-- One request for each session, in order.
abbrev pub requests : BastionEndpoint → Text → List Session → List Asked
requests endpoint user sessions = map (λ x. (endpoint, user, x.service)) sessions

forget_sessions-removed :
    (c : Codec State) (unreadable : Bool) (w : Weather) (path : FilePath) (pred : Session → Bool)
    (d : Disk) (st : State) (removed : List Session)
    → load c unreadable path d ≡ ok st
    → (forget_sessions c unreadable w path pred d).1 ≡ ok removed
    → retain pred st.sessions ≡ removed
unfolding forget_sessions drop_sessions remove_where
forget_sessions-removed c unreadable w path pred d st removed e h =
    (answer_removed_ok c (save c w (remove_where pred st).0 path d).1 (retain pred st.sessions)
      removed (ap (λ r. (drop_sessions c w path pred r d).1) (sym e) ∙ h)).1

module _ {ℓ κ} {S : Type ℓ} {E : Type κ} (p : Plane S E) where
  -- Nothing was asked, or one request was sent for each session.
  abbrev pub IsAsked : Text → List Session → List Asked → List Asked → Type 0
  IsAsked user sessions before now =
      (now ≡ before)
      ⊎ ((endpoint : BastionEndpoint) × (now ≡ before ++ requests endpoint user sessions))

  -- The same for the sessions of a result.
  abbrev pub IsAskedFor : Text → Result IoError (List Session) → List Asked → List Asked → Type 0
  IsAskedFor user (ok removed) before now = IsAsked user removed before now
  IsAskedFor user (err e) before now = Unit {0}

  asked-IsAskedFor :
      (user : Text) (r : Result IoError (List Session)) (before now : List Asked)
      → ((removed : List Session) → r ≡ ok removed → IsAsked user removed before now)
      → IsAskedFor user r before now
  asked-IsAskedFor user (ok removed) before now h = h removed refl
  asked-IsAskedFor user (err e) before now h = tt

  deregister_each-asks :
      (endpoint : BastionEndpoint) (user : Text) (sessions : List Session) (s : S)
      (asked : List Asked)
      → (deregister_each (noting p) endpoint user sessions (s, asked)).0.1
        ≡ asked ++ requests endpoint user sessions
  unfolding deregister_each deregister_best_effort
  deregister_each-asks endpoint user [] s asked = sym (append-nil asked)
  deregister_each-asks endpoint user (x ∷ sessions) s asked =
      deregister_each-asks endpoint user sessions _ _
      ∙ append_assoc asked ((endpoint, user, x.service) ∷ []) (requests endpoint user sessions)

  -- What comes after a call that asks nothing.
  aside-IsAsked {μ} :
      {A : Type μ} (user : Text) (sessions : List Session) (call : Call S E A)
      (f : A → Call (S × List Asked) E (Unit {0})) (s : S) (asked : List Asked)
      → ((a : A) (t : S) → IsAsked user sessions asked (f a (t, asked)).0.1)
      → IsAsked user sessions asked (after (aside call (s, asked)) f).0.1
  aside-IsAsked user sessions call f s asked goes = elim (Result-cases (call s).1) [
    | inl (a, e) ↦ rw e (goes a (call s).0)
    | inr (x, e) ↦ rw e (inl refl)
  ]

  deregister_at-IsAsked :
      (region user : Text) (sessions : List Session) (found : Option InstanceSummary) (s : S)
      (asked : List Asked)
      → IsAsked user sessions asked
          (deregister_at (noting p) region user sessions found (s, asked)).0.1
  unfolding deregister_at
  deregister_at-IsAsked region user sessions none s asked = inl refl
  deregister_at-IsAsked region user sessions (some bastion) s asked =
      aside-IsAsked user sessions (p.start_port_forward _) _ s asked (λ port t.
        aside-IsAsked user sessions (p.wait_for_local_port port 10) _ t asked (λ u v.
          inr (
            local_endpoint port,
            deregister_each-asks (local_endpoint port) user sessions v asked,
          )))

  deregister_via_bastion-IsAsked :
      (region : Text) (ctx : BastionContext) (user : Text) (sessions : List Session) (s : S)
      (asked : List Asked)
      → IsAsked user sessions asked
          (deregister_via_bastion (noting p) region ctx user sessions (s, asked)).0.1
  unfolding deregister_via_bastion
  deregister_via_bastion-IsAsked region ctx user sessions s asked =
      aside-IsAsked user sessions p.assert_plugin_available _ s asked (λ u t.
        aside-IsAsked user sessions (p.connect region) _ t asked (λ v x.
          aside-IsAsked user sessions (p.find_instance_by_name _) _ x asked
            (λ found y. deregister_at-IsAsked region user sessions found y asked)))

  -- Whatever the calls to the bastion answer, down leaves the same file and returns the same
  -- sessions as without them; and where it returns sessions, it has asked the control plane for
  -- nothing, or once for each of those sessions, in their order.
  pub down_service-clears :
      (c : Codec State) (unreadable : Bool) (w : Weather) (path : FilePath) (region : Text)
      (ctx : BastionContext) (user : Text) (service : Option Text) (d : Disk) (s : S)
      (asked : List Asked)
      → let out =
          down_service (noting p) c unreadable w path region ctx user service (d, (s, asked)) in
        (out.0.0 ≡ (down_sessions c unreadable w path user service d).0)
        × (out.1 ≡ (down_sessions c unreadable w path user service d).1)
        × IsAskedFor user out.1 asked out.0.1.1
  unfolding down_service down_sessions
  down_service-clears c unreadable w path region ctx user service d s asked =
      elim (Result-cases (load c unreadable path d)) [
        | inl (st, e) ↦
            rw (e, down_service, down_sessions)
              (elim (Bool-cases (is_empty (retain (is_meant user service) st.sessions))) [
                | inl empty ↦ rw empty (refl, refl, inl refl)
                | inr full ↦ rw full (
                  refl,
                  refl,
                  asked-IsAskedFor user _ asked _ (λ removed h.
                      subst
                        (λ l.
                          IsAsked user l asked
                            (deregister_via_bastion (noting p) region ctx user
                              (retain (is_meant user service) st.sessions) (s, asked)).0.1)
                        (forget_sessions-removed c unreadable w path (is_meant user service) d st
                          removed e h)
                        (deregister_via_bastion-IsAsked region ctx user
                          (retain (is_meant user service) st.sessions) s asked)),
                )
              ])
        | inr (x, e) ↦ rw (e, down_service, down_sessions) (refl, refl, tt)
      ]
