-- ===== src/Handlers/Outcomes.antt =====
-- The responses of the control plane, and what each leaves of the registry.
use ephemwork.Prelude.{
  ℕ, ◌≡◌, ◌∙◌, ap, ◌≢◌, ◌⊎◌, inl, inr, ◌||◌, none, some, [], ok, err, arith, is_empty, Bool-cases,
  Option-cases, Result-cases,
}
use ephemwork.Text.{trim}
use ephemwork.BTreeMap.{get}
use ephemwork.Registry.{Key, Registry, compose_key, register, deregister, lookup, len}
use ephemwork.Registry.Invariant.{WellFormed}
use ephemwork.Registry.Capacity.{capacity, register_fails_iff, register_failed}
use ephemwork.Registry.Sessions.{lookup-register, lookup-deregister_self, deregister_absent}
use ephemwork.Protocol.{Wire, RegisterRequest, DeregisterRequest}
use ephemwork.Http.{Request, json}
use ephemwork.Handlers.{
  Handled, json_error, answer_register, handle_register, answer_deregister, handle_deregister,
}

abbrev pub key_of : RegisterRequest → Key
key_of q = record { user = q.user; service = q.service }

abbrev pub gone_key : DeregisterRequest → Key
gone_key q = record { user = q.user; service = q.service }

module _ {W : Type 0} (wire : Wire) (on_change : Registry → W → W) where
  -- A handler that refuses leaves everything as it is.
  abbrev pub Untouched : Registry → W → Handled W → Type 0
  Untouched r w h = (h.registry ≡ r) × (h.listener ≡ w)

  -- The session is registered, the listener was told, and the client gets the port.
  abbrev pub Registered : Key → W → Handled W → Type 0
  Registered k w h =
      (p : ℕ) × (h.response.status ≡ 200)
      × (h.response.body ≡ wire.response_to_vec (record { remote_port = p }))
      × (lookup h.registry k ≡ some p)
      × (h.listener ≡ on_change h.registry w)

  answer_register_cases :
      (r : Registry) (k : Key) (w : W)
      → WellFormed r
      → Registered k w (answer_register wire on_change (register r k) w)
        ⊎ ((answer_register wire on_change (register r k) w).response.status ≡ 503)
          × Untouched r w (answer_register wire on_change (register r k) w)
          × (lookup r k ≡ none)
          × (len r ≡ capacity r)
  unfolding answer_register json
  answer_register_cases r k w v = elim (Result-cases (register r k).1) [
    | inl (p, got) ↦
        inl (p, ground arith, ground arith, ground (arith, lookup-register r k p got), ground arith)
    | inr (e, failed) ↦
        let (same_registry, why) = register_failed r k e failed in
        let (absent, full) = (register_fails_iff r k v).0 (failed ∙ ap err why) in
        inr (ground arith, (ground arith, ground arith), absent, full)
  ]

  -- In a well-formed registry, `POST /register` has these outcomes: 400 with nothing changed; or,
  -- for a body that parses with a user and a service that are not blank, 200 with the port that a
  -- lookup finds from then on and the listener told, or 503 with nothing changed where the session
  -- is new and the range is full.
  pub handle_register_outcomes :
      (req : Request) (r : Registry) (w : W)
      → WellFormed r
      → (((handle_register wire on_change req r w).response.status ≡ 400)
          × Untouched r w (handle_register wire on_change req r w))
        ⊎ ((q : RegisterRequest) × (wire.register_from_slice req.body ≡ ok q)
            × (trim q.user ≢ [])
            × (trim q.service ≢ [])
            × (Registered (key_of q) w (handle_register wire on_change req r w)
                ⊎ ((handle_register wire on_change req r w).response.status ≡ 503)
                  × Untouched r w (handle_register wire on_change req r w)
                  × (lookup r (key_of q) ≡ none)
                  × (len r ≡ capacity r)))
  unfolding handle_register json_error json
  handle_register_outcomes req r w v = elim (Result-cases (wire.register_from_slice req.body)) [
    | inr (e, bad) ↦ inl (ground arith, (ground arith, ground arith))
    | inl (q, parsed) ↦ elim (Bool-cases (is_empty (trim q.user) || is_empty (trim q.service))) [
      | inl blank ↦ inl (ground arith, (ground arith, ground arith))
      | inr full ↦
          let e : handle_register wire on_change req r w
              ≡ answer_register wire on_change (register r (key_of q)) w =
            rw (parsed, full, handle_register) in
          inr (q, parsed, ground arith, ground arith, rw e (answer_register_cases r (key_of q) w v))
    ]
  ]

  -- The session is gone; the listener was told exactly where there was one.
  abbrev pub Gone : Key → Registry → W → Handled W → Type 0
  Gone k r w h =
      (h.response.status ≡ 200)
      × (lookup h.registry k ≡ none)
      × (((lookup r k ≡ none) × Untouched r w h)
          ⊎ (((p : ℕ) × (lookup r k ≡ some p)) × (h.listener ≡ on_change h.registry w)))

  answer_deregister_cases :
      (r : Registry) (k : Key) (w : W)
      → Gone k r w (answer_deregister wire on_change (deregister r k) w)
  unfolding answer_deregister json deregister lookup
  answer_deregister_cases r k w = elim (Option-cases (get (compose_key k) r.entries)) [
    | inl absent ↦ (
      ground arith,
      ground (arith, lookup-deregister_self r k),
      inl (absent, (ground (arith, deregister_absent r k), ground arith)),
    )
    | inr (p, present) ↦
        (ground arith, ground (arith, lookup-deregister_self r k), inr ((p, present), ground arith))
  ]

  -- `POST /deregister` answers 400 and changes nothing; or the body parses, it answers 200, the
  -- session is gone afterwards, and either there was no such session and nothing has changed, or
  -- there was one and the listener was told.
  pub handle_deregister_outcomes :
      (req : Request) (r : Registry) (w : W)
      → (((handle_deregister wire on_change req r w).response.status ≡ 400)
          × Untouched r w (handle_deregister wire on_change req r w))
        ⊎ ((q : DeregisterRequest) × (wire.deregister_from_slice req.body ≡ ok q)
            × Gone (gone_key q) r w (handle_deregister wire on_change req r w))
  unfolding handle_deregister json_error json
  handle_deregister_outcomes req r w = elim (Result-cases (wire.deregister_from_slice req.body)) [
    | inr (e, bad) ↦ inl (ground arith, (ground arith, ground arith))
    | inl (q, parsed) ↦
        let e : handle_deregister wire on_change req r w
            ≡ answer_deregister wire on_change (deregister r (gone_key q)) w =
          rw (parsed, handle_deregister) in
        inr (q, parsed, rw e (answer_deregister_cases r (gone_key q) w))
  ]
