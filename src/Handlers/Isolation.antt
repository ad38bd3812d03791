-- ===== src/Handlers/Isolation.antt =====
-- What a request can do to the registry, whichever route it takes.
use ephemwork.Prelude.{
  ℕ, ◌≡◌, refl, ◌≢◌, ◌⊎◌, inl, inr, ◌||◌, some, ok, arith, is_empty, Option-cases, Result-cases,
  if_both,
}
use ephemwork.Text.{trim}
use ephemwork.Text.Laws.{same_iff}
use ephemwork.Registry.{Key, Registry, compose_key, register, deregister, lookup}
use ephemwork.Registry.Invariant.{WellFormed, register-WellFormed, deregister-WellFormed}
use ephemwork.Registry.Capacity.{register_failed}
use ephemwork.Registry.Sessions.{lookup-register_ne, lookup-deregister, deregister_absent}
use ephemwork.Protocol.{Wire, RegisterRequest, DeregisterRequest}
use ephemwork.Http.{Request}
use ephemwork.Handlers.{
  Handled, answer_register, handle_register, answer_deregister, handle_deregister, route, dispatch,
  Endpoint, endpoint, add, drop_session,
}
use ephemwork.Handlers.Outcomes.{key_of, gone_key}

-- A claim on the registry and the listener's state that a handler leaves.
record Leaves {ℓ} {W : Type 0} (P : Registry → W → Type ℓ) (h : Handled W) : Type ℓ where
  holds : P h.registry h.listener

module _ {W : Type 0} (wire : Wire) (on_change : Registry → W → W) where
  module _ {ℓ} (P : Registry → W → Type ℓ) (req : Request) (r : Registry) (w : W)
      (same_state : P r w) where
    handle_register_cases :
        ((q : RegisterRequest) (p : ℕ)
          → wire.register_from_slice req.body ≡ ok q
          → (register r (key_of q)).1 ≡ ok p
          → P (register r (key_of q)).0 (on_change (register r (key_of q)).0 w))
        → Leaves P (handle_register wire on_change req r w)
    unfolding handle_register answer_register
    handle_register_cases added = elim (Result-cases (wire.register_from_slice req.body)) [
      | inr (e, bad) ↦ rw (bad, handle_register) (record { holds = same_state })
      | inl (q, parsed) ↦
          rw (parsed, handle_register)
            (if_both (Leaves P) (is_empty (trim q.user) || is_empty (trim q.service))
              (record { holds = same_state })
              (elim (Result-cases (register r (key_of q)).1) [
                | inl (p, got) ↦ rw (got, answer_register) (record { holds = added q p parsed got })
                | inr (e, failed) ↦
                    rw (failed, answer_register)
                      (rw (register_failed r (key_of q) e failed).0 (record { holds = same_state }))
              ]))
    ]

    handle_deregister_cases :
        ((q : DeregisterRequest) (p : ℕ)
          → wire.deregister_from_slice req.body ≡ ok q
          → lookup r (gone_key q) ≡ some p
          → P (deregister r (gone_key q)).0 (on_change (deregister r (gone_key q)).0 w))
        → Leaves P (handle_deregister wire on_change req r w)
    unfolding handle_deregister answer_deregister deregister lookup
    handle_deregister_cases gone = elim (Result-cases (wire.deregister_from_slice req.body)) [
      | inr (e, bad) ↦ rw (bad, handle_deregister) (record { holds = same_state })
      | inl (q, parsed) ↦
          rw (parsed, handle_deregister)
            (elim (Option-cases (lookup r (gone_key q))) [
              | inl absent ↦
                  rw (absent, answer_deregister)
                    (rw (deregister_absent r (gone_key q) absent) (record { holds = same_state }))
              | inr (p, present) ↦
                  rw (present, answer_deregister) (record { holds = gone q p parsed present })
            ])
    ]

    -- What holds of an untouched registry, of one after the registration that the request asks for,
    -- and of one after its deregistration, holds after the request.
    pub route_cases :
        ((q : RegisterRequest) (p : ℕ)
          → wire.register_from_slice req.body ≡ ok q
          → (register r (key_of q)).1 ≡ ok p
          → P (register r (key_of q)).0 (on_change (register r (key_of q)).0 w))
        → ((q : DeregisterRequest) (p : ℕ)
            → wire.deregister_from_slice req.body ≡ ok q
            → lookup r (gone_key q) ≡ some p
            → P (deregister r (gone_key q)).0 (on_change (deregister r (gone_key q)).0 w))
        → P (route wire on_change req r w).registry (route wire on_change req r w).listener
    unfolding route dispatch
    route_cases added gone =
        let l : Leaves P (route wire on_change req r w) = dispatched (endpoint req) in l.holds
      where
        dispatched : (e : Endpoint) → Leaves P (dispatch wire on_change e req r w)
        dispatched add = handle_register_cases added
        dispatched drop_session = handle_deregister_cases gone
        dispatched _ = record { holds = same_state }

  -- Every request keeps the invariant of the registry: entries sorted by key, ports distinct and
  -- within the range.
  pub route-WellFormed :
      (req : Request) (r : Registry) (w : W)
      → WellFormed r
      → WellFormed (route wire on_change req r w).registry
  route-WellFormed req r w v =
      route_cases (λ s u. WellFormed s) req r w v
        (λ q p parsed got. register-WellFormed r (key_of q) v)
        (λ q p parsed present. deregister-WellFormed r (gone_key q) v)

  -- A request leaves the registry and the listener as they were, or tells the listener once, with
  -- the registry as it is after the request.
  pub route_told :
      (req : Request) (r : Registry) (w : W)
      → (((route wire on_change req r w).registry ≡ r)
          × ((route wire on_change req r w).listener ≡ w))
        ⊎ ((route wire on_change req r w).listener
            ≡ on_change (route wire on_change req r w).registry w)
  route_told req r w =
      route_cases (λ s u. ((s ≡ r) × (u ≡ w)) ⊎ (u ≡ on_change s w)) req r w (inl (refl, refl))
        (λ q p parsed got. inr refl) (λ q p parsed present. inr refl)

  -- A request leaves the port of every session alone whose flat key is not that of the session
  -- that its body names, read as a registration and as a deregistration.
  pub route_isolated :
      (req : Request) (r : Registry) (w : W) (k : Key)
      → ((q : RegisterRequest)
          → wire.register_from_slice req.body ≡ ok q
          → compose_key (key_of q) ≢ compose_key k)
      → ((q : DeregisterRequest)
          → wire.deregister_from_slice req.body ≡ ok q
          → compose_key (gone_key q) ≢ compose_key k)
      → lookup (route wire on_change req r w).registry k ≡ lookup r k
  route_isolated req r w k not_added not_gone =
      route_cases (λ s u. lookup s k ≡ lookup r k) req r w refl
        (λ q p parsed got. lookup-register_ne r (key_of q) k (not_added q parsed))
        (λ q p parsed present. ground (
          arith,
          lookup-deregister r (gone_key q) k,
          same_iff (compose_key (gone_key q)) (compose_key k),
          not_gone q parsed,
        ))
