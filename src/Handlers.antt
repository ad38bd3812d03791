-- ===== src/Handlers.antt =====
-- The handlers of the control plane (bastion-server/src/handlers.rs). A `MutationListener` is a
-- function on the state that it keeps, W.
pub mod Outcomes
pub mod Isolation
use ephemwork.Prelude.{
  ℕ, Bool, true, false, ◌&&◌, ◌||◌, Option, none, some, List, [], ◌∷◌, ◌++◌, map, Result, ok, err,
  is_empty, if◌then◌else◌,
}
use ephemwork.Text.{Text, codes, same, trim}
use ephemwork.Text.Decimal.{decimal}
use ephemwork.Registry.{Key, Registry, RegistryError, exhausted, register, deregister, snapshot}
use ephemwork.Protocol.{
  Bytes, Wire, RegisterRequest, RegisterResponse, DeregisterRequest, ErrorResponse, Entry,
}
use ephemwork.Http.{Request, Response, json, text}

-- The text of the error of `allocate_port`.
unfoldable pub message : RegistryError → Text
message (exhausted range sessions) =
    codes "port range "
    ++ (decimal range.start
        ++ (codes "..="
            ++ (decimal range.end
                ++ (codes " exhausted (" ++ (decimal sessions ++ codes " active sessions)")))))

-- The patterns of the match in `route`.
pub data Endpoint : Type 0 where
  healthz add drop_session show unknown : Endpoint

unfoldable pub endpoint : Request → Endpoint
endpoint req =
    if same req.method (codes "GET") && same req.path (codes "/healthz")
    then healthz
    else if same req.method (codes "POST") && same req.path (codes "/register")
    then add
    else if same req.method (codes "POST") && same req.path (codes "/deregister")
    then drop_session
    else if same req.method (codes "GET") && same req.path (codes "/snapshot")
    then show
    else unknown

-- What a handler leaves: its response, the registry, and the listener's state.
pub record Handled (W : Type 0) : Type 0 where
  pub response : Response
  pub registry : Registry
  pub listener : W

-- `NoopListener`
abbrev pub noop : Registry → Unit {0} → Unit {0}
noop r u = u

module _ {W : Type 0} (wire : Wire) (on_change : Registry → W → W) where
  unfoldable pub json_error : ℕ → Text → Text → Response
  json_error status reason msg = json status reason (wire.error_to_vec (record { error = msg }))

  unfoldable pub answer_register : Registry × Result RegistryError ℕ → W → Handled W
  unfolding json_error
  answer_register (r, ok port) w = record {
    response = json 200 (codes "OK") (wire.response_to_vec (record { remote_port = port }));
    registry = r;
    listener = on_change r w;
  }
  answer_register (r, err e) w = record {
    response = json_error 503 (codes "Service Unavailable") (message e);
    registry = r;
    listener = w;
  }

  unfoldable pub handle_register : Request → Registry → W → Handled W
  unfolding json_error answer_register
  handle_register req r w = elim (wire.register_from_slice req.body) [
    | err e ↦ record {
      response = json_error 400 (codes "Bad Request") e;
      registry = r;
      listener = w;
    }
    | ok parsed ↦
        if is_empty (trim parsed.user) || is_empty (trim parsed.service)
        then record {
          response =
              json_error 400 (codes "Bad Request") (codes "user and service must be non-empty");
          registry = r;
          listener = w;
        }
        else answer_register (register r (record { user = parsed.user; service = parsed.service }))
            w
  ]

  unfoldable pub answer_deregister : Registry × Option ℕ → W → Handled W
  answer_deregister (r, none) w = record {
    response = json 200 (codes "OK") (codes "{}");
    registry = r;
    listener = w;
  }
  answer_deregister (r, some port) w = record {
    response = json 200 (codes "OK") (codes "{}");
    registry = r;
    listener = on_change r w;
  }

  unfoldable pub handle_deregister : Request → Registry → W → Handled W
  unfolding json_error answer_deregister
  handle_deregister req r w = elim (wire.deregister_from_slice req.body) [
    | err e ↦ record {
      response = json_error 400 (codes "Bad Request") e;
      registry = r;
      listener = w;
    }
    | ok parsed ↦
        answer_deregister (deregister r (record { user = parsed.user; service = parsed.service })) w
  ]

  unfoldable pub handle_snapshot : Registry → Response
  handle_snapshot r = json 200 (codes "OK") (
      wire.entries_to_vec (
        map (λ e. record { user = e.0.user; service = e.0.service; remote_port = e.1 })
          (snapshot r)))

  -- The arms of the match in `route`.
  unfoldable pub dispatch : Endpoint → Request → Registry → W → Handled W
  unfolding json_error
  dispatch healthz req r w = record {
    response = text 200 (codes "OK") (codes "ok");
    registry = r;
    listener = w;
  }
  dispatch add req r w = handle_register req r w
  dispatch drop_session req r w = handle_deregister req r w
  dispatch show req r w = record { response = handle_snapshot r; registry = r; listener = w }
  dispatch unknown req r w = record {
    response = json_error 404 (codes "Not Found") (codes "no such route");
    registry = r;
    listener = w;
  }

  unfoldable pub route : Request → Registry → W → Handled W
  unfolding dispatch
  route req r w = dispatch (endpoint req) req r w
