-- ===== src/Client/EndToEnd.antt =====
-- A registration from the client's call to the registry and back.
use mathlib.Core.List.{flatten}
use ephemwork.Prelude.{
  ℕ, ◌≡◌, refl, sym, subst, ◌∙◌, ap, ◌≢◌, ◌≤◌, ◌||◌, ◌⊎◌, List, [], ◌∷◌, ◌++◌, map, All, ok, Result,
  arith, is_empty, length, Bool-cases, inl, inr,
}
use ephemwork.Text.Utf8.{as_bytes}
use ephemwork.Text.{Text, codes, trim, same, is_whitespace}
use ephemwork.Registry.{Registry}
use ephemwork.Registry
use ephemwork.Protocol.{Bytes, Wire, WireLaws, RegisterRequest}
use ephemwork.Http.{Request, Response, json, to_wire, framed, joined}
use ephemwork.Http.Read.{ReadEvent, chunk, read_request}
use ephemwork.Storage.{Codec}
use ephemwork.Server.{
  ServerConfig, Conditions, Server, composite_on_change, handle_connection, locked_route,
}
use ephemwork.Handlers.{route, dispatch, endpoint, handle_register, answer_register}
use ephemwork.Handlers.Outcomes.{key_of}
use ephemwork.Client.{
  BastionEndpoint, ClientError, request_line, build_request, accept_status, post_json, register,
}
use ephemwork.Client.RoundTrip.{IsPlain, IsToken}
use ephemwork.Client.Chunks.{read_request-chunks}
use ephemwork.Client.Responses.{parse-to_wire}

abbrev pub register_path : Text
register_path = codes "/register"

register_path-IsToken : IsToken register_path
unfolding is_whitespace
register_path-IsToken = ((refl, cc), refl)

-- A way to cut a message into non-empty reads.
pub record IsCut (cut : Bytes → List Bytes) : Type 0 where
  pub joins : (raw : Bytes) → flatten (cut raw) ≡ raw
  pub solid : (raw : Bytes) → All (λ q. q ≢ []) (cut raw)

List-cases {ℓ} : {A : Type ℓ} (l : List A) → (l ≡ []) ⊎ ((a : A) × (more : List A) × (l ≡ a ∷ more))
List-cases [] = inl refl
List-cases (a ∷ more) = inr (a, more, refl)

message_solid : (host : Text) (body : Bytes) → build_request host register_path body ≢ []
unfolding build_request request_line framed joined as_bytes
message_solid host body e = cc

module _ {W : Type 0} (wire : Wire) (on_change : Registry → W → W) where
  abbrev pub granted : ℕ → Response
  granted p = json 200 (codes "OK") (wire.response_to_vec (record { remote_port = p }))

  handle_register-granted :
      (q : RegisterRequest) (req : Request) (r after : Registry) (w : W) (p : ℕ)
      → wire.register_from_slice req.body ≡ ok q
      → trim q.user ≢ []
      → trim q.service ≢ []
      → Registry.register r (key_of q) ≡ (after, ok p)
      → ((handle_register wire on_change req r w).response ≡ granted p)
        × ((handle_register wire on_change req r w).registry ≡ after)
  unfolding handle_register answer_register
  handle_register-granted q req r after w p reads user service registers =
      elim (Bool-cases (is_empty (trim q.user) || is_empty (trim q.service))) [
        | inl blank ↦ absurd (ground (arith, user, service))
        | inr solid ↦
            rw (reads, handle_register)
              (rw (solid) (rw (registers, answer_register) (refl, ap (λ x. x.0) registers)))
      ]

  route-register :
      (body : Bytes) (r : Registry) (w : W)
      → route wire on_change
          (record { method = codes "POST"; path = register_path; body = body })
          r
          w
        ≡ handle_register wire on_change
            (record { method = codes "POST"; path = register_path; body = body })
            r
            w
  unfolding route dispatch endpoint same
  route-register body r w = refl

module _ (codec : Codec Registry) (wire : Wire) (cfg : ServerConfig)
    (conditions : ℕ → Conditions) where
  abbrev pub message : BastionEndpoint → RegisterRequest → Bytes
  message server q = build_request server.host register_path (wire.register_to_vec q)

  -- The client's message in pieces, and whatever would come after them.
  abbrev pub arriving : (Bytes → List Bytes) → List ReadEvent → Bytes → List ReadEvent
  arriving cut later raw = map chunk (cut raw) ++ later

  -- The exchange with a server in this state.
  abbrev pub exchange :
      (Bytes → List Bytes)
      → List ReadEvent
      → Server
      → BastionEndpoint
      → Bytes
      → Result ClientError Bytes
  exchange cut later s to raw =
      ok (handle_connection codec wire cfg conditions (arriving cut later raw) s).0

  read-message :
      (server : BastionEndpoint) (q : RegisterRequest) (cut : Bytes → List Bytes)
      (later : List ReadEvent)
      → IsCut cut
      → IsPlain server.host
      → length (message server q) ≤ 65536
      → read_request (arriving cut later (message server q))
        ≡ ok (record { method = codes "POST"; path = register_path; body = wire.register_to_vec q })
  unfolding flatten
  read-message server q cut later cuts plain short =
      let raw = message server q in
      elim (List-cases (cut raw)) [
        | inl none_ ↦ absurd (
            message_solid server.host (wire.register_to_vec q)
              (sym (cuts.joins raw) ∙ ap flatten none_))
        | inr (p, pieces, e) ↦ rw e (
            read_request-chunks server.host register_path (wire.register_to_vec q) p pieces later
              plain register_path-IsToken short (subst (All (λ q. q ≢ [])) e (cuts.solid raw))
              (ap flatten (sym e) ∙ cuts.joins raw))
      ]

  handled :
      (server : BastionEndpoint) (q : RegisterRequest) (s : Server) (after : Registry) (p : ℕ)
      (cut : Bytes → List Bytes) (later : List ReadEvent)
      → WireLaws wire
      → IsCut cut
      → IsPlain server.host
      → length (message server q) ≤ 65536
      → trim q.user ≢ []
      → trim q.service ≢ []
      → Registry.register s.registry (key_of q) ≡ (after, ok p)
      → let done =
          handle_connection codec wire cfg conditions (arriving cut later (message server q)) s in
        (done.0 ≡ to_wire (granted wire (composite_on_change codec wire cfg conditions) p))
        × (done.1.registry ≡ after)
  unfolding handle_connection locked_route
  handled server q s after p cut later laws cuts plain short user service registers =
      let on_change = composite_on_change codec wire cfg conditions in
      let same_ = route-register wire on_change (wire.register_to_vec q) s.registry s.world in
      let (answer, held) =
        handle_register-granted wire on_change q _ s.registry after s.world p
          (laws.register_trips q) user service registers in
      rw (read-message server q cut later cuts plain short, handle_connection)
        (ap to_wire (ap (λ h. h.response) same_ ∙ answer), ap (λ h. h.registry) same_ ∙ held)

  -- Where the registry gives a session a port, the client's call that registers it with the server
  -- gives this port, and the server's registry is then the one with that session; the message
  -- arrives in any non-empty pieces, the wire format round-trips, the host is ASCII without line
  -- ends, the message has at most 65536 bytes, and the user and the service are not blank.
  pub register-answered :
      (server : BastionEndpoint) (q : RegisterRequest) (s : Server) (after : Registry) (p : ℕ)
      (cut : Bytes → List Bytes) (later : List ReadEvent)
      → WireLaws wire
      → IsCut cut
      → IsPlain server.host
      → length (message server q) ≤ 65536
      → trim q.user ≢ []
      → trim q.service ≢ []
      → Registry.register s.registry (key_of q) ≡ (after, ok p)
      → (register wire (exchange cut later s) server q ≡ ok (record { remote_port = p }))
        × ((handle_connection codec wire cfg conditions
              (arriving cut later (message server q))
              s).1.registry
            ≡ after)
  unfolding register post_json accept_status json
  register-answered server q s after p cut later laws cuts plain short user service registers =
      let (bytes, held) =
        handled server q s after p cut later laws cuts plain short user service registers in
      (
        rw bytes (
            rw
              (parse-to_wire (granted wire (composite_on_change codec wire cfg conditions) p)
                (omega arith) (refl, refl, refl) (refl, refl, refl))
              (rw (laws.response_trips (record { remote_port = p })) refl)),
        held,
      )
