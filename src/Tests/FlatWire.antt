-- ===== src/Tests/FlatWire.antt =====
-- A wire format that round-trips, and a registration through it.
use mathlib.Core.List.{flatten}
use ephemwork.Prelude.{
  List, append-nil, All, ◌≤◌, zero, suc, ◌≡◌, refl, ◌≢◌, [], ◌∷◌, Result, ok, err, arith, length,
}
use ephemwork.Text.{Text, codes, trim, trim_start, trim_end, is_whitespace, same, compare_text}
use ephemwork.Text.Decimal.{decimal, digits_onto}
use ephemwork.Text.Utf8.{as_bytes}
use ephemwork.BTreeMap.{get, insert, values}
use ephemwork.Registry
use ephemwork.Registry.{Registry, compose_key, allocate_port, first_free}
use ephemwork.Protocol.{Bytes, Wire, WireLaws, RegisterRequest, RegisterResponse}
use ephemwork.Http.{framed, joined}
use ephemwork.Server.{Server, handle_connection}
use ephemwork.Handlers.Outcomes.{key_of}
use ephemwork.Client.{BastionEndpoint, build_request, request_line, register}
use ephemwork.Client.RoundTrip.{IsPlain}
use ephemwork.Client.EndToEnd.{IsCut, exchange, arriving, message, register_path, register-answered}
use ephemwork.Tests.Examples.{one_session, quiet_host, server_config, always_fair}
use ephemwork.Tests.FlatCodec.{flat_codec}

-- 1 stands before each character of the user, and 0 before the service.
unfoldable pub pair : Text → Text → Bytes
pair [] service = 0 ∷ service
pair (c ∷ user) service = 1 ∷ c ∷ pair user service

unfoldable pub halves : Bytes → Text × Text
halves [] = ([], [])
halves (zero ∷ s) = ([], s)
halves (suc tag ∷ []) = ([], [])
halves (suc tag ∷ c ∷ s) = let rest : Text × Text = halves s in (c ∷ rest.0, rest.1)

halves-pair : (user service : Text) → halves (pair user service) ≡ (user, service)
unfolding halves pair
halves-pair [] service = refl
halves-pair (c ∷ user) service = rw (halves-pair user service) refl

abbrev pub port_of : Bytes → Result Text RegisterResponse
port_of (p ∷ []) = ok (record { remote_port = p })
port_of _ = err (codes "no port")

abbrev pub flat_wire : Wire
flat_wire = record {
  register_to_vec = λ r. pair r.user r.service;
  register_from_slice = λ b. ok (record { user = (halves b).0; service = (halves b).1 });
  deregister_to_vec = λ r. pair r.user r.service;
  deregister_from_slice = λ b. ok (record { user = (halves b).0; service = (halves b).1 });
  response_to_vec = λ r. r.remote_port ∷ [];
  response_from_slice = port_of;
  error_to_vec = λ e. e.error;
  entries_to_vec = λ es. [];
}

flat_wire-WireLaws : WireLaws flat_wire
flat_wire-WireLaws = record {
  register_trips = λ r. rw (halves-pair r.user r.service) refl;
  deregister_trips = λ r. rw (halves-pair r.user r.service) refl;
  response_trips = λ r. refl;
}

abbrev local : BastionEndpoint
local = record { host = codes "127.0.0.1"; port = 9000 }

abbrev carols : RegisterRequest
carols = record { user = codes "carol"; service = codes "api" }

local_host-IsPlain : IsPlain local.host
local_host-IsPlain = (refl, refl, refl)

carols_short :
    length (build_request local.host register_path (flat_wire.register_to_vec carols)) ≤ 65536
unfolding build_request request_line framed joined as_bytes decimal digits_onto pair
carols_short = omega arith

carols_user : trim carols.user ≢ []
unfolding trim trim_start trim_end is_whitespace
carols_user = cc

carols_service : trim carols.service ≢ []
unfolding trim trim_start trim_end is_whitespace
carols_service = cc

carols_port :
    Registry.register one_session (key_of carols)
    ≡ ((Registry.register one_session (key_of carols)).0, ok 10001)
unfolding Registry.register compose_key allocate_port first_free get insert values same compare_text
carols_port = refl

-- The whole message in one read.
abbrev whole : Bytes → List Bytes
whole [] = []
whole (b ∷ raw) = (b ∷ raw) ∷ []

whole-joins : (raw : Bytes) → flatten (whole raw) ≡ raw
unfolding flatten
whole-joins [] = refl
whole-joins (b ∷ raw) = append-nil (b ∷ raw)

whole-solid : (raw : Bytes) → All (λ q. q ≢ []) (whole raw)
whole-solid [] = tt
whole-solid (b ∷ raw) = ((λ e. cc), tt)

whole-IsCut : IsCut whole
whole-IsCut = record { joins = whole-joins; solid = whole-solid }

abbrev held_server : Server
held_server = record { registry = one_session; world = record { host = quiet_host; calls = 0 } }

register-answered_example :
    (register flat_wire
        (exchange flat_codec flat_wire server_config always_fair whole [] held_server)
        local
        carols
      ≡ ok (record { remote_port = 10001 }))
    × ((handle_connection flat_codec flat_wire server_config always_fair
          (arriving flat_codec flat_wire server_config always_fair whole []
            (message flat_codec flat_wire server_config always_fair local carols))
          held_server).1.registry
        ≡ (Registry.register one_session (key_of carols)).0)
register-answered_example =
    register-answered flat_codec flat_wire server_config always_fair local carols held_server
      (Registry.register one_session (key_of carols)).0 10001 whole [] flat_wire-WireLaws
      whole-IsCut local_host-IsPlain carols_short carols_user carols_service carols_port
