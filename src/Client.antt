-- ===== src/Client.antt =====
-- The client of the control plane (src/bastion_client.rs). The network is a parameter: from the
-- bytes of a request to the bytes that come back, or an error of the connection.
pub mod RoundTrip
pub mod Requests
pub mod Responses
pub mod EndToEnd
pub mod Chunks
use ephemwork.Prelude.{
  ℕ, zero, suc, ◌+◌, Bool, true, false, ◌&&◌, Option, none, some, List, [], ◌∷◌, ◌++◌, Result, ok,
  err, ◌>>=◌, ◌>>◌, ok_or, map_err, take, drop, length, leb, ltb, ◌==◌, if◌then◌else◌,
}
use ephemwork.Text.{Text, codes}
use ephemwork.Text.Decimal.{decimal, parse_unsigned, u16_max}
use ephemwork.Text.Splitting.{split_whitespace}
use ephemwork.Text.Utf8.{from_utf8}
use ephemwork.Protocol.{Bytes, Wire, RegisterRequest, RegisterResponse, DeregisterRequest}
use ephemwork.Http.{framed}
use ephemwork.Http.Parse.{position, crlf_crlf, first_of_lines}

pub record BastionEndpoint : Type 0 where
  pub host : Text
  pub port : ℕ

pub record HttpResponse : Type 0 where
  pub status : ℕ
  pub body : Bytes

pub data ClientError : Type 0 where
  network no_terminator not_utf8 no_status_line no_status bad_status : ClientError
  refused : ℕ → Bytes → ClientError
  bad_body : Text → ClientError

unfoldable pub request_line : Text → Text
request_line path = codes "POST " ++ (path ++ codes " HTTP/1.0")

unfoldable pub build_request : Text → Text → Bytes → Bytes
build_request host path body =
    framed (request_line path)
      ((codes "Host: " ++ host)
        ∷ codes "Content-Type: application/json"
        ∷ (codes "Content-Length: " ++ decimal (length body))
        ∷ codes "Connection: close"
        ∷ [])
      body

-- The first of `lines()` of a text that is not empty: up to a line feed, with a carriage return
-- before it taken off.
unfoldable pub first_line : Text → Text
first_line [] = []
first_line (c ∷ []) = if c == 10 then [] else c ∷ []
first_line (c ∷ d ∷ s) =
    let rest = first_line (d ∷ s) in
    if c == 10 then [] else if c == 13 && d == 10 then [] else c ∷ rest

abbrev pub next_line : Text → Option Text
next_line [] = none
next_line (c ∷ s) = some (first_line (c ∷ s))

abbrev pub second_word : List Text → Option Text
second_word [] = none
second_word (v ∷ []) = none
second_word (v ∷ w ∷ ws) = some w

unfoldable pub parse_response : Bytes → Result ClientError HttpResponse
parse_response raw = do
  split ← ok_or (position crlf_crlf raw) no_terminator
  head ← ok_or (from_utf8 (take split raw)) not_utf8
  status_line ← ok_or (next_line head) no_status_line
  word ← ok_or (second_word (split_whitespace status_line)) no_status
  status ← ok_or (parse_unsigned u16_max word) bad_status
  ok (record { status = status; body = drop (split + 4) raw })

-- The status must be one of 200 to 299.
unfoldable pub accept_status : HttpResponse → Result ClientError HttpResponse
accept_status parsed =
    if leb 200 parsed.status && ltb parsed.status 300
    then ok parsed
    else err (refused parsed.status parsed.body)

module _ (wire : Wire) (exchange : BastionEndpoint → Bytes → Result ClientError Bytes) where
  unfoldable pub post_json : BastionEndpoint → Text → Bytes → Result ClientError HttpResponse
  post_json endpoint path body = do
    raw ← exchange endpoint (build_request endpoint.host path body)
    parsed ← parse_response raw
    accept_status parsed

  unfoldable pub register : BastionEndpoint → RegisterRequest → Result ClientError RegisterResponse
  register endpoint req = do
    response ← post_json endpoint (codes "/register") (wire.register_to_vec req)
    map_err bad_body (wire.response_from_slice response.body)

  unfoldable pub deregister : BastionEndpoint → DeregisterRequest → Result ClientError (Unit {0})
  deregister endpoint req = do
    response ← post_json endpoint (codes "/deregister") (wire.deregister_to_vec req)
    ok tt
