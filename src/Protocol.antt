-- ===== src/Protocol.antt =====
-- The wire types (common/src/lib.rs). Their JSON form is `serde_json`'s, a parameter: the record
-- `Wire`, with what is relied on in `WireLaws`.
use ephemwork.Prelude.{ℕ, ◌≡◌, List, ◌∷◌, ◌++◌, Result, ok}
use ephemwork.Text.{Text, trim, codes}

-- `Vec<u8>`
abbrev pub Bytes : Type 0
Bytes = List ℕ

pub record RegisterRequest : Type 0 where
  pub user : Text
  pub service : Text

pub record RegisterResponse : Type 0 where
  pub remote_port : ℕ

pub record DeregisterRequest : Type 0 where
  pub user : Text
  pub service : Text

pub record ErrorResponse : Type 0 where
  pub error : Text

-- An entry of the body of `GET /snapshot`.
pub record Entry : Type 0 where
  pub user : Text
  pub service : Text
  pub remote_port : ℕ

abbrev pub routing_header : Text
routing_header = codes "X-Ephemwork"

-- `lower` is `char::to_lowercase`, which may give more than one character.
unfoldable pub routing_header_value : (Text → Text) → Text → Text → Text
unfolding trim
routing_header_value lower user service = lower (trim user) ++ b':' ∷ trim service

-- A decoder's error is its message.
pub record Wire : Type 0 where
  pub register_to_vec : RegisterRequest → Bytes
  pub register_from_slice : Bytes → Result Text RegisterRequest
  pub deregister_to_vec : DeregisterRequest → Bytes
  pub deregister_from_slice : Bytes → Result Text DeregisterRequest
  pub response_to_vec : RegisterResponse → Bytes
  pub response_from_slice : Bytes → Result Text RegisterResponse
  pub error_to_vec : ErrorResponse → Bytes
  pub entries_to_vec : List Entry → Bytes

-- What is written is read back.
pub record WireLaws (w : Wire) : Type 0 where
  pub register_trips : (r : RegisterRequest) → w.register_from_slice (w.register_to_vec r) ≡ ok r
  pub deregister_trips :
      (r : DeregisterRequest) → w.deregister_from_slice (w.deregister_to_vec r) ≡ ok r
  pub response_trips : (r : RegisterResponse) → w.response_from_slice (w.response_to_vec r) ≡ ok r
