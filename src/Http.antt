-- ===== src/Http.antt =====
-- The HTTP layer of the control plane (bastion-server/src/http.rs).
pub mod Parse
pub mod Read
use ephemwork.Prelude.{ℕ, List, [], ◌∷◌, ◌++◌, length}
use ephemwork.Text.{Text, codes}
use ephemwork.Text.Decimal.{decimal}
use ephemwork.Text.Utf8.{as_bytes}
use ephemwork.Protocol.{Bytes}

pub record Request : Type 0 where
  pub method : Text
  pub path : Text
  pub body : Bytes

pub record Response : Type 0 where
  pub status : ℕ
  pub reason : Text
  pub body : Bytes
  pub content_type : Text

unfoldable pub json : ℕ → Text → Bytes → Response
json status reason body = record {
  status = status;
  reason = reason;
  body = body;
  content_type = codes "application/json";
}

unfoldable pub text : ℕ → Text → Bytes → Response
text status reason body = record {
  status = status;
  reason = reason;
  body = body;
  content_type = codes "text/plain";
}

-- The lines of a message's head, with a line end between them.
unfoldable pub joined : Text → List Text → Text
joined l [] = l
joined l (m ∷ ls) = l ++ 13 ∷ 10 ∷ joined m ls

-- A head and a body as they are sent: an empty line ends the head.
unfoldable pub framed : Text → List Text → Bytes → Bytes
unfolding joined
framed l ls body = as_bytes (joined l ls) ++ 13 ∷ 10 ∷ 13 ∷ 10 ∷ body

unfoldable pub status_line : ℕ → Text → Text
status_line status reason = codes "HTTP/1.0 " ++ (decimal status ++ 32 ∷ reason)

unfoldable pub to_wire : Response → Bytes
to_wire r =
    framed (status_line r.status r.reason)
      ((codes "Content-Type: " ++ r.content_type)
        ∷ (codes "Content-Length: " ++ decimal (length r.body))
        ∷ codes "Connection: close"
        ∷ [])
      r.body
