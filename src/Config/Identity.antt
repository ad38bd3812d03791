-- ===== src/Config/Identity.antt =====
-- The user's identity.
use ephemwork.Prelude.{◌≡◌, refl, ◌≢◌, Option, none, some, [], ok, arith}
use ephemwork.Text.{Text, trim}
use ephemwork.Config.{resolve_user, user_of_email}

-- An identity that is resolved is never empty.
pub resolve_user-ne-nil :
    (override git_email : Option Text) (u : Text) → resolve_user override git_email ≡ ok u → u ≢ []
unfolding resolve_user
resolve_user-ne-nil none none u h = ground arith
resolve_user-ne-nil none (some email) u h = ground arith
resolve_user-ne-nil (some v) none u h = ground arith
resolve_user-ne-nil (some v) (some email) u h = ground arith

-- A blank override counts as none.
pub resolve_user_blank :
    (override git_email : Option Text)
    → ((v : Text) → override ≡ some v → trim v ≡ [])
    → resolve_user override git_email ≡ user_of_email git_email
unfolding resolve_user
resolve_user_blank none git_email h = refl
resolve_user_blank (some v) git_email h = ground (arith, h v refl)
