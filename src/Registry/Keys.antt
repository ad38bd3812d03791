-- ===== src/Registry/Keys.antt =====
-- The flat key of a session, and where two sessions share one.
use ephemwork.Prelude.{◌≡◌, ap, false, some, ◌∷◌, ◌++◌, arith, append_assoc, contains}
use ephemwork.Text.{Text}
use ephemwork.Text.Splitting.Laws.{split_once-append}
use ephemwork.Registry.{Key, compose_key, split_key}

-- No slash stands in the text.
abbrev pub NoSlash : Text → Type 0
NoSlash t = contains t b'/' ≡ false

-- The key of a user without a slash is read back.
pub split-compose : (k : Key) → NoSlash k.user → split_key (compose_key k) ≡ some k
unfolding split_key compose_key
split-compose k h = rw (split_once-append b'/' k.user k.service h, split_key)

-- Two sessions whose users have no slash share a flat key only if they are the same session.
pub compose_injective :
    (j k : Key) → NoSlash j.user → NoSlash k.user → compose_key j ≡ compose_key k → j ≡ k
compose_injective j k hj hk e =
    ground (arith, split-compose j hj, split-compose k hk, ap split_key e)

-- A slash in the user moves into the service: the user "a/b" with the service "c" has the flat key
-- of the user "a" with the service "b/c".
pub compose-clash :
    (a b c : Text)
    → compose_key (record { user = a ++ b'/' ∷ b; service = c })
      ≡ compose_key (record { user = a; service = b ++ b'/' ∷ c })
unfolding compose_key
compose-clash a b c = append_assoc a (b'/' ∷ b) (b'/' ∷ c)
