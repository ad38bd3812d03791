-- ===== src/Text/Utf8/Ascii.antt =====
-- ASCII is its own UTF-8.
use ephemwork.Prelude.{◌≡◌, refl, Bool, true, some, [], ◌∷◌, arith, ltb, all}
use ephemwork.Text.{Text}
use ephemwork.Text.Utf8.{decode_from, from_utf8, as_bytes}

abbrev pub is_ascii : Text → Bool
is_ascii s = all (λ c. ltb c 0x80) s

decode-ascii : (s : Text) → is_ascii s ≡ true → decode_from 0 0 0 0 s ≡ some s
unfolding decode_from
decode-ascii [] h = refl
decode-ascii (c ∷ s) h = ground (arith, decode-ascii s)

pub from_utf8-ascii : (s : Text) → is_ascii s ≡ true → from_utf8 s ≡ some s
unfolding from_utf8
from_utf8-ascii s h = decode-ascii s h

pub as_bytes-ascii : (s : Text) → is_ascii s ≡ true → as_bytes s ≡ s
unfolding as_bytes
as_bytes-ascii [] h = refl
as_bytes-ascii (c ∷ s) h = ground (arith, as_bytes-ascii s)
