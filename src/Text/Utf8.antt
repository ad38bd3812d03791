-- ===== src/Text/Utf8.antt =====
-- UTF-8, as `std::str::from_utf8` reads it and `as_bytes` writes it.
pub mod Ascii
use ephemwork.Prelude.{
  ℕ, zero, suc, ◌+◌, ◌-◌, ◌*◌, ◌/◌, ◌%◌, Bool, ◌&&◌, Option, none, some, List, [], ◌∷◌, ◌++◌, ltb,
  leb, ◌==◌, if◌then◌else◌,
}
use ephemwork.Text.{Text}

abbrev onto : ℕ → Option Text → Option Text
onto c none = none
onto c (some s) = some (c ∷ s)

-- What a lead byte announces: the bytes that follow, its share of the value, and the range of the
-- next byte, which rules out overlong forms, surrogates and values past the last code point.
record Lead : Type 0 where
  count : ℕ
  share : ℕ
  low : ℕ
  high : ℕ

abbrev lead : ℕ → ℕ → ℕ → ℕ → Option Lead
lead n v lo hi = some (record { count = n; share = v; low = lo; high = hi })

lead_of : ℕ → Option Lead
lead_of b =
    if leb 0xc2 b && leb b 0xdf
    then lead 1 (b - 0xc0) 0x80 0xbf
    else if b == 0xe0
    then lead 2 0 0xa0 0xbf
    else if b == 0xed
    then lead 2 13 0x80 0x9f
    else if leb 0xe1 b && leb b 0xef
    then lead 2 (b - 0xe0) 0x80 0xbf
    else if b == 0xf0
    then lead 3 0 0x90 0xbf
    else if leb 0xf1 b && leb b 0xf3
    then lead 3 (b - 0xf0) 0x80 0xbf
    else if b == 0xf4
    then lead 3 4 0x80 0x8f
    else none

-- The bytes from the present one on, where `pending` bytes of a code point are still to come.
unfoldable pub decode_from : ℕ → ℕ → ℕ → ℕ → List ℕ → Option Text
unfolding lead_of
decode_from zero v lo hi [] = some []
decode_from (suc pending) v lo hi [] = none
decode_from zero v lo hi (b ∷ s) =
    let plain = onto b (decode_from 0 0 0 0 s) in
    let longer : Option Text = elim (lead_of b) [
      | none ↦ none
      | some l ↦ decode_from l.count l.share l.low l.high s
    ] in
    if ltb b 0x80 then plain else longer
decode_from (suc pending) v lo hi (b ∷ s) =
    let value = v * 64 + (b - 0x80) in
    let last = onto value (decode_from 0 0 0 0 s) in
    let more = decode_from pending value 0x80 0xbf s in
    if leb lo b && leb b hi then (if pending == 0 then last else more) else none

-- `str::from_utf8(bytes).ok()`
unfoldable pub from_utf8 : List ℕ → Option Text
unfolding decode_from
from_utf8 s = decode_from 0 0 0 0 s

-- The bytes of one code point.
char_bytes : ℕ → List ℕ
char_bytes c =
    if ltb c 0x80
    then c ∷ []
    else if ltb c 0x800
    then (0xc0 + c / 64) ∷ (0x80 + c % 64) ∷ []
    else if ltb c 0x10000
    then (0xe0 + c / 4096) ∷ (0x80 + c / 64 % 64) ∷ (0x80 + c % 64) ∷ []
    else (0xf0 + c / 262144) ∷ (0x80 + c / 4096 % 64) ∷ (0x80 + c / 64 % 64) ∷ (0x80 + c % 64) ∷ []

-- `s.as_bytes()`
unfoldable pub as_bytes : Text → List ℕ
unfolding char_bytes
as_bytes [] = []
as_bytes (c ∷ s) = char_bytes c ++ as_bytes s
