-- ===== src/Text/Decimal.antt =====
-- Numbers in texts: `Display` and `FromStr` of the unsigned integers.
pub mod Laws
use mathlib.Core.List.{reverse}
use ephemwork.Prelude.{
  ℕ, zero, suc, ◌+◌, ◌-◌, ◌*◌, ◌/◌, ◌%◌, Bool, Option, none, some, List, [], ◌∷◌, ltb, leb, ◌==◌,
  if◌then◌else◌,
}
use ephemwork.Text.{Text, is_digit}

-- The digits of n, most significant first, before those in `acc`; the fuel is a bound on n.
unfoldable pub digits_onto : ℕ → ℕ → Text → Text
digits_onto zero n acc = acc
digits_onto (suc f) n acc =
    let rest = digits_onto f (n / 10) ((b'0' + n % 10) ∷ acc) in
    if ltb n 10 then (b'0' + n) ∷ acc else rest

-- `n.to_string()`
unfoldable pub decimal : ℕ → Text
unfolding digits_onto
decimal n = digits_onto (suc n) n []

-- The value of a run of digits, `none` at any other character or past the type's largest value.
unfoldable pub digits_value : ℕ → ℕ → Text → Option ℕ
digits_value max n [] = some n
digits_value max n (c ∷ s) =
    let next = n * 10 + (c - b'0') in
    let rest = digits_value max next s in
    if is_digit c then (if leb next max then rest else none) else none

-- `parse::<uN>()`: a leading plus sign is taken, and at least one digit is required.
unfoldable pub parse_unsigned : ℕ → Text → Option ℕ
unfolding digits_value
parse_unsigned max [] = none
parse_unsigned max (c ∷ []) = digits_value max 0 (c ∷ [])
parse_unsigned max (c ∷ d ∷ s) =
    if c == b'+' then digits_value max 0 (d ∷ s) else digits_value max 0 (c ∷ d ∷ s)

abbrev pub u16_max : ℕ
u16_max = 65535

-- `usize` on the 64-bit targets that the program is built for.
abbrev pub usize_max : ℕ
usize_max = 18446744073709551615
