-- ===== src/Text/Decimal/Laws.antt =====
-- A number that is printed is read back.
use ephemwork.Prelude.{
  ℕ, zero, suc, ◌+◌, ◌-◌, ◌*◌, ◌/◌, ◌%◌, ◌≡◌, refl, ◌∙◌, ap, ◌≤◌, ◌<◌, true, false, some, [], ◌∷◌,
  arith, ltb, ◌==◌, contains, Bool-cases, inl, inr, ◌≢◌, all,
}
use ephemwork.Text.{Text, is_digit}
use ephemwork.Text.Decimal.{digits_onto, decimal, digits_value, parse_unsigned}

digits_onto-digits :
    (f n : ℕ) (acc : Text) → all is_digit acc ≡ true → all is_digit (digits_onto f n acc) ≡ true
unfolding digits_onto
digits_onto-digits zero n acc h = h
digits_onto-digits (suc f) n acc h =
    ground (arith, digits_onto-digits f (n / 10) ((b'0' + n % 10) ∷ acc))

pub decimal-digits : (n : ℕ) → all is_digit (decimal n) ≡ true
unfolding decimal
decimal-digits n = digits_onto-digits (suc n) n [] refl

pub contains-digits :
    (s : Text) (c : ℕ) → is_digit c ≡ false → all is_digit s ≡ true → contains s c ≡ false
contains-digits [] c h k = refl
contains-digits (b ∷ s) c h k = ground (arith, contains-digits s c h)

pub contains-decimal : (n c : ℕ) → is_digit c ≡ false → contains (decimal n) c ≡ false
contains-decimal n c h = contains-digits (decimal n) c h (decimal-digits n)

value_step :
    (max v d : ℕ) (acc : Text)
    → d < 10
    → v * 10 + d ≤ max
    → digits_value max v ((b'0' + d) ∷ acc) ≡ digits_value max (v * 10 + d) acc
unfolding digits_value
value_step max v d acc h k =
    let e : v * 10 + (b'0' + d - b'0') ≡ v * 10 + d = omega arith in rw e (ground arith)

-- Reading the digits of n, and then `acc`, from the value 0 is reading `acc` from n.
digits_value-digits_onto :
    (max f n : ℕ) (acc : Text)
    → n < f
    → n ≤ max
    → digits_value max 0 (digits_onto f n acc) ≡ digits_value max n acc
unfolding digits_onto digits_value
digits_value-digits_onto max zero n acc h k = absurd (omega arith)
digits_value-digits_onto max (suc f) n acc h k = elim (Bool-cases (ltb n 10)) [
  | inl small ↦
      rw (small, digits_onto)
        (value_step max 0 n acc (ground arith) (omega arith)
          ∙ ap (λ m. digits_value max m acc) (omega arith))
  | inr large ↦
      let e : n / 10 * 10 + n % 10 ≡ n = omega arith in
      let step : digits_value max (n / 10) ((b'0' + n % 10) ∷ acc)
          ≡ digits_value max (n / 10 * 10 + n % 10) acc =
        value_step max (n / 10) (n % 10) acc (omega arith) (omega arith) in
      rw (large, digits_onto)
        (digits_value-digits_onto max f (n / 10) ((b'0' + n % 10) ∷ acc) (ground arith)
            (omega arith)
          ∙ step
          ∙ ap (λ m. digits_value max m acc) e)
]

digits_onto-ne-nil : (f n c : ℕ) (acc : Text) → digits_onto f n (c ∷ acc) ≢ []
unfolding digits_onto
digits_onto-ne-nil zero n c acc = cc
digits_onto-ne-nil (suc f) n c acc =
    ground (arith, digits_onto-ne-nil f (n / 10) (b'0' + n % 10) (c ∷ acc))

pub decimal-ne-nil : (n : ℕ) → decimal n ≢ []
unfolding decimal
decimal-ne-nil n = ground (arith, digits_onto-ne-nil n (n / 10) (b'0' + n % 10) [])

parse_unsigned-digits :
    (max : ℕ) (s : Text)
    → all is_digit s ≡ true
    → s ≢ []
    → parse_unsigned max s ≡ digits_value max 0 s
unfolding parse_unsigned
parse_unsigned-digits max [] h k = absurd (k refl)
parse_unsigned-digits max (c ∷ []) h k = refl
parse_unsigned-digits max (c ∷ d ∷ s) h k = elim (Bool-cases (c == b'+')) [
  | inl plus ↦ absurd (ground arith)
  | inr other ↦ rw other refl
]

-- A number within the bounds of its type is read back from its digits.
pub parse-decimal : (max n : ℕ) → n ≤ max → parse_unsigned max (decimal n) ≡ some n
unfolding decimal digits_value
parse-decimal max n h =
    parse_unsigned-digits max (decimal n) (decimal-digits n) (decimal-ne-nil n)
    ∙ digits_value-digits_onto max (suc n) n [] (omega arith) h
