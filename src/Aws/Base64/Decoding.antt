-- ===== src/Aws/Base64/Decoding.antt =====
-- The encoding against the decoder of RFC 4648.
use ephemwork.Prelude.{
  ℕ, zero, suc, ◌+◌, ◌-◌, ◌*◌, leb, ◌/◌, ◌%◌, ◌≡◌, ◌<◌, refl, ap, ap₂, Bool, true, false, not, ◌&&◌,
  [], ◌∷◌, All, ◌==◌, ==_iff, if◌then◌else◌, arith,
}
use native.Mathlib.Decide.{ℕ_discrete}
use ephemwork.Text.{Text}
use ephemwork.Protocol.{Bytes}
use ephemwork.Aws.Base64.{letter, base64_encode}

-- The value of a letter in table 1 of RFC 4648, written out; 64 for what is no letter.
unfoldable pub digit : ℕ → ℕ
digit c =
    if leb b'A' c && leb c b'Z'
    then c - b'A'
    else if leb b'a' c && leb c b'z'
    then c - b'a' + 26
    else if leb b'0' c && leb c b'9'
    then c - b'0' + 52
    else if c == b'+'
    then 62
    else if c == b'/'
    then 63
    else 64

-- Groups of four letters; the last one may end with one or two signs of equality.
abbrev pub group : ℕ → ℕ → ℕ → ℕ → Bytes → Bytes
group c0 c1 c2 c3 rest =
    if c2 == b'='
    then (digit c0 * 4 + digit c1 / 16) ∷ []
    else if c3 == b'='
    then (digit c0 * 4 + digit c1 / 16) ∷ (digit c1 % 16 * 16 + digit c2 / 4) ∷ []
    else (digit c0 * 4 + digit c1 / 16)
      ∷ (digit c1 % 16 * 16 + digit c2 / 4)
      ∷ (digit c2 % 4 * 64 + digit c3)
      ∷ rest

abbrev pub decode : Text → Bytes
decode (c0 ∷ c1 ∷ c2 ∷ c3 ∷ text) = let rest = decode text in group c0 c1 c2 c3 rest
decode text = []

-- A check of all numbers below a bound.
abbrev all_below : (ℕ → Bool) → ℕ → Bool
all_below p zero = true
all_below p (suc n) = p n && all_below p n

all_below_lem : (p : ℕ → Bool) (n k : ℕ) → all_below p n ≡ true → k < n → p k ≡ true
all_below_lem p zero k h less = absurd (omega (arith, less))
all_below_lem p (suc n) k h less = elim (ℕ_discrete k n) [
  | yes here ↦ rw here (ground (arith, h))
  | no other ↦ all_below_lem p n k (ground (arith, h)) (omega (arith, less, other))
]

digits_back : all_below (λ n. digit (letter n) == n) 64 ≡ true
unfolding digit letter
digits_back = refl

letters_proper : all_below (λ n. not (letter n == b'=')) 64 ≡ true
unfolding letter
letters_proper = refl

digit-letter : (n : ℕ) → n < 64 → digit (letter n) ≡ n
digit-letter n h =
    (==_iff (digit (letter n)) n).0 (all_below_lem (λ m. digit (letter m) == m) 64 n digits_back h)

letter-ne-sign : (n : ℕ) → n < 64 → (letter n == b'=') ≡ false
letter-ne-sign n h =
    ground (arith, all_below_lem (λ m. not (letter m == b'=')) 64 n letters_proper h)

-- The first byte of a group; e is the second digit.
first_byte :
    (b m e : ℕ)
    → b < 256
    → m < 16
    → e ≡ b % 4 * 16 + m
    → digit (letter (b / 4)) * 4 + digit (letter e) / 16 ≡ b
first_byte b m e h k is =
    rw (digit-letter (b / 4) (omega (arith, h)))
      (rw (digit-letter e (omega (arith, k, is))) (omega (arith, k, is)))

-- The second byte; e is the third digit.
second_byte :
    (a b m e : ℕ)
    → b < 256
    → m < 4
    → e ≡ b % 16 * 4 + m
    → digit (letter (a % 4 * 16 + b / 16)) % 16 * 16 + digit (letter e) / 4 ≡ b
second_byte a b m e h k is =
    rw (digit-letter (a % 4 * 16 + b / 16) (omega (arith, h)))
      (rw (digit-letter e (omega (arith, k, is))) (omega (arith, h, k, is)))

-- The third byte.
third_byte :
    (a b : ℕ)
    → b < 256
    → digit (letter (a % 16 * 4 + b / 64)) % 4 * 64 + digit (letter (b % 64)) ≡ b
third_byte a b h =
    rw (digit-letter (a % 16 * 4 + b / 64) (omega (arith, h)))
      (rw (digit-letter (b % 64) (omega arith)) (omega (arith, h)))

list_of_three :
    {a b c x y z : ℕ} {s t : Bytes}
    → a ≡ x
    → b ≡ y
    → c ≡ z
    → s ≡ t
    → ◌≡◌ {A = Bytes} (a ∷ b ∷ c ∷ s) (x ∷ y ∷ z ∷ t)
list_of_three p q r e = cc (p, q, r, e)

-- The decoder of RFC 4648, with the values of its table 1, reads back every list of bytes from its
-- encoding.
pub decode-base64_encode :
    (input : Bytes) → All (λ b. b < 256) input → decode (base64_encode input) ≡ input
unfolding base64_encode
decode-base64_encode [] h = refl
decode-base64_encode (b0 ∷ []) (h, hs) =
    ap (λ x. x ∷ []) (first_byte b0 0 (b0 % 4 * 16) h (omega arith) (omega arith))
decode-base64_encode (b0 ∷ b1 ∷ []) (h0, (h1, hs)) =
    rw (letter-ne-sign (b1 % 16 * 4) (omega arith)) (
      ap₂ (λ x y. x ∷ y ∷ [])
        (first_byte b0 (b1 / 16) (b0 % 4 * 16 + b1 / 16) h0 (omega (arith, h1)) refl)
        (second_byte b0 b1 0 (b1 % 16 * 4) h1 (omega arith) (omega arith)))
decode-base64_encode (b0 ∷ b1 ∷ b2 ∷ input) (h0, (h1, (h2, hs))) =
    rw (letter-ne-sign (b1 % 16 * 4 + b2 / 64) (omega (arith, h2))) (
      rw (letter-ne-sign (b2 % 64) (omega arith)) (
        list_of_three (first_byte b0 (b1 / 16) (b0 % 4 * 16 + b1 / 16) h0 (omega (arith, h1)) refl)
          (second_byte b0 b1 (b2 / 64) (b1 % 16 * 4 + b2 / 64) h1 (omega (arith, h2)) refl)
          (third_byte b1 b2 h2) (decode-base64_encode input hs)))
