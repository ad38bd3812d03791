-- ===== src/Client/RoundTrip.antt =====
-- What the client writes the server reads, and the other way round.
use ephemwork.Prelude.{
  ℕ, ◌≡◌, refl, ◌∙◌, ◌≤◌, true, false, not, [], ◌∷◌, ◌++◌, arith, all, all-append, ok, contains,
  contains-append,
}
use ephemwork.Text.{Text, codes, is_whitespace, is_digit, eq_ignore_ascii_case}
use ephemwork.Text.Decimal.{decimal, usize_max}
use ephemwork.Text.Decimal.Laws.{decimal-digits, decimal-ne-nil, contains-decimal, parse-decimal}
use ephemwork.Text.Splitting.{split_once}
use ephemwork.Text.Splitting.Laws.{split_once-append}
use ephemwork.Text.Splitting.Words.{IsWord, trim-word, digit_not_white}
use ephemwork.Text.Utf8.Ascii.{is_ascii}
use ephemwork.Http.Parse.{header_line}
use ephemwork.Http.Parse.Framing.{IsLine}

-- ASCII without line ends, as a host name is.
abbrev pub IsPlain : Text → Type 0
IsPlain t = (is_ascii t ≡ true) × (contains t 13 ≡ false) × (contains t 10 ≡ false)

-- ASCII without white space, as a path is.
abbrev pub IsToken : Text → Type 0
IsToken t = IsWord t × (is_ascii t ≡ true)

not_white-lacks :
    (c : ℕ) (w : Text)
    → is_whitespace c ≡ true
    → all (λ b. not (is_whitespace b)) w ≡ true
    → contains w c ≡ false
not_white-lacks c [] h k = refl
not_white-lacks c (b ∷ w) h k = ground (arith, not_white-lacks c w h)

pub token-IsPlain : (t : Text) → IsToken t → IsPlain t
unfolding is_whitespace
token-IsPlain t (word, ascii) =
    (ascii, not_white-lacks 13 t refl word.0, not_white-lacks 10 t refl word.0)

-- A label before a plain text makes a header line.
pub label-IsLine : (c : ℕ) (p t : Text) → IsPlain (c ∷ p) → IsPlain t → IsLine (c ∷ p ++ t)
label-IsLine c p t (pa, pr, pf) (ta, tr, tf) = (
  all-append _ (c ∷ p) t pa ta,
  cc,
  contains-append (c ∷ p) t 13 ∙ ground arith,
  contains-append (c ∷ p) t 10 ∙ ground arith,
)

pub decimal-IsPlain : (n : ℕ) → IsPlain (decimal n)
decimal-IsPlain n = (
  digits_ascii (decimal n) (decimal-digits n),
  contains-decimal n 13 refl,
  contains-decimal n 10 refl,
)
  where
    digits_ascii : (s : Text) → all is_digit s ≡ true → is_ascii s ≡ true
    digits_ascii [] h = refl
    digits_ascii (c ∷ s) h = ground (arith, digits_ascii s)

pub decimal-IsWord : (n : ℕ) → IsWord (decimal n)
decimal-IsWord n = (digit_not_white (decimal n) (decimal-digits n), decimal-ne-nil n)

abbrev pub length_line : ℕ → Text
length_line n = codes "Content-Length: " ++ decimal n

pub length_line-read : (n cl : ℕ) → n ≤ usize_max → header_line (length_line n) cl ≡ ok n
unfolding header_line eq_ignore_ascii_case
length_line-read n cl h =
    rw (split_once-append b':' (codes "Content-Length") (32 ∷ decimal n) refl)
      (rw (trim-word (decimal n) (decimal-IsWord n)) (rw (parse-decimal usize_max n h) refl))

pub host_line-read : (host : Text) (cl : ℕ) → header_line (codes "Host: " ++ host) cl ≡ ok cl
unfolding header_line eq_ignore_ascii_case
host_line-read host cl = rw (split_once-append b':' (codes "Host") (32 ∷ host) refl) refl

pub json_line-read : (cl : ℕ) → header_line (codes "Content-Type: application/json") cl ≡ ok cl
unfolding header_line eq_ignore_ascii_case split_once
json_line-read cl = refl

pub close_line-read : (cl : ℕ) → header_line (codes "Connection: close") cl ≡ ok cl
unfolding header_line eq_ignore_ascii_case split_once
close_line-read cl = refl
