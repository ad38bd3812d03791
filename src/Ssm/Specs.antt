-- ===== src/Ssm/Specs.antt =====
-- The forward specifications that are accepted, and their printed form.
use ephemwork.Prelude.{
  ℕ, ◌≡◌, refl, ◌≢◌, ◌≤◌, ◌<◌, false, some, [], ◌∷◌, ◌++◌, ok, arith, contains, Option-cases, inl,
  inr, ◌*◌, ◌+◌, ◌-◌,
}
use ephemwork.Text.{Text, trim}
use ephemwork.Text.Decimal.{decimal, parse_unsigned, digits_value, u16_max}
use ephemwork.Text.Decimal.Laws.{contains-decimal, parse-decimal}
use ephemwork.Text.Splitting.{split_char}
use ephemwork.Text.Splitting.Laws.{split_char-append, split_char-last}
use ephemwork.Ssm.{ForwardPortSpec, parse_forward_port_spec, three_parts}

-- The form that the configuration uses: "local_port:remote_host:remote_port".
unfoldable pub print_spec : ForwardPortSpec → Text
print_spec s = decimal s.local_port ++ b':' ∷ (s.remote_host ++ b':' ∷ decimal s.remote_port)

-- A usable specification: 16-bit ports that are not 0, and a trimmed host without a colon.
pub record IsUsable (s : ForwardPortSpec) : Type 0 where
  pub local_bound : s.local_port ≤ u16_max
  pub local_positive : 0 < s.local_port
  pub remote_bound : s.remote_port ≤ u16_max
  pub remote_positive : 0 < s.remote_port
  pub host : s.remote_host ≢ []
  pub trimmed : trim s.remote_host ≡ s.remote_host
  pub no_colon : contains s.remote_host b':' ≡ false

split-print :
    (s : ForwardPortSpec)
    → IsUsable s
    → three_parts (split_char b':' (print_spec s))
      ≡ some (decimal s.local_port, s.remote_host, decimal s.remote_port)
unfolding print_spec
split-print s u =
    rw
      (split_char-append b':' (decimal s.local_port) (s.remote_host ++ b':' ∷ decimal s.remote_port)
        (contains-decimal s.local_port b':' refl))
      (rw (split_char-append b':' s.remote_host (decimal s.remote_port) u.no_colon) (
        rw (split_char-last b':' (decimal s.remote_port) (contains-decimal s.remote_port b':' refl))
          refl))

-- A forward specification with 16-bit ports other than 0 and a trimmed, non-empty host without a
-- colon is read back from its printed form.
pub parse-print_spec :
    (s : ForwardPortSpec) → IsUsable s → parse_forward_port_spec (print_spec s) ≡ ok s
unfolding parse_forward_port_spec
parse-print_spec s u = rw (split-print s u) (
    rw (parse-decimal u16_max s.local_port u.local_bound) (
      rw u.trimmed (
        rw (parse-decimal u16_max s.remote_port u.remote_bound)
          (ground (arith, u.host, u.local_positive, u.remote_positive)))))

digits_value-le : (max n v : ℕ) (s : Text) → n ≤ max → digits_value max n s ≡ some v → v ≤ max
unfolding digits_value
digits_value-le max n v [] h e = ground arith
digits_value-le max n v (c ∷ s) h e = ground (arith, digits_value-le max (n * 10 + (c - b'0')) v s)

parse_unsigned-le : (max v : ℕ) (s : Text) → parse_unsigned max s ≡ some v → v ≤ max
unfolding parse_unsigned
parse_unsigned-le max v [] e = absurd (cc)
parse_unsigned-le max v (c ∷ []) e = digits_value-le max 0 v (c ∷ []) (omega arith) e
parse_unsigned-le max v (c ∷ d ∷ s) e =
    ground (arith, digits_value-le max 0 v (d ∷ s), digits_value-le max 0 v (c ∷ d ∷ s))

-- Whatever text is accepted as a forward specification, its ports are 16-bit numbers other than 0
-- and its host is not empty.
pub parse_forward_port_spec_sound :
    (raw : Text) (s : ForwardPortSpec)
    → parse_forward_port_spec raw ≡ ok s
    → (0 < s.local_port)
      × (s.local_port ≤ u16_max)
      × (0 < s.remote_port)
      × (s.remote_port ≤ u16_max)
      × (s.remote_host ≢ [])
unfolding parse_forward_port_spec
parse_forward_port_spec_sound raw s h = elim (Option-cases (three_parts (split_char b':' raw))) [
  | inl bad ↦ absurd (ground arith)
  | inr ((first, second, third), parts) ↦ elim (Option-cases (parse_unsigned u16_max first)) [
    | inl bad ↦ absurd (ground arith)
    | inr (p, local) ↦ elim (Option-cases (parse_unsigned u16_max third)) [
      | inl bad ↦ absurd (ground arith)
      | inr (q, remote) ↦ (
        ground (
          arith,
          parse_unsigned-le u16_max p first local,
          parse_unsigned-le u16_max q third remote,
        ),
        ground (
          arith,
          parse_unsigned-le u16_max p first local,
          parse_unsigned-le u16_max q third remote,
        ),
        ground (
          arith,
          parse_unsigned-le u16_max p first local,
          parse_unsigned-le u16_max q third remote,
        ),
        ground (
          arith,
          parse_unsigned-le u16_max p first local,
          parse_unsigned-le u16_max q third remote,
        ),
        ground (
          arith,
          parse_unsigned-le u16_max p first local,
          parse_unsigned-le u16_max q third remote,
        ),
      )
    ]
  ]
]
