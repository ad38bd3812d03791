-- ===== src/Registry/Invariant.antt =====
-- The invariant of the registry, which every operation keeps.
use ephemwork.Prelude.{
  ℕ, suc, ◌-◌, ◌≡◌, ◌≤◌, true, false, none, some, arith, Result, ok, err, contains, Option-cases,
  Result-cases, Bool-cases, inl, inr,
}
use ephemwork.Text.{Text}
use ephemwork.BTreeMap.{get, insert, values}
use ephemwork.BTreeMap.Sorted.{
  IsSorted, Distinct, insert-IsSorted, remove-IsSorted, insert-Distinct, remove-Distinct,
  contains-insert, contains-remove,
}
use ephemwork.Registry.{
  PortRange, RegistryError, Key, Registry, with_range, compose_key, first_free, allocate_port,
  register, deregister,
}
use ephemwork.Registry.Allocation.{first_free_lowest}

-- The keys ascend, no port stands twice, and every port lies in the range.
pub record WellFormed (r : Registry) : Type 0 where
  pub sorted : IsSorted r.entries
  pub distinct : Distinct (values r.entries)
  pub ranged :
      (q : ℕ) → contains (values r.entries) q ≡ true → (r.range.start ≤ q) × (q ≤ r.range.end)

pub with_range-WellFormed : (range : PortRange) → WellFormed (with_range range)
unfolding with_range values
with_range-WellFormed range = record {
  sorted = tt;
  distinct = tt;
  ranged = λ q h. absurd (ground arith);
}

-- The port that is allocated is in the range and unused, and every lower port of the range is used.
pub allocate_port_lowest :
    (r : Registry) (p : ℕ)
    → allocate_port r ≡ ok p
    → (r.range.start ≤ p)
      × (p ≤ r.range.end)
      × (contains (values r.entries) p ≡ false)
      × ((q : ℕ) → r.range.start ≤ q → suc q ≤ p → contains (values r.entries) q ≡ true)
unfolding allocate_port
allocate_port_lowest r p h =
    let n : ℕ = suc r.range.end - r.range.start in
    let found : first_free (values r.entries) n r.range.start ≡ some p = ground arith in
    let (above, below, unused, lower) =
      first_free_lowest (values r.entries) n r.range.start p found in
    (above, omega arith, unused, lower)

insert-WellFormed :
    (r : Registry) (k : Text) (p : ℕ)
    → WellFormed r
    → get k r.entries ≡ none
    → allocate_port r ≡ ok p
    → WellFormed (record r { entries = insert k p r.entries })
insert-WellFormed r k p v absent got =
    let (above, below, unused, lower) = allocate_port_lowest r p got in
    record {
      sorted = insert-IsSorted k p r.entries v.sorted;
      distinct = insert-Distinct k p r.entries absent unused v.distinct;
      ranged = λ q h. ground (arith, contains-insert k p q r.entries absent, v.ranged q);
    }

-- What holds of each outcome of a registration holds of the registration.
pub register_cases {ℓ} :
    (P : Registry × Result RegistryError ℕ → Type ℓ) (r : Registry) (key : Key)
    → ((p : ℕ) → get (compose_key key) r.entries ≡ some p → P (r, ok p))
    → ((p : ℕ)
        → get (compose_key key) r.entries ≡ none
        → allocate_port r ≡ ok p
        → P (record r { entries = insert (compose_key key) p r.entries }, ok p))
    → ((e : RegistryError)
        → get (compose_key key) r.entries ≡ none
        → allocate_port r ≡ err e
        → P (r, err e))
    → P (register r key)
unfolding register
register_cases P r key known fresh full = elim (Option-cases (get (compose_key key) r.entries)) [
  | inr (p, present) ↦ rw (present, register) (known p present)
  | inl absent ↦ elim (Result-cases (allocate_port r)) [
    | inl (p, got) ↦ rw (absent, got, register) (fresh p absent got)
    | inr (e, got) ↦ rw (absent, got, register) (full e absent got)
  ]
]

-- Registration keeps the invariant, whether it succeeds or fails.
pub register-WellFormed : (r : Registry) (key : Key) → WellFormed r → WellFormed (register r key).0
register-WellFormed r key v =
    register_cases (λ o. WellFormed o.0) r key (λ p known. v)
      (λ p absent got. insert-WellFormed r (compose_key key) p v absent got) (λ e absent got. v)

-- So does deregistration.
pub deregister-WellFormed :
    (r : Registry) (key : Key) → WellFormed r → WellFormed (deregister r key).0
unfolding deregister
deregister-WellFormed r key v = record {
  sorted = remove-IsSorted (compose_key key) r.entries v.sorted;
  distinct = remove-Distinct (compose_key key) r.entries v.distinct;
  ranged = λ q h. v.ranged q (elim (Bool-cases (contains (values r.entries) q)) [
    | inl c ↦ c
    | inr c ↦ ground (arith, contains-remove (compose_key key) q r.entries c)
  ]);
}
