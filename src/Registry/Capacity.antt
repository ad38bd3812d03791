-- ===== src/Registry/Capacity.antt =====
-- When a registration fails: the sessions fill the range.
use ephemwork.Prelude.{
  ℕ, zero, suc, ◌+◌, ◌-◌, ◌≡◌, refl, ◌≢◌, ◌≤◌, ◌<◌, ◌↔◌, true, false, none, some, List, [], ◌∷◌,
  arith, err, contains, length, ◌==◌, Bool-cases, Option-cases, inl, inr,
}
use ephemwork.BTreeMap.{BTreeMap, values}
use ephemwork.BTreeMap.Sorted.{Distinct}
use ephemwork.Registry.{
  Key, Registry, RegistryError, exhausted, first_free, allocate_port, register, lookup, len,
}
use ephemwork.Registry.Allocation.{
  first_free_lowest, first_free-none, erase, length-erase, length_ge_of_range,
}
use ephemwork.Registry.Invariant.{WellFormed, register_cases}

-- The number of ports in the range.
abbrev pub capacity : Registry → ℕ
capacity r = suc r.range.end - r.range.start

contains-erase_sub : (n m : ℕ) (xs : List ℕ) → contains (erase n xs) m ≡ true → contains xs m ≡ true
unfolding erase
contains-erase_sub n m [] h = h
contains-erase_sub n m (x ∷ xs) h = ground (arith, contains-erase_sub n m xs)

contains-erase_self : (n : ℕ) (xs : List ℕ) → Distinct xs → contains (erase n xs) n ≡ false
unfolding erase
contains-erase_self n [] d = refl
contains-erase_self n (x ∷ xs) d = ground (arith, contains-erase_self n xs)

erase-Distinct : (n : ℕ) (xs : List ℕ) → Distinct xs → Distinct (erase n xs)
unfolding erase
erase-Distinct n [] d = tt
erase-Distinct n (x ∷ xs) d = ground (arith, erase-Distinct n xs, contains-erase_sub n x xs)

length-erase_le : (n : ℕ) (xs : List ℕ) → length xs ≤ suc (length (erase n xs))
unfolding erase
length-erase_le n [] = omega arith
length-erase_le n (x ∷ xs) = ground (arith, length-erase_le n xs)

contains_head : (x : ℕ) (xs : List ℕ) → contains (x ∷ xs) x ≡ true
contains_head x xs = ground arith

-- Distinct numbers among n consecutive ones are at most n.
length_le_of_range :
    (n port : ℕ) (xs : List ℕ)
    → Distinct xs
    → ((q : ℕ) → contains xs q ≡ true → (port ≤ q) × (q < port + n))
    → length xs ≤ n
length_le_of_range zero port [] d h = omega arith
length_le_of_range zero port (x ∷ xs) d h =
    let (from, to) = h x (contains_head x xs) in absurd (omega arith)
length_le_of_range (suc n) port xs d h =
    let rest : length (erase port xs) ≤ n =
      length_le_of_range n (suc port) (erase port xs) (erase-Distinct port xs d) (λ q c.
        let (from, to) = h q (contains-erase_sub port q xs c) in
        let other : port ≢ q = λ e. ground (arith, contains-erase_self port xs d) in
        (omega arith, omega arith)) in
    elim (Bool-cases (contains xs port)) [
      | inl c ↦ omega (arith, length-erase port xs c)
      | inr c ↦ omega (arith, length-erase_le port xs)
    ]

length-values : (m : BTreeMap ℕ) → length (values m) ≡ length m
unfolding values
length-values [] = refl
length-values (e ∷ m) = omega (arith, length-values m)

-- The sessions of a well-formed registry fit the range.
pub len-le-capacity : (r : Registry) → WellFormed r → len r ≤ capacity r
unfolding len
len-le-capacity r v = rw (← length-values r.entries) (
    length_le_of_range (capacity r) r.range.start (values r.entries) v.distinct
      (λ q c. let (from, to) = v.ranged q c in (from, omega arith)))

-- A free port leaves room for one more session.
free_port_room :
    (r : Registry) (p : ℕ)
    → WellFormed r
    → first_free (values r.entries) (capacity r) r.range.start ≡ some p
    → suc (len r) ≤ capacity r
unfolding len
free_port_room r p v found =
    let (above, below, unused, lower) =
      first_free_lowest (values r.entries) (capacity r) r.range.start p found in
    rw (← length-values r.entries) (
      length_le_of_range (capacity r) r.range.start (p ∷ values r.entries) (unused, v.distinct)
        (λ q c. elim (Bool-cases (p == q)) [
          | inl same ↦ (ground arith, ground arith)
          | inr other ↦ let (from, to) = v.ranged q (ground arith) in (from, omega arith)
        ]))

-- The ports run out exactly when there are as many sessions as ports.
allocate_port_fails_iff :
    (r : Registry)
    → WellFormed r
    → (allocate_port r ≡ err (exhausted r.range (len r))) ↔ (len r ≡ capacity r)
unfolding allocate_port len
allocate_port_fails_iff r v = (
  λ failed.
      let full : capacity r ≤ length (values r.entries) =
        length_ge_of_range (capacity r) r.range.start (values r.entries)
          (first_free-none (values r.entries) (capacity r) r.range.start (ground arith)) in
      omega (arith, length-values r.entries, len-le-capacity r v),
  λ full. elim (Option-cases (first_free (values r.entries) (capacity r) r.range.start)) [
    | inl nothing ↦ ground arith
    | inr (p, found) ↦ absurd (omega (arith, free_port_room r p v found))
  ],
)

-- In a well-formed registry a registration fails with the error that names the range and the
-- number of sessions exactly when the session is new and there are as many sessions as ports in
-- the range.
pub register_fails_iff :
    (r : Registry) (key : Key)
    → WellFormed r
    → ((register r key).1 ≡ err (exhausted r.range (len r)))
      ↔ ((lookup r key ≡ none) × (len r ≡ capacity r))
unfolding lookup
register_fails_iff r key v =
    register_cases
      (λ o.
        (o.1 ≡ err (exhausted r.range (len r))) ↔ ((lookup r key ≡ none) × (len r ≡ capacity r)))
      r key (λ p known. (λ e. absurd (cc), λ f. absurd (cc)))
      (λ p absent got. (λ e. absurd (cc), λ f. absurd (cc ((allocate_port_fails_iff r v).1 f.1))))
      (λ e absent got. (
        λ h. (absent, (allocate_port_fails_iff r v).0 (ground arith)),
        λ f. ground (arith, (allocate_port_fails_iff r v).1 f.1),
      ))

-- A registration that fails changes nothing, and says why.
pub register_failed :
    (r : Registry) (key : Key) (e : RegistryError)
    → (register r key).1 ≡ err e
    → ((register r key).0 ≡ r) × (e ≡ exhausted r.range (len r))
unfolding allocate_port len
register_failed r key e =
    register_cases (λ o. o.1 ≡ err e → (o.0 ≡ r) × (e ≡ exhausted r.range (len r))) r key
      (λ p known h. absurd (cc)) (λ p absent got h. absurd (cc))
      (λ f absent got h. (refl, ground arith))
