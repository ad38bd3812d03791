-- ===== src/Registry/Allocation.antt =====
-- The port that is allocated, and when there is none.
use ephemwork.Prelude.{
  ℕ, zero, suc, ◌+◌, ◌≡◌, ◌≢◌, ◌≤◌, ◌<◌, inl, inr, true, false, none, some, List, [], ◌∷◌, arith,
  contains, length, ◌==◌, if◌then◌else◌, Bool-cases, ==_iff,
}
use ephemwork.Registry.{first_free}

-- The result of the loop lies among the n ports from `port` on, is unused, and every port before
-- it is used.
pub first_free_lowest :
    (used : List ℕ) (n port p : ℕ)
    → first_free used n port ≡ some p
    → (port ≤ p)
      × (p < port + n)
      × (contains used p ≡ false)
      × ((q : ℕ) → port ≤ q → q < p → contains used q ≡ true)
unfolding first_free
first_free_lowest used zero port p h = absurd (ground arith)
first_free_lowest used (suc n) port p h = elim (Bool-cases (contains used port)) [
  | inl taken ↦
      let (above, below, unused, lower) =
        first_free_lowest used n (suc port) p (rw (taken, first_free) at h) in
      (
        omega arith,
        omega arith,
        unused,
        λ q from to. elim (Bool-cases (port == q)) [
          | inl same ↦ rw (← (==_iff port q).0 same) taken
          | inr other ↦ lower q (ground arith) to
        ],
      )
  | inr unused ↦
      let e : port ≡ p = ground arith in
      (omega arith, omega arith, rw (← e) unused, λ q from to. absurd (omega arith))
]

-- Where the loop finds nothing, all n ports are used.
pub first_free-none :
    (used : List ℕ) (n port : ℕ)
    → first_free used n port ≡ none
    → (q : ℕ) → port ≤ q
    → q < port + n
    → contains used q ≡ true
unfolding first_free
first_free-none used zero port h q from to = absurd (omega arith)
first_free-none used (suc n) port h q from to = elim (Bool-cases (port == q)) [
  | inl same ↦ ground arith
  | inr other ↦ first_free-none used n (suc port) (ground arith) q (ground arith) (omega arith)
]

-- The list without the first n in it.
unfoldable pub erase : ℕ → List ℕ → List ℕ
erase n [] = []
erase n (x ∷ xs) = if x == n then xs else x ∷ erase n xs

pub length-erase :
    (n : ℕ) (xs : List ℕ) → contains xs n ≡ true → suc (length (erase n xs)) ≡ length xs
unfolding erase
length-erase n [] h = ground arith
length-erase n (x ∷ xs) h = ground (arith, length-erase n xs)

pub contains-erase :
    (n m : ℕ) (xs : List ℕ) → m ≢ n → contains xs m ≡ true → contains (erase n xs) m ≡ true
unfolding erase
contains-erase n m [] h c = c
contains-erase n m (x ∷ xs) h c = ground (arith, contains-erase n m xs)

-- A list that holds n consecutive numbers has at least n entries.
pub length_ge_of_range :
    (n port : ℕ) (used : List ℕ)
    → ((q : ℕ) → port ≤ q → q < port + n → contains used q ≡ true)
    → n ≤ length used
length_ge_of_range zero port used h = omega arith
length_ge_of_range (suc n) port used h =
    let here : contains used port ≡ true = h port (omega arith) (omega arith) in
    let rest : n ≤ length (erase port used) =
      length_ge_of_range n (suc port) (erase port used)
        (λ q from to. contains-erase port q used (omega arith) (h q (omega arith) (omega arith))) in
    omega (arith, length-erase port used here)
