-- ===== src/Registry/Sessions.antt =====
-- What the clients of the registry rely on: which port a session holds after each operation.
use ephemwork.Prelude.{
  ℕ, suc, ◌≡◌, refl, ap, ◌≢◌, ◌≤◌, true, false, none, some, arith, ok, contains, if◌then◌else◌,
}
use ephemwork.Text.{same}
use ephemwork.Text.Laws.{same_iff, same_refl}
use ephemwork.BTreeMap.{values}
use ephemwork.BTreeMap.Laws.{get-insert, get-remove}
use ephemwork.BTreeMap.Sorted.{get_injective, remove_absent}
use ephemwork.Registry.{Key, Registry, compose_key, register, deregister, lookup}
use ephemwork.Registry.Invariant.{WellFormed, register_cases, allocate_port_lowest}

-- What a registration returns with success is what a lookup finds from then on.
pub lookup-register :
    (r : Registry) (key : Key) (p : ℕ)
    → (register r key).1 ≡ ok p
    → lookup (register r key).0 key ≡ some p
unfolding lookup
lookup-register r key p =
    register_cases (λ o. o.1 ≡ ok p → lookup o.0 key ≡ some p) r key (λ q known h. ground arith)
      (λ q absent got h. ground (
        arith,
        get-insert (compose_key key) (compose_key key) q r.entries,
        same_refl (compose_key key),
      ))
      (λ e absent got h. cc)

-- A session whose composite key is another one keeps its port, or stays Unregistered.
pub lookup-register_ne :
    (r : Registry) (key other : Key)
    → compose_key key ≢ compose_key other
    → lookup (register r key).0 other ≡ lookup r other
unfolding lookup
lookup-register_ne r key other ne =
    register_cases (λ o. lookup o.0 other ≡ lookup r other) r key (λ q known. refl)
      (λ q absent got. ground (
        arith,
        get-insert (compose_key key) (compose_key other) q r.entries,
        same_iff (compose_key key) (compose_key other),
      ))
      (λ e absent got. refl)

-- After a registration that succeeded, to register the same session again gives the same port and
-- changes nothing.
pub register_idempotent :
    (r : Registry) (key : Key) (p : ℕ)
    → (register r key).1 ≡ ok p
    → register (register r key).0 key ≡ ((register r key).0, ok p)
unfolding register lookup
register_idempotent r key p h = rw (lookup-register r key p h, register)

pub lookup-deregister :
    (r : Registry) (key other : Key)
    → lookup (deregister r key).0 other
      ≡ (if same (compose_key key) (compose_key other) then none else lookup r other)
unfolding lookup deregister
lookup-deregister r key other = get-remove (compose_key key) (compose_key other) r.entries

-- A deregistration of a session that is not there changes nothing.
pub deregister_absent : (r : Registry) (key : Key) → lookup r key ≡ none → (deregister r key).0 ≡ r
unfolding lookup deregister
deregister_absent r key h =
    ap {B = Registry} (λ m. record r { entries = m }) (remove_absent (compose_key key) r.entries h)

pub lookup-deregister_self : (r : Registry) (key : Key) → lookup (deregister r key).0 key ≡ none
lookup-deregister_self r key = rw (lookup-deregister r key key, same_refl (compose_key key)) refl

-- In a well-formed registry two sessions hold one port only if their flat keys are the same.
pub lookup_injective :
    (r : Registry) (a b : Key) (p : ℕ)
    → WellFormed r
    → lookup r a ≡ some p
    → lookup r b ≡ some p
    → compose_key a ≡ compose_key b
unfolding lookup
lookup_injective r a b p v h k =
    get_injective (compose_key a) (compose_key b) p r.entries v.distinct h k

-- A new session that is registered gets the lowest port of the range that no session holds.
pub register_lowest :
    (r : Registry) (key : Key) (p : ℕ)
    → lookup r key ≡ none
    → (register r key).1 ≡ ok p
    → (r.range.start ≤ p)
      × (p ≤ r.range.end)
      × (contains (values r.entries) p ≡ false)
      × ((q : ℕ) → r.range.start ≤ q → suc q ≤ p → contains (values r.entries) q ≡ true)
unfolding lookup
register_lowest r key p fresh =
    register_cases
      (λ o.
        o.1 ≡ ok p
        → (r.range.start ≤ p)
          × (p ≤ r.range.end)
          × (contains (values r.entries) p ≡ false)
          × ((q : ℕ) → r.range.start ≤ q → suc q ≤ p → contains (values r.entries) q ≡ true))
      r key (λ q known h. absurd (cc)) (λ q absent got h. allocate_port_lowest r p (ground arith))
      (λ e absent got h. absurd (cc))
