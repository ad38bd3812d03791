-- ===== src/Registry.antt =====
-- The port registry of the control plane (bastion-server/src/registry.rs).
pub mod Allocation
pub mod Invariant
pub mod Capacity
pub mod Sessions
pub mod Keys
pub mod Snapshot
pub mod Persistence
use ephemwork.Prelude.{
  ℕ, zero, suc, ◌+◌, ◌-◌, Bool, ◌&&◌, Option, none, some, List, [], ◌∷◌, ◌++◌, Result, ok, err, leb,
  contains, length, is_empty, if◌then◌else◌, ◌>>=◌,
}
use ephemwork.Text.{Text, trim}
use ephemwork.Text.Splitting.{split_once}
use ephemwork.BTreeMap.{BTreeMap}
use ephemwork.BTreeMap

-- Both ends belong to the range; they are 16-bit numbers.
pub record PortRange : Type 0 where
  pub start : ℕ
  pub end : ℕ

abbrev pub default_port_range : PortRange
default_port_range = record { start = 10000; end = 19999 }

unfoldable pub range_contains : PortRange → ℕ → Bool
range_contains r port = leb r.start port && leb port r.end

pub record Key : Type 0 where
  pub user : Text
  pub service : Text

pub record Registry : Type 0 where
  pub range : PortRange
  pub entries : BTreeMap ℕ

-- The message of the error names the range and the number of sessions.
pub data RegistryError : Type 0 where
  exhausted : PortRange → ℕ → RegistryError

unfoldable pub with_range : PortRange → Registry
with_range r = record { range = r; entries = [] }

abbrev pub default_registry : Registry
default_registry = record { range = default_port_range; entries = [] }

unfoldable pub compose_key : Key → Text
compose_key k = k.user ++ b'/' ∷ k.service

-- `splitn(2, '/')`, of which both parts are wanted.
unfoldable pub split_key : Text → Option Key
split_key composite = elim (split_once b'/' composite) [
  | none ↦ none
  | some (user, service) ↦ some (record { user = user; service = service })
]

-- The loop of `allocate_port`, over the n ports from `port` on.
unfoldable pub first_free : List ℕ → ℕ → ℕ → Option ℕ
first_free used zero port = none
first_free used (suc n) port =
    let rest = first_free used n (suc port) in if contains used port then rest else some port

unfoldable pub allocate_port : Registry → Result RegistryError ℕ
allocate_port r =
    elim (first_free (BTreeMap.values r.entries) (suc r.range.end - r.range.start) r.range.start) [
      | none ↦ err (exhausted r.range (length r.entries))
      | some port ↦ ok port
    ]

unfoldable pub register : Registry → Key → Registry × Result RegistryError ℕ
register r key = elim (BTreeMap.get (compose_key key) r.entries) [
  | some existing ↦ (r, ok existing)
  | none ↦ elim (allocate_port r) [
    | ok port ↦ (record r { entries = BTreeMap.insert (compose_key key) port r.entries }, ok port)
    | err e ↦ (r, err e)
  ]
]

-- The freed port, or `none` if there was no such entry.
unfoldable pub deregister : Registry → Key → Registry × Option ℕ
deregister r key = (
  record r { entries = BTreeMap.remove (compose_key key) r.entries },
  BTreeMap.get (compose_key key) r.entries,
)

unfoldable pub lookup : Registry → Key → Option ℕ
lookup r key = BTreeMap.get (compose_key key) r.entries

unfoldable pub len : Registry → ℕ
len r = length r.entries

unfoldable pub registry_is_empty : Registry → Bool
registry_is_empty r = is_empty r.entries

-- The loop of `filter_map` in `snapshot`.
unfoldable pub snapshot_entries : BTreeMap ℕ → List (Key × ℕ)
snapshot_entries [] = []
snapshot_entries ((k, port) ∷ m) = elim (split_key k) [
  | none ↦ snapshot_entries m
  | some key ↦ (key, port) ∷ snapshot_entries m
]

unfoldable pub snapshot : Registry → List (Key × ℕ)
snapshot r = snapshot_entries r.entries
