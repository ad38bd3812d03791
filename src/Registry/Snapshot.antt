-- ===== src/Registry/Snapshot.antt =====
-- The snapshot that the nginx reloader and `GET /snapshot` read.
use ephemwork.Prelude.{
  ℕ, ◌≡◌, refl, ◌↔◌, Bool, true, ◌&&◌, Option, none, some, List, [], ◌∷◌, arith, Option-cases, inl,
  inr, if◌then◌else◌,
}
use ephemwork.Text.{Text, same}
use ephemwork.Text.Laws.{same_iff}
use ephemwork.Text.Splitting.{split_once}
use ephemwork.Text.Splitting.Laws.{split_once_sound}
use ephemwork.BTreeMap.{BTreeMap, get}
use ephemwork.Registry.{Key, Registry, compose_key, split_key, snapshot, snapshot_entries, lookup}
use ephemwork.Registry.Keys.{NoSlash, split-compose}

-- `==` on keys
unfoldable pub same_key : Key → Key → Bool
same_key j k = same j.user k.user && same j.service k.service

-- The port that a snapshot shows for a session.
unfoldable pub shown_port : Key → List (Key × ℕ) → Option ℕ
shown_port k [] = none
shown_port k ((j, p) ∷ s) = if same_key j k then some p else shown_port k s

pub same_key_iff : (j k : Key) → (same_key j k ≡ true) ↔ (j ≡ k)
unfolding same_key
same_key_iff j k = ground (arith, same_iff j.user k.user, same_iff j.service k.service)

compose-split : (t : Text) (k : Key) → split_key t ≡ some k → t ≡ compose_key k
unfolding split_key compose_key
compose-split t k h = elim (Option-cases (split_once b'/' t)) [
  | inl nothing ↦ absurd (ground arith)
  | inr ((user, service), found) ↦ ground (arith, split_once_sound b'/' t user service found)
]

shown_port-snapshot_entries :
    (k : Key) (m : BTreeMap ℕ)
    → NoSlash k.user
    → shown_port k (snapshot_entries m) ≡ get (compose_key k) m
unfolding shown_port snapshot_entries get
shown_port-snapshot_entries k [] h = refl
shown_port-snapshot_entries k ((t, p) ∷ m) h = elim (Option-cases (split_key t)) [
  | inl nothing ↦
      ground
        (arith, shown_port-snapshot_entries k m h, same_iff t (compose_key k), split-compose k h)
  | inr (j, found) ↦ ground (
    arith,
    shown_port-snapshot_entries k m h,
    same_iff t (compose_key k),
    split-compose k h,
    compose-split t j found,
    same_key_iff j k,
  )
]

-- For a user without a slash, the snapshot shows exactly the port that a lookup finds.
pub shown_port-snapshot :
    (r : Registry) (k : Key) → NoSlash k.user → shown_port k (snapshot r) ≡ lookup r k
unfolding snapshot lookup
shown_port-snapshot r k h = shown_port-snapshot_entries k r.entries h
