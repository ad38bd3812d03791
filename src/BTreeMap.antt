-- ===== src/BTreeMap.antt =====
-- What the program uses of `BTreeMap<String, V>`: the entries in the order of their keys.
pub mod Laws
pub mod Sorted
use ephemwork.Prelude.{ℕ, Option, none, some, List, [], ◌∷◌, Ordering, map, if◌then◌else◌}
use ephemwork.Text.{Text, same, compare_text}

abbrev pub BTreeMap {ℓ} : Type ℓ → Type ℓ
BTreeMap V = List (Text × V)

module _ {ℓ} {V : Type ℓ} where
  unfoldable pub get : Text → BTreeMap V → Option V
  get k [] = none
  get k ((j, v) ∷ m) = if same j k then some v else get k m

  -- The old value is overwritten where the key is present.
  unfoldable pub insert : Text → V → BTreeMap V → BTreeMap V
  insert k v [] = (k, v) ∷ []
  insert k v ((j, w) ∷ m) = elim (compare_text k j) [
    | Ordering.lt ↦ (k, v) ∷ (j, w) ∷ m
    | Ordering.eq ↦ (k, v) ∷ m
    | Ordering.gt ↦ (j, w) ∷ insert k v m
  ]

  unfoldable pub remove : Text → BTreeMap V → BTreeMap V
  remove k [] = []
  remove k ((j, v) ∷ m) = let rest = remove k m in if same j k then rest else (j, v) ∷ rest

  unfoldable pub values : BTreeMap V → List V
  values m = map (λ e. e.1) m
