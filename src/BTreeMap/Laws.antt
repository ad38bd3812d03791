-- ===== src/BTreeMap/Laws.antt =====
-- What a map returns after a change of it.
use ephemwork.Prelude.{◌≡◌, refl, none, some, [], ◌∷◌, arith, if◌then◌else◌}
use ephemwork.Text.{Text, same}
use ephemwork.Text.Laws.{same_iff, compare_text-eq_iff}
use ephemwork.BTreeMap.{BTreeMap, get, insert, remove}

module _ {ℓ} {V : Type ℓ} where
  pub get-insert :
      (k j : Text) (v : V) (m : BTreeMap V)
      → get j (insert k v m) ≡ (if same k j then some v else get j m)
  unfolding get insert
  get-insert k j v [] = refl
  get-insert k j v ((i, w) ∷ m) =
      ground (arith, get-insert k j v m, same_iff k j, same_iff i j, compare_text-eq_iff k i)

  pub get-remove :
      (k j : Text) (m : BTreeMap V) → get j (remove k m) ≡ (if same k j then none else get j m)
  unfolding get remove
  get-remove k j [] = ground arith
  get-remove k j ((i, w) ∷ m) =
      ground (arith, get-remove k j m, same_iff k j, same_iff i j, same_iff i k)
