-- ===== src/BTreeMap/Sorted.antt =====
-- The keys of a map ascend strictly, so that no key stands twice; what a change does to the size
-- and to the values.
use ephemwork.Prelude.{
  ℕ, suc, ◌≡◌, refl, true, false, ◌||◌, none, some, List, [], ◌∷◌, arith, length, contains, ◌==◌,
}
use ephemwork.Text.{Text}
use ephemwork.Text.Laws.{same_iff, compare_text-eq_iff, Before, Before-of_gt, Before-trans}
use ephemwork.BTreeMap.{BTreeMap, get, insert, remove, values}

module _ {ℓ} {V : Type ℓ} where
  -- Every key comes after k.
  abbrev pub Above : Text → BTreeMap V → Type ℓ
  Above k [] = Unit
  Above k ((j, v) ∷ m) = Before k j × Above k m

  abbrev pub IsSorted : BTreeMap V → Type ℓ
  IsSorted [] = Unit
  IsSorted ((k, v) ∷ m) = Above k m × IsSorted m

module _ {ℓ} {V : Type ℓ} where
  Above-trans : (i j : Text) (m : BTreeMap V) → Before i j → Above j m → Above i m
  Above-trans i j [] h a = tt
  Above-trans i j ((k, v) ∷ m) h (b, a) = (Before-trans i j k h b, Above-trans i j m h a)

  Above-insert :
      (j k : Text) (v : V) (m : BTreeMap V) → Before j k → Above j m → Above j (insert k v m)
  unfolding insert
  Above-insert j k v [] h a = (h, tt)
  Above-insert j k v ((i, w) ∷ m) h (b, a) = ground (arith, Above-insert j k v m h a)

  Above-remove : (j k : Text) (m : BTreeMap V) → Above j m → Above j (remove k m)
  unfolding remove
  Above-remove j k [] a = tt
  Above-remove j k ((i, w) ∷ m) (b, a) = ground (arith, Above-remove j k m a)

  pub insert-IsSorted : (k : Text) (v : V) (m : BTreeMap V) → IsSorted m → IsSorted (insert k v m)
  unfolding insert
  insert-IsSorted k v [] s = (tt, tt)
  insert-IsSorted k v ((j, w) ∷ m) (a, s) = ground (
    arith,
    Above-trans k j m,
    Before-of_gt k j,
    Above-insert j k v m,
    insert-IsSorted k v m s,
    compare_text-eq_iff k j,
  )

  pub remove-IsSorted : (k : Text) (m : BTreeMap V) → IsSorted m → IsSorted (remove k m)
  unfolding remove
  remove-IsSorted k [] s = tt
  remove-IsSorted k ((j, w) ∷ m) (a, s) =
      ground (arith, Above-remove j k m a, remove-IsSorted k m s)

  -- A new key adds one entry.
  pub length-insert_new :
      (k : Text) (v : V) (m : BTreeMap V) → get k m ≡ none → length (insert k v m) ≡ suc (length m)
  unfolding get insert
  length-insert_new k v [] h = refl
  length-insert_new k v ((j, w) ∷ m) h =
      ground (arith, length-insert_new k v m, compare_text-eq_iff k j, same_iff j k)

  Above-get : (k j : Text) (m : BTreeMap V) → Above k m → get k m ≡ none
  unfolding get
  Above-get k j [] a = refl
  Above-get k j ((i, w) ∷ m) (b, a) =
      ground (arith, Above-get k j m a, compare_text-eq_iff k i, same_iff i k)

  pub remove_absent : (k : Text) (m : BTreeMap V) → get k m ≡ none → remove k m ≡ m
  unfolding get remove
  remove_absent k [] h = refl
  remove_absent k ((i, w) ∷ m) h = ground (arith, remove_absent k m)

  -- The removal of a key that is present takes one entry away.
  pub length-remove :
      (k : Text) (v : V) (m : BTreeMap V)
      → IsSorted m
      → get k m ≡ some v
      → suc (length (remove k m)) ≡ length m
  unfolding get remove
  length-remove k v [] s h = ground arith
  length-remove k v ((i, w) ∷ m) (a, s) h =
      ground (arith, length-remove k v m s, remove_absent k m, Above-get i i m a, same_iff i k)

-- Maps to numbers.
abbrev pub Ports : Type 0
Ports = BTreeMap ℕ

-- No number stands twice.
abbrev pub Distinct : List ℕ → Type 0
Distinct [] = Unit
Distinct (x ∷ xs) = (contains xs x ≡ false) × Distinct xs

pub contains-insert :
    (k : Text) (v n : ℕ) (m : Ports)
    → get k m ≡ none
    → contains (values (insert k v m)) n ≡ (v == n || contains (values m) n)
unfolding get insert values
contains-insert k v n [] h = refl
contains-insert k v n ((j, w) ∷ m) h =
    ground (arith, contains-insert k v n m, compare_text-eq_iff k j, same_iff j k)

pub contains-remove :
    (k : Text) (n : ℕ) (m : Ports)
    → contains (values m) n ≡ false
    → contains (values (remove k m)) n ≡ false
unfolding remove values
contains-remove k n [] h = refl
contains-remove k n ((j, w) ∷ m) h = ground (arith, contains-remove k n m)

pub contains-get : (k : Text) (v : ℕ) (m : Ports) → get k m ≡ some v → contains (values m) v ≡ true
unfolding get values
contains-get k v [] h = ground arith
contains-get k v ((j, w) ∷ m) h = ground (arith, contains-get k v m)

pub insert-Distinct :
    (k : Text) (v : ℕ) (m : Ports)
    → get k m ≡ none
    → contains (values m) v ≡ false
    → Distinct (values m)
    → Distinct (values (insert k v m))
unfolding get insert values
insert-Distinct k v [] h c d = (refl, tt)
insert-Distinct k v ((j, w) ∷ m) h c d =
    ground
      (arith, insert-Distinct k v m, contains-insert k v w m, compare_text-eq_iff k j, same_iff j k)

pub remove-Distinct : (k : Text) (m : Ports) → Distinct (values m) → Distinct (values (remove k m))
unfolding remove values
remove-Distinct k [] d = tt
remove-Distinct k ((j, w) ∷ m) d = ground (arith, remove-Distinct k m, contains-remove k w m)

-- Where no number stands twice, a number tells its key.
pub get_injective :
    (k j : Text) (v : ℕ) (m : Ports)
    → Distinct (values m)
    → get k m ≡ some v
    → get j m ≡ some v
    → k ≡ j
unfolding get values
get_injective k j v [] d h e = ground arith
get_injective k j v ((i, w) ∷ m) d h e = ground (
  arith,
  get_injective k j v m,
  contains-get k v m,
  contains-get j v m,
  same_iff i k,
  same_iff i j,
)
