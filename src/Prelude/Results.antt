-- ===== src/Prelude/Results.antt =====
-- `Result<A, E>` of Rust, with `?` as the bind of `do`.
use mathlib.Core.Path.{◌≡◌, refl}
use mathlib.Core.Logic.{◌⊎◌, inl, inr}
use mathlib.Core.Bool.{Bool, true, false}
use mathlib.Core.Option.{Option, none, some}

pub data Result {ℓ κ} (E : Type ℓ) (A : Type κ) : Type (ℓ ⊔ κ) where
  ok : A → Result E A
  err : E → Result E A

-- Each call is one of these, or the other.
pub Result-cases {ℓ κ} :
    {E : Type ℓ} {A : Type κ} (m : Result E A)
    → ((value : A) × (m ≡ ok value)) ⊎ ((cause : E) × (m ≡ err cause))
Result-cases (err cause) = inr (cause, refl)
Result-cases (ok value) = inl (value, refl)

-- `o.ok_or_else(|| e)`
abbrev pub ok_or {ℓ κ} : {E : Type ℓ} {A : Type κ} → Option A → E → Result E A
ok_or none cause = err cause
ok_or (some value) cause = ok value

-- `r.map_err(f)`, `r.with_context(f)`
abbrev pub map_err {ℓ κ μ} :
    {E : Type ℓ} {F : Type κ} {A : Type μ} → (E → F) → Result E A → Result F A
map_err f (err cause) = err (f cause)
map_err f (ok value) = ok value

-- `m?`, and the rest of the block
infixl 5 ◌>>=◌ ◌>>◌
abbrev pub ◌>>=◌ {ℓ κ μ} :
    {E : Type ℓ} {A : Type κ} {B : Type μ} → Result E A → (A → Result E B) → Result E B
err cause >>= rest = err cause
ok value >>= rest = rest value

-- `if !test { return Err(e); }`
abbrev pub guard {ℓ} : {E : Type ℓ} → Bool → E → Result E (Unit {0})
guard false cause = err cause
guard true cause = ok tt

abbrev pub ◌>>◌ {ℓ κ} : {E : Type ℓ} {B : Type κ} → Result E (Unit {0}) → Result E B → Result E B
step >> rest = step >>= λ done. rest
