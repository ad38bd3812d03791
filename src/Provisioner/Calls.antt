-- ===== src/Provisioner/Calls.antt =====
-- Calls of the cloud that may fail and that change its state whether they fail or not:
-- `fn f(&mut self) -> Result<A>` with `?` as the bind of `do`.
use ephemwork.Prelude.{◌≡◌, inl, inr, List, [], ◌∷◌, ◌++◌, Result, ok, err, Result-cases}

abbrev pub Call {ℓ κ μ} : Type ℓ → Type κ → Type μ → Type (ℓ ⊔ κ ⊔ μ)
Call S E A = S → S × Result E A

abbrev pub after {ℓ κ μ ν} :
    {S : Type ℓ} {E : Type κ} {A : Type μ} {B : Type ν}
    → S × Result E A
    → (A → Call S E B)
    → S × Result E B
after (s, ok a) f = f a s
after (s, err e) f = (s, err e)

infixl 5 ◌>>=◌ ◌>>◌
abbrev pub ◌>>=◌ {ℓ κ μ ν} :
    {S : Type ℓ} {E : Type κ} {A : Type μ} {B : Type ν} → Call S E A → (A → Call S E B) → Call S E B
(m >>= f) s = after (m s) f

abbrev pub ◌>>◌ {ℓ κ μ} :
    {S : Type ℓ} {E : Type κ} {B : Type μ} → Call S E (Unit {0}) → Call S E B → Call S E B
(m >> k) s = after (m s) (λ _. k)

abbrev pub done {ℓ κ μ} : {S : Type ℓ} {E : Type κ} {A : Type μ} → Result E A → Call S E A
done r s = (s, r)

unfoldable pub IsPrefix {ℓ} : {O : Type ℓ} → List O → List O → Type ℓ
IsPrefix {O = O} s t = (rest : List O) × (t ≡ s ++ rest)

-- The call that also notes what it is.
abbrev pub noted {ℓ κ μ ν} :
    {O : Type ν} {S : Type ℓ} {E : Type κ} {A : Type μ} → O → Call S E A → Call (S × List O) E A
noted op call (s, ops) = let (t, r) = call s in ((t, ops ++ op ∷ []), r)

-- What holds after a noted call: where it fails, and where the run goes on with what it gave.
pub noted-elim {ℓ κ μ ν ρ o} :
    {O : Type o} {S : Type ℓ} {E : Type κ} {A : Type μ} {B : Type ν}
    (Q : (S × List O) × Result E B → Type ρ) (op : O) (call : Call S E A) (s : S) (ops : List O)
    (f : A → Call (S × List O) E B)
    → ((t : S) (e : E) → Q ((t, ops ++ op ∷ []), err e))
    → ((t : S) (a : A) → Q (f a (t, ops ++ op ∷ [])))
    → Q (after (noted op call (s, ops)) f)
noted-elim Q op call s ops f fails goes = elim (Result-cases (call s).1) [
  | inl (a, e) ↦ rw e (goes (call s).0 a)
  | inr (x, e) ↦ rw e (fails (call s).0 x)
]
