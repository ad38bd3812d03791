-- ===== src/Tunnel/Writing/Patience.antt =====
-- A writer that always finds room again takes the whole buffer.
use ephemwork.Prelude.{
  ℕ, zero, suc, ◌+◌, ◌≡◌, ◌≤◌, ◌<◌, ◌⊎◌, refl, ap, sym, ◌∙◌, Bool-cases, inl, inr, some, [], ◌∷◌,
  ◌++◌, ok, take, drop, ltb, arith, append-nil,
}
use ephemwork.Protocol.{Bytes}
use ephemwork.Tunnel.Writing.{
  Attempt, room, blocked, Writer, Written, put, max_spins, write_round, write_loop,
  write_all_nonblocking,
}
use ephemwork.Tunnel.Writing.Delivery.{write_all-delivers}

-- From call k on there is room after at most n waits, and no other error before.
abbrev pub HasRoom : (ℕ → Attempt) → ℕ → ℕ → Type 0
HasRoom attempts k n =
    (j m : ℕ) × (j ≤ n)
    × (attempts (k + j) ≡ room (suc m))
    × ((i : ℕ) → i < j → attempts (k + i) ≡ blocked)

-- The allowed number of waits is always enough.
abbrev pub IsPatient : Writer → Type 0
IsPatient w = (k : ℕ) → HasRoom w.attempts k max_spins

HasRoom-here :
    (attempts : ℕ → Attempt) (k n : ℕ)
    → HasRoom attempts k n
    → ((m : ℕ) × (attempts k ≡ room (suc m)))
      ⊎ ((attempts k ≡ blocked) × (r : ℕ) × (n ≡ suc r) × HasRoom attempts (suc k) r)
HasRoom-here attempts k n (zero, m, h, r, waits) = inl (m, ap attempts (omega arith) ∙ r)
HasRoom-here attempts k zero (suc j, m, h, r, waits) = absurd (omega (arith, h))
HasRoom-here attempts k (suc n) (suc j, m, h, r, waits) = inr (
  ap attempts (omega arith) ∙ waits 0 (omega arith),
  n,
  refl,
  (
    j,
    m,
    omega (arith, h),
    ap attempts (omega arith) ∙ r,
    λ i less. ap attempts (omega arith) ∙ waits (suc i) (omega (arith, less)),
  ),
)

write_round-blocked :
    (fuel spins : ℕ) (buf : Bytes) (w : Writer)
    → suc spins ≤ max_spins
    → write_round (write_loop fuel) spins buf w blocked ≡ write_loop fuel (suc spins) buf (put [] w)
unfolding write_round
write_round-blocked fuel spins buf w h = elim (Bool-cases (ltb max_spins (suc spins))) [
  | inl late ↦ absurd (ground (arith, late, h))
  | inr early ↦ rw early refl
]

write_loop-patient :
    (fuel spins n : ℕ) (buf : Bytes) (w : Writer) (out : Written)
    → IsPatient w
    → spins + n ≡ max_spins
    → HasRoom w.attempts w.writes n
    → write_loop fuel spins buf w ≡ some out
    → out.1 ≡ ok tt
unfolding write_loop write_round
write_loop-patient zero spins n buf w out patient within there e = absurd (cc)
write_loop-patient (suc fuel) spins n [] w out patient within there e = ground arith
write_loop-patient (suc fuel) spins n (b ∷ bytes) w out patient within there e =
    let rest = write_loop fuel in
    elim (HasRoom-here w.attempts w.writes n there) [
      | inl (m, r) ↦
          write_loop-patient fuel 0 max_spins (drop m bytes) (put (b ∷ take m bytes) w) out patient
            (omega arith) (patient (suc w.writes))
            (ap (λ a. write_round rest spins (b ∷ bytes) w a) (sym r) ∙ e)
      | inr (r, left, f, later) ↦
          write_loop-patient fuel (suc spins) left (b ∷ bytes) (put [] w) out patient
            (omega (arith, within, f)) later
            (sym (write_round-blocked fuel spins (b ∷ bytes) w (omega (arith, within, f)))
              ∙ ap (λ a. write_round rest spins (b ∷ bytes) w a) (sym r)
              ∙ e)
    ]

-- Where every wait for room is at most 1000 calls long and no call fails, write_all_nonblocking
-- writes the whole buffer, with success.
pub write_all-patient :
    (buf : Bytes) (w : Writer)
    → IsPatient w
    → (out : Written) × (write_all_nonblocking buf w ≡ some out)
      × (out.1 ≡ ok tt)
      × (out.0.written ≡ w.written ++ buf)
unfolding write_all_nonblocking
write_all-patient buf w patient =
    let (out, e, d) = write_all-delivers buf w in
    let done =
      write_loop-patient _ 0 max_spins buf w out patient (omega arith) (patient w.writes) e in
    (
      out,
      e,
      done,
      d.written
          ∙ ap (λ t. w.written ++ t)
              (sym (append-nil d.sent) ∙ ap (λ t. d.sent ++ t) (sym (d.all_sent done)) ∙ d.splits),
    )
