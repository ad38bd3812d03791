-- ===== src/Tunnel/Writing/Delivery.antt =====
-- What `write_all_nonblocking` delivers, and that it ends.
use ephemwork.Prelude.{
  ℕ, zero, suc, ◌-◌, ◌*◌, ◌≡◌, ◌≤◌, ◌<◌, refl, ap, sym, ◌∙◌, some, List, [], ◌∷◌, ◌++◌, ok, err,
  length, take, drop, ltb, arith, length-drop, Bool-cases, inl, inr, append-nil, append_assoc,
}
use ephemwork.Protocol.{Bytes}
use ephemwork.Tunnel.Writing.{
  Attempt, room, blocked, broken, Writer, WriteError, write_zero, timed_out, io, Written, put,
  max_spins, write_round, write_loop, write_fuel, write_all_nonblocking,
}

-- The bytes are written up to some point, which with success is the end.
pub record IsDelivered (buf : Bytes) (w : Writer) (out : Written) : Type 0 where
  pub sent : Bytes
  pub unsent : Bytes
  pub splits : sent ++ unsent ≡ buf
  pub written : out.0.written ≡ w.written ++ sent
  pub kept : out.0.attempts ≡ w.attempts
  pub all_sent : out.1 ≡ ok tt → unsent ≡ []

-- How many more rounds there are at most.
abbrev pub rounds : ℕ → Bytes → ℕ
rounds spins buf = 1001 * length buf - spins

take-drop {ℓ} : {A : Type ℓ} (n : ℕ) (xs : List A) → take n xs ++ drop n xs ≡ xs
take-drop zero xs = refl
take-drop (suc n) [] = refl
take-drop (suc n) (x ∷ xs) = ap (λ t. x ∷ t) (take-drop n xs)

nothing-IsDelivered :
    (buf : Bytes) (w : Writer) (e : WriteError) → IsDelivered buf w (put [] w, err e)
nothing-IsDelivered buf w e = record {
  sent = [];
  unsent = buf;
  splits = refl;
  written = refl;
  kept = refl;
  all_sent = λ h. absurd (cc);
}

more-IsDelivered :
    (n : ℕ) (buf : Bytes) (w : Writer) (out : Written)
    → IsDelivered (drop n buf) (put (take n buf) w) out
    → IsDelivered buf w out
more-IsDelivered n buf w out d = record {
  sent = take n buf ++ d.sent;
  unsent = d.unsent;
  splits =
      append_assoc (take n buf) d.sent d.unsent
      ∙ ap (λ t. take n buf ++ t) d.splits
      ∙ take-drop n buf;
  written = d.written ∙ append_assoc w.written (take n buf) d.sent;
  kept = d.kept;
  all_sent = d.all_sent;
}

-- From here the loop ends within the fuel, and delivers.
abbrev Ends : ℕ → ℕ → Bytes → Writer → Type 0
Ends fuel spins buf w =
    (out : Written) × (write_loop fuel spins buf w ≡ some out) × IsDelivered buf w out

write_round-Ends :
    (fuel spins b : ℕ) (bytes : Bytes) (w : Writer) (a : Attempt)
    → rounds spins (b ∷ bytes) ≤ fuel
    → spins ≤ max_spins
    → ((spins : ℕ) (buf : Bytes) (w : Writer)
        → rounds spins buf < fuel
        → spins ≤ max_spins
        → Ends fuel spins buf w)
    → (out : Written) × (write_round (write_loop fuel) spins (b ∷ bytes) w a ≡ some out)
      × IsDelivered (b ∷ bytes) w out
unfolding write_round
write_round-Ends fuel spins b bytes w (room zero) h k ends =
    (_, refl, nothing-IsDelivered (b ∷ bytes) w write_zero)
write_round-Ends fuel spins b bytes w (room (suc n)) h k ends =
    let (out, e, d) =
      ends 0 (drop n bytes) (put (b ∷ take n bytes) w) (omega (arith, h, k, length-drop n bytes))
        (omega arith) in
    (out, e, more-IsDelivered (suc n) (b ∷ bytes) w out d)
write_round-Ends fuel spins b bytes w blocked h k ends =
    elim (Bool-cases (ltb max_spins (suc spins))) [
      | inl e ↦ (_, rw e refl, nothing-IsDelivered (b ∷ bytes) w timed_out)
      | inr e ↦
          let early : suc spins ≤ max_spins = ground (arith, e) in
          let (out, f, d) =
            ends (suc spins) (b ∷ bytes) (put [] w) (omega (arith, h, k, early))
              (omega (arith, early)) in
          (out, rw e f, more-IsDelivered 0 (b ∷ bytes) w out d)
    ]
write_round-Ends fuel spins b bytes w (broken e) h k ends =
    (_, refl, nothing-IsDelivered (b ∷ bytes) w (io e))

write_loop-Ends :
    (fuel spins : ℕ) (buf : Bytes) (w : Writer)
    → rounds spins buf < fuel
    → spins ≤ max_spins
    → Ends fuel spins buf w
unfolding write_loop
write_loop-Ends zero spins buf w h k = absurd (omega (arith, h))
write_loop-Ends (suc fuel) spins [] w h k = (
  (w, ok tt),
  refl,
  record {
    sent = [];
    unsent = [];
    splits = refl;
    written = sym (append-nil w.written);
    kept = refl;
    all_sent = λ e. refl;
  },
)
write_loop-Ends (suc fuel) spins (b ∷ bytes) w h k =
    write_round-Ends fuel spins b bytes w (w.attempts w.writes) (omega (arith, h)) k
      (write_loop-Ends fuel)

-- Whatever each call of write does, write_all_nonblocking ends; what it wrote is the beginning of
-- the buffer, in order and once, and with success the whole of it.
pub write_all-delivers :
    (buf : Bytes) (w : Writer)
    → (out : Written) × (write_all_nonblocking buf w ≡ some out) × IsDelivered buf w out
unfolding write_all_nonblocking
write_all-delivers buf w = write_loop-Ends (write_fuel buf) 0 buf w (omega arith) (omega arith)
