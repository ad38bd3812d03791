-- ===== src/Tunnel/Bridge/Directions.antt =====
-- What one direction of the bridge copies.
use ephemwork.Prelude.{
  ℕ, zero, suc, ◌+◌, ◌≡◌, refl, ap, sym, ◌∙◌, Bool, true, false, Option, none, some, [], ◌∷◌, ◌++◌,
  ok, err, length, length-append, arith, append-nil, append_assoc,
}
use ephemwork.Protocol.{Bytes}
use ephemwork.Tunnel.Writing.{Writer, WriteError, Written}
use ephemwork.Tunnel.Writing.Delivery.{IsDelivered, write_all-delivers}
use ephemwork.Tunnel.Bridge.{
  Input, arrived, nothing_yet, lost, Endpoint, Direction, after_write, after_read, read_once, pump,
}

abbrev pub bytes_of : Input → Bytes
bytes_of (arrived bytes) = bytes
bytes_of nothing_yet = []
bytes_of (lost e) = []

-- What the first reads gave, one after another.
abbrev pub received : (ℕ → Input) → ℕ → Bytes
received inputs zero = []
received inputs (suc n) = received inputs n ++ bytes_of (inputs n)

-- The end was read.
abbrev pub IsClosed : (ℕ → Input) → Type 0
IsClosed inputs = (k : ℕ) × (inputs k ≡ arrived [])

-- All that was read is written, after what the target had before, and counted.
pub record OneWay (inputs : ℕ → Input) (base : Bytes) (src : Endpoint) (dst : Writer) (copied : ℕ)
    (is_done : Bool) : Type 0 where
  pub kept : src.inputs ≡ inputs
  pub delivered : dst.written ≡ base ++ received inputs src.reads
  pub counted : copied ≡ length (received inputs src.reads)
  pub ended : is_done ≡ true → IsClosed inputs

-- What is written is the beginning of all that was read.
pub record PartWay (inputs : ℕ → Input) (base : Bytes) (src : Endpoint) (dst : Writer)
    : Type 0 where
  pub unsent : Bytes
  pub delivered : dst.written ++ unsent ≡ base ++ received inputs src.reads

module _ (inputs : ℕ → Input) (base : Bytes) where
  pub OneWay-PartWay :
      (src : Endpoint) (dst : Writer) (copied : ℕ) (is_done : Bool)
      → OneWay inputs base src dst copied is_done
      → PartWay inputs base src dst
  OneWay-PartWay src dst copied is_done w = record {
    unsent = [];
    delivered = append-nil dst.written ∙ w.delivered;
  }

  -- The source's own writing half does not matter.
  pub OneWay-with :
      (src : Endpoint) (w dst target : Writer) (copied : ℕ) (is_done : Bool)
      → target ≡ dst
      → OneWay inputs base src dst copied is_done
      → OneWay inputs base (record src { writer = w }) target copied is_done
  OneWay-with src w dst target copied is_done e h = record {
    kept = h.kept;
    delivered = ap (λ x. x.written) e ∙ h.delivered;
    counted = h.counted;
    ended = h.ended;
  }

  pub PartWay-with :
      (src : Endpoint) (w dst target : Writer)
      → target ≡ dst
      → PartWay inputs base src dst
      → PartWay inputs base (record src { writer = w }) target
  PartWay-with src w dst target e h = record {
    unsent = h.unsent;
    delivered = ap (λ x. x.written ++ h.unsent) e ∙ h.delivered;
  }

  -- What a direction may be left with.
  abbrev pub Moves : Direction → Type 0
  Moves d =
      (d.failure ≡ none → OneWay inputs base d.reader d.target d.copied d.is_done)
      × PartWay inputs base d.reader d.target

  received-next :
      (src : Endpoint) (dst : Writer) (copied : ℕ) (i : Input)
      → OneWay inputs base src dst copied false
      → src.inputs src.reads ≡ i
      → received inputs (suc src.reads) ≡ received inputs src.reads ++ bytes_of i
  received-next src dst copied i h e =
      ap (λ x. received inputs src.reads ++ bytes_of x) (ap (λ f. f src.reads) (sym h.kept) ∙ e)

  -- One more read, all of which is written.
  read-OneWay :
      (src : Endpoint) (dst w : Writer) (before now : ℕ) (is_done : Bool) (i : Input)
      → OneWay inputs base src dst before false
      → src.inputs src.reads ≡ i
      → w.written ≡ dst.written ++ bytes_of i
      → now ≡ before + length (bytes_of i)
      → (is_done ≡ true → IsClosed inputs)
      → OneWay inputs base (read_once src) w now is_done
  read-OneWay src dst w before now is_done i h e wrote added ended = record {
    kept = h.kept;
    delivered =
        wrote
        ∙ ap (λ t. t ++ bytes_of i) h.delivered
        ∙ append_assoc base (received inputs src.reads) (bytes_of i)
        ∙ ap (λ t. base ++ t) (sym (received-next src dst before i h e));
    counted =
        added
        ∙ ap (λ n. n + length (bytes_of i)) h.counted
        ∙ sym (length-append (received inputs src.reads) (bytes_of i))
        ∙ ap length (sym (received-next src dst before i h e));
    ended = ended;
  }

  -- One more read that gave nothing.
  empty-OneWay :
      (src : Endpoint) (dst : Writer) (copied : ℕ) (is_done : Bool) (i : Input)
      → OneWay inputs base src dst copied false
      → src.inputs src.reads ≡ i
      → bytes_of i ≡ []
      → (is_done ≡ true → IsClosed inputs)
      → OneWay inputs base (read_once src) dst copied is_done
  empty-OneWay src dst copied is_done i h e nil ended =
      read-OneWay src dst dst copied copied is_done i h e
        (sym (ap (λ t. dst.written ++ t) nil ∙ append-nil dst.written)) (rw nil (omega arith)) ended

  whole-Moves :
      (src : Endpoint) (dst : Writer) (copied : ℕ) (is_done : Bool)
      → OneWay inputs base src dst copied is_done
      → ((◌≡◌ {A = Option WriteError} none none) → OneWay inputs base src dst copied is_done)
        × PartWay inputs base src dst
  whole-Moves src dst copied is_done h = (λ e. h, OneWay-PartWay src dst copied is_done h)

  after_write-Moves :
      (src : Endpoint) (dst : Writer) (copied : ℕ) (bytes : Bytes) (out : Written)
      → OneWay inputs base src dst copied false
      → src.inputs src.reads ≡ arrived bytes
      → IsDelivered bytes dst out
      → Moves (after_write (read_once src) dst copied bytes (some out))
  unfolding after_write
  after_write-Moves src dst copied bytes (w, ok u) h e d =
      whole-Moves (read_once src) w (copied + length bytes) false (
        read-OneWay src dst w copied (copied + length bytes) false (arrived bytes) h e
          (d.written
            ∙ ap (λ t. dst.written ++ t)
                (sym (append-nil d.sent)
                  ∙ ap (λ t. d.sent ++ t) (sym (d.all_sent refl))
                  ∙ d.splits))
          refl (λ x. absurd (cc)))
  after_write-Moves src dst copied bytes (w, err x) h e d = (
    λ no_error. absurd (cc),
    record {
      unsent = d.unsent;
      delivered =
          ap (λ t. t ++ d.unsent) d.written
          ∙ append_assoc dst.written d.sent d.unsent
          ∙ ap (λ t. dst.written ++ t) d.splits
          ∙ ap (λ t. t ++ bytes) h.delivered
          ∙ append_assoc base (received inputs src.reads) bytes
          ∙ ap (λ t. base ++ t) (sym (received-next src dst copied (arrived bytes) h e));
    },
  )

  after_read-Moves :
      (src : Endpoint) (dst : Writer) (copied : ℕ) (i : Input)
      → OneWay inputs base src dst copied false
      → src.inputs src.reads ≡ i
      → Moves (after_read (read_once src) dst copied i)
  unfolding after_read
  after_read-Moves src dst copied (arrived []) h e = whole-Moves (read_once src) dst copied true (
      empty-OneWay src dst copied true (arrived []) h e refl
        (λ x. (src.reads, ap (λ f. f src.reads) (sym h.kept) ∙ e)))
  after_read-Moves src dst copied (arrived (b ∷ bytes)) h e =
      let (out, f, d) = write_all-delivers (b ∷ bytes) dst in
      rw f (after_write-Moves src dst copied (b ∷ bytes) out h e d)
  after_read-Moves src dst copied nothing_yet h e =
      whole-Moves (read_once src) dst copied false
        (empty-OneWay src dst copied false nothing_yet h e refl (λ x. absurd (cc)))
  after_read-Moves src dst copied (lost x) h e = (
    λ no_error. absurd (cc),
    OneWay-PartWay (read_once src) dst copied false
        (empty-OneWay src dst copied false (lost x) h e refl (λ y. absurd (cc))),
  )

  pub pump-Moves :
      (is_done : Bool) (src : Endpoint) (dst : Writer) (copied : ℕ)
      → OneWay inputs base src dst copied is_done
      → Moves (pump is_done src dst copied)
  unfolding pump
  pump-Moves true src dst copied h = (λ e. h, OneWay-PartWay src dst copied true h)
  pump-Moves false src dst copied h = after_read-Moves src dst copied (src.inputs src.reads) h refl

after_write-keeps :
    (src : Endpoint) (dst : Writer) (copied : ℕ) (bytes : Bytes) (out : Written)
    → (after_write src dst copied bytes (some out)).reader ≡ src
unfolding after_write
after_write-keeps src dst copied bytes (w, ok u) = refl
after_write-keeps src dst copied bytes (w, err e) = refl

after_read-keeps :
    (src : Endpoint) (dst : Writer) (copied : ℕ) (i : Input)
    → (after_read src dst copied i).reader ≡ src
unfolding after_read
after_read-keeps src dst copied (arrived []) = refl
after_read-keeps src dst copied (arrived (b ∷ bytes)) =
    let (out, e, d) = write_all-delivers (b ∷ bytes) dst in
    rw e (after_write-keeps src dst copied (b ∷ bytes) out)
after_read-keeps src dst copied nothing_yet = refl
after_read-keeps src dst copied (lost e) = refl

pub pump-keeps :
    (is_done : Bool) (src : Endpoint) (dst : Writer) (copied : ℕ)
    → (pump is_done src dst copied).reader.writer ≡ src.writer
unfolding pump
pump-keeps true src dst copied = refl
pump-keeps false src dst copied =
    ap (λ e. e.writer) (after_read-keeps (read_once src) dst copied (src.inputs src.reads))
