-- ===== src/Tests/FlatCodec.antt =====
-- A format of the registry that round-trips: the range, then each entry as its port and its key.
use ephemwork.Prelude.{
  ℕ, zero, suc, ◌≡◌, refl, sym, ap, ◌∙◌, ◌≢◌, Option, none, some, [], ◌∷◌, arith,
}
use ephemwork.Text.{Text, trim, trim_start, trim_end, is_whitespace}
use ephemwork.BTreeMap.{BTreeMap}
use ephemwork.Storage.{Codec, RoundTrips}
use ephemwork.Registry.{Registry}

-- 1 stands before each character of a key, and 0 before a port.
unfoldable pub key_onto : Text → Text → Text
key_onto [] rest = rest
key_onto (c ∷ k) rest = 1 ∷ c ∷ key_onto k rest

unfoldable pub flat : BTreeMap ℕ → Text
unfolding key_onto
flat [] = []
flat ((k, p) ∷ m) = 0 ∷ p ∷ key_onto k (flat m)

unfoldable pub sharp : Text → Text × BTreeMap ℕ
sharp [] = ([], [])
sharp (tag ∷ []) = ([], [])
sharp (zero ∷ p ∷ s) = let rest : Text × BTreeMap ℕ = sharp s in ([], (rest.0, p) ∷ rest.1)
sharp (suc tag ∷ c ∷ s) = let rest : Text × BTreeMap ℕ = sharp s in (c ∷ rest.0, rest.1)

unfoldable pub encode : Registry → Option Text
encode r = some (b'{' ∷ r.range.start ∷ r.range.end ∷ flat r.entries)

unfoldable pub decode : Text → Option Registry
decode (brace ∷ start ∷ end ∷ s) =
    some (record { range = record { start = start; end = end }; entries = (sharp s).1 })
decode _ = none

abbrev pub flat_codec : Codec Registry
flat_codec = record { encode = encode; decode = decode }

sharp-key_onto : (k s : Text) → (sharp (key_onto k s)).1 ≡ (sharp s).1
unfolding sharp key_onto
sharp-key_onto [] s = refl
sharp-key_onto (c ∷ k) s = sharp-key_onto k s

first-key_onto : (k : Text) (m : BTreeMap ℕ) → (sharp (key_onto k (flat m))).0 ≡ k
unfolding sharp key_onto flat
first-key_onto [] [] = refl
first-key_onto [] ((j, p) ∷ m) = refl
first-key_onto (c ∷ k) m = ground (arith, first-key_onto k m)

sharp-flat : (m : BTreeMap ℕ) → (sharp (flat m)).1 ≡ m
unfolding sharp flat
sharp-flat [] = refl
sharp-flat ((k, p) ∷ m) =
    rw (first-key_onto k m) (rw (sharp-key_onto k (flat m)) (rw (sharp-flat m) refl))

trim-brace : (s : Text) → trim (b'{' ∷ s) ≢ []
unfolding trim trim_start trim_end is_whitespace
trim-brace s = ground arith

pub flat_codec-RoundTrips : RoundTrips flat_codec
unfolding encode decode
flat_codec-RoundTrips r t h =
    let e : b'{' ∷ r.range.start ∷ r.range.end ∷ flat r.entries ≡ t = cc in
    (
      rw (sym e) (rw (sharp-flat r.entries) refl),
      λ x. trim-brace (r.range.start ∷ r.range.end ∷ flat r.entries) (ap trim e ∙ x),
    )
