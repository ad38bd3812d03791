-- ===== src/Nginx/Routing.antt =====
-- The map block as it is read.
pub mod Matching
use mathlib.Core.Option
use ephemwork.Prelude.{
  ℕ, zero, suc, ◌≡◌, refl, ◌∙◌, ap, true, false, Option, none, some, List, [], ◌∷◌, ◌++◌, arith, ok,
  map, length, length-append, append_assoc, contains-append, contains, all, ◌≤◌, ◌<◌,
}
use ephemwork.Text.{Text, codes}
use ephemwork.Text.Laws.{same_iff}
use ephemwork.Text.Decimal.{decimal}
use ephemwork.Text.Decimal.Laws.{contains-decimal}
use ephemwork.Text.Splitting.{split_once, strip_prefix}
use ephemwork.Text.Splitting.Laws.{split_once-append, strip_prefix-append}
use ephemwork.BTreeMap.{get}
use ephemwork.Registry.{Key}
use ephemwork.Registry.Snapshot.{shown_port, same_key_iff}
use ephemwork.Nginx.{
  header_key, target, entry_line, entry_lines, config_head, config_tail, render_config,
  check_entries, safe_byte,
}
use ephemwork.Nginx.Safety.{is_safe_key, check_entries_iff, contains-is_safe_identifier}

infixl 5 ◌>>=◌
abbrev ◌>>=◌ {ℓ κ} : {A : Type ℓ} {B : Type κ} → Option A → (A → Option B) → Option B
none >>= k = none
some a >>= k = k a

-- One line of the map block, four spaces and two quoted texts, and what follows it.
pub read_line : Text → Option ((Text × Text) × Text)
read_line s = do
  (key, more) ← (strip_prefix (codes "    \"") s >>= split_once b'"')
  (value, rest) ← (strip_prefix (codes " \"") more >>= split_once b'"')
  left ← strip_prefix (codes ";\n") rest
  some ((key, value), left)

-- The lines from the start of a text on, as many as the fuel at most.
pub read_lines : ℕ → Text → List (Text × Text)
read_lines zero s = []
read_lines (suc f) s = elim (read_line s) [
  | none ↦ []
  | some (entry, left) ↦ entry ∷ read_lines f left
]

-- The pairs of the map block of a configuration.
unfoldable pub read_config : Text → List (Text × Text)
read_config s = elim (strip_prefix config_head s) [
  | none ↦ []
  | some block ↦ read_lines (length block) block
]

-- Any text may stand in a key or a value but a quote.
read_line-quoted :
    (key value left : Text)
    → contains key b'"' ≡ false
    → contains value b'"' ≡ false
    → read_line
        (codes "    \"" ++ (key ++ b'"' ∷ (codes " \"" ++ (value ++ b'"' ∷ (codes ";\n" ++ left)))))
      ≡ some ((key, value), left)
unfolding read_line
read_line-quoted key value left h k =
    let after = value ++ b'"' ∷ (codes ";\n" ++ left) in
    let first = strip_prefix-append (codes "    \"") (key ++ b'"' ∷ (codes " \"" ++ after)) in
    let second = split_once-append b'"' key (codes " \"" ++ after) h in
    let third = strip_prefix-append (codes " \"") after in
    let fourth = split_once-append b'"' value (codes ";\n" ++ left) k in
    let fifth = strip_prefix-append (codes ";\n") left in rw (first, second, third, fourth, fifth)

safe_header : (k : Key) → is_safe_key k ≡ true → contains (header_key k) b'"' ≡ false
unfolding header_key is_safe_key safe_byte
safe_header k h = ground (
  arith,
  contains-append k.user (b':' ∷ k.service) b'"',
  contains-is_safe_identifier k.user b'"' refl,
  contains-is_safe_identifier k.service b'"' refl,
)

contains-target : (p : ℕ) → contains (target p) b'"' ≡ false
unfolding target
contains-target p = contains-decimal p b'"' refl

entry_line-append :
    (k : Key) (p : ℕ) (left : Text)
    → entry_line k p ++ left
      ≡ codes "    \""
        ++ (header_key k ++ b'"' ∷ (codes " \"" ++ (target p ++ b'"' ∷ (codes ";\n" ++ left))))
unfolding entry_line
entry_line-append k p left = simp append_assoc

read_line-entry_line :
    (k : Key) (p : ℕ) (left : Text)
    → is_safe_key k ≡ true
    → read_line (entry_line k p ++ left) ≡ some ((header_key k, target p), left)
read_line-entry_line k p left h =
    ap read_line (entry_line-append k p left)
    ∙ read_line-quoted (header_key k) (target p) left (safe_header k h) (contains-target p)

read_line-tail : read_line config_tail ≡ none
unfolding read_line config_tail strip_prefix
read_line-tail = refl

-- A session as it shall stand in the map block.
abbrev pub routing_value : Key → Text
routing_value k = k.user ++ b':' ∷ k.service

abbrev pub local_target : ℕ → Text
local_target p = codes "127.0.0.1:" ++ decimal p

abbrev pub pairs : List (Key × ℕ) → List (Text × Text)
pairs s = map (λ e. (routing_value e.0, local_target e.1)) s

read_lines-entry_lines :
    (s : List (Key × ℕ)) (f : ℕ)
    → all (λ e. is_safe_key e.0) s ≡ true
    → length s < f
    → read_lines f (entry_lines s ++ config_tail) ≡ pairs s
unfolding read_lines entry_lines header_key target
read_lines-entry_lines s zero h k = absurd (omega arith)
read_lines-entry_lines [] (suc f) h k = rw (read_line-tail, read_lines)
read_lines-entry_lines ((key, p) ∷ s) (suc f) h k =
    let e : entry_line key p ++ entry_lines s ++ config_tail
        ≡ entry_line key p ++ (entry_lines s ++ config_tail) =
      append_assoc (entry_line key p) (entry_lines s) config_tail in
    let line = read_line-entry_line key p (entry_lines s ++ config_tail) (ground arith) in
    rw (e, line, read_lines)
      (ap (λ t. (header_key key, target p) ∷ t)
        (read_lines-entry_lines s f (ground arith) (omega arith)))

entry_lines-fuel : (s : List (Key × ℕ)) → length s ≤ length (entry_lines s)
unfolding entry_lines entry_line
entry_lines-fuel [] = omega arith
entry_lines-fuel ((key, p) ∷ s) =
    omega (arith, length-append (entry_line key p) (entry_lines s), entry_lines-fuel s)

tail_positive : 0 < length config_tail
unfolding config_tail
tail_positive = omega arith

-- The pairs of the map block of a configuration that was rendered are the sessions of the snapshot
-- in its order, each as "user:service" with "127.0.0.1:port".
pub read-render :
    (s : List (Key × ℕ)) (text : Text) → render_config s ≡ ok text → read_config text ≡ pairs s
unfolding read_config render_config
read-render s text h =
    let fine : check_entries s ≡ ok tt = ground arith in
    let block = entry_lines s ++ config_tail in
    let e : text ≡ config_head ++ block = ground arith in
    rw (e, strip_prefix-append config_head block, read_config)
      (read_lines-entry_lines s (length block) ((check_entries_iff s).0 fine) (
        omega
          (arith, length-append (entry_lines s) config_tail, entry_lines-fuel s, tail_positive)))
