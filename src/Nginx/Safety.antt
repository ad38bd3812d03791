-- ===== src/Nginx/Safety.antt =====
-- Which snapshots are rendered, and what one unsafe session does to the others.
use ephemwork.Prelude.{
  ℕ, ◌≡◌, refl, ◌∙◌, ◌↔◌, inl, inr, Bool, true, false, some, List, [], ◌∷◌, ◌++◌, ◌&&◌, ok, err,
  arith, all, contains, Result-cases,
}
use ephemwork.Text.{Text}
use ephemwork.Storage.{Weather}
use ephemwork.Registry.{Key, Registry, lookup, snapshot}
use ephemwork.Registry.Keys.{NoSlash}
use ephemwork.Registry.Snapshot.{shown_port, shown_port-snapshot, same_key_iff}
use ephemwork.Nginx.{
  safe_byte, is_safe_identifier, check_entries, config_head, config_tail, entry_lines,
  render_config, NginxReloader, Exit, Host, on_change, NginxError,
}

-- Both parts of the key can stand in the file as they are.
unfoldable pub is_safe_key : Key → Bool
is_safe_key key = is_safe_identifier key.user && is_safe_identifier key.service

pub check_entries_iff :
    (s : List (Key × ℕ)) → (check_entries s ≡ ok tt) ↔ (all (λ e. is_safe_key e.0) s ≡ true)
unfolding check_entries is_safe_key
check_entries_iff [] = ground arith
check_entries_iff ((key, port) ∷ s) = ground (arith, check_entries_iff s)

shown_unsafe :
    (k : Key) (p : ℕ) (s : List (Key × ℕ))
    → is_safe_key k ≡ false
    → shown_port k s ≡ some p
    → all (λ e. is_safe_key e.0) s ≡ false
unfolding shown_port
shown_unsafe k p [] h e = absurd (cc)
shown_unsafe k p ((j, q) ∷ s) h e = ground (arith, shown_unsafe k p s h, same_key_iff j k)

render_config_refused :
    (s : List (Key × ℕ))
    → all (λ e. is_safe_key e.0) s ≡ false
    → (e : NginxError) × (render_config s ≡ err e)
unfolding render_config
render_config_refused s h = elim (Result-cases (check_entries s)) [
  | inl (u, fine) ↦ absurd (ground (arith, check_entries_iff s))
  | inr (e, refused) ↦ (e, rw (refused, render_config))
]

pub render_config_safe :
    (s : List (Key × ℕ))
    → all (λ e. is_safe_key e.0) s ≡ true
    → (text : Text) × (render_config s ≡ ok text)
unfolding render_config
render_config_safe s h =
    (config_head ++ (entry_lines s ++ config_tail), rw ((check_entries_iff s).1 h, render_config))

-- Where a session with an unsafe user or service, and without a slash in its user, is registered,
-- a change leaves the configuration file and the live configuration as they are.
pub on_change_blocked :
    (w : Weather) (exit : Exit) (n : NginxReloader) (r : Registry) (h : Host) (k : Key) (p : ℕ)
    → NoSlash k.user
    → is_safe_key k ≡ false
    → lookup r k ≡ some p
    → on_change w exit n r h ≡ h
unfolding on_change
on_change_blocked w exit n r h k p plain bad found =
    let (e, refused) =
      render_config_refused (snapshot r)
        (shown_unsafe k p (snapshot r) bad (shown_port-snapshot r k plain ∙ found)) in
    rw (refused, on_change)

contains-all_safe :
    (s : Text) (c : ℕ) → safe_byte c ≡ false → all safe_byte s ≡ true → contains s c ≡ false
contains-all_safe [] c h k = refl
contains-all_safe (b ∷ s) c h k = ground (arith, contains-all_safe s c h)

-- A safe identifier holds no character from outside its alphabet.
pub contains-is_safe_identifier :
    (s : Text) (c : ℕ) → safe_byte c ≡ false → is_safe_identifier s ≡ true → contains s c ≡ false
unfolding is_safe_identifier
contains-is_safe_identifier s c h e = contains-all_safe s c h (ground arith)

pub NoSlash-of_is_safe_key : (k : Key) → is_safe_key k ≡ true → NoSlash k.user
unfolding is_safe_key safe_byte
NoSlash-of_is_safe_key k h = contains-is_safe_identifier k.user b'/' refl (ground arith)
