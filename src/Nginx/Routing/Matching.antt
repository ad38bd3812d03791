-- ===== src/Nginx/Routing/Matching.antt =====
-- Which header value leads to which port. The documentation of nginx's map module: strings are
-- matched without regard to case, and a map with two such strings alike is refused.
use ephemwork.Prelude.{
  ℕ, ◌≡◌, refl, ap, ◌∙◌, Bool, true, false, not, ◌&&◌, Option, none, some, List, [], ◌∷◌, arith, ok,
  all, Bool-cases, inl, inr, if◌then◌else◌,
}
use ephemwork.Text.{Text, eq_ignore_ascii_case}
use ephemwork.Registry.{Key}
use ephemwork.Registry.Snapshot.{shown_port, same_key, same_key_iff}
use ephemwork.Nginx.{render_config}
use ephemwork.Nginx.Safety.{is_safe_key}
use ephemwork.Nginx.Routing.{read_config, read-render, pairs, routing_value, local_target}

-- What the map gives for a header value; none is its default, the empty text.
unfoldable pub mapped : Text → List (Text × Text) → Option Text
mapped v [] = none
mapped v ((key, value) ∷ s) = if eq_ignore_ascii_case v key then some value else mapped v s

-- No two strings of the map are alike.
unfoldable pub is_loadable : List (Text × Text) → Bool
is_loadable [] = true
is_loadable ((key, value) ∷ s) = all (λ e. not (eq_ignore_ascii_case key e.0)) s && is_loadable s

pub eq_ignore_refl : (s : Text) → eq_ignore_ascii_case s s ≡ true
unfolding eq_ignore_ascii_case
eq_ignore_refl [] = refl
eq_ignore_refl (a ∷ s) = ground (arith, eq_ignore_refl s)

-- Two texts that a third is like are alike.
eq_ignore_trans :
    (s t u : Text)
    → eq_ignore_ascii_case s t ≡ true
    → eq_ignore_ascii_case s u ≡ true
    → eq_ignore_ascii_case t u ≡ true
unfolding eq_ignore_ascii_case
eq_ignore_trans [] [] [] h k = refl
eq_ignore_trans [] [] (c ∷ u) h k = k
eq_ignore_trans [] (b ∷ t) u h k = absurd (cc)
eq_ignore_trans (a ∷ s) [] u h k = absurd (cc)
eq_ignore_trans (a ∷ s) (b ∷ t) [] h k = absurd (cc)
eq_ignore_trans (a ∷ s) (b ∷ t) (c ∷ u) h k = ground (arith, eq_ignore_trans s t u)

-- A text that is like none of the map's is not that of a session that is shown.
shown_differs :
    (l : Text) (k : Key) (p : ℕ) (s : List (Key × ℕ))
    → all (λ e. not (eq_ignore_ascii_case l e.0)) (pairs s) ≡ true
    → shown_port k s ≡ some p
    → eq_ignore_ascii_case l (routing_value k) ≡ false
unfolding shown_port
shown_differs l k p [] h e = absurd (cc)
shown_differs l k p ((j, q) ∷ s) h e = ground (arith, shown_differs l k p s, same_key_iff j k)

-- A value like that of a session that is shown leads to its port.
mapped_hit :
    (v : Text) (k : Key) (p : ℕ) (s : List (Key × ℕ))
    → is_loadable (pairs s) ≡ true
    → shown_port k s ≡ some p
    → eq_ignore_ascii_case v (routing_value k) ≡ true
    → mapped v (pairs s) ≡ some (local_target p)
unfolding shown_port mapped is_loadable
mapped_hit v k p [] h e like = absurd (cc)
mapped_hit v k p ((j, q) ∷ s) h e like = elim (Bool-cases (same_key j k)) [
  | inl same_ ↦ ground (arith, same_, same_key_iff j k)
  | inr other ↦ ground (
    arith,
    other,
    shown_differs (routing_value j) k p s,
    eq_ignore_trans v (routing_value j) (routing_value k),
    mapped_hit v k p s,
  )
]

-- A value like that of no session that is shown leads nowhere.
mapped_miss :
    (v : Text) (s : List (Key × ℕ))
    → all (λ e. is_safe_key e.0) s ≡ true
    → ((k : Key) (p : ℕ)
        → is_safe_key k ≡ true
        → shown_port k s ≡ some p
        → eq_ignore_ascii_case v (routing_value k) ≡ false)
    → mapped v (pairs s) ≡ none
unfolding shown_port mapped
mapped_miss v [] safe h = refl
mapped_miss v ((j, q) ∷ s) safe h =
    let here : eq_ignore_ascii_case v (routing_value j) ≡ false =
      h j q (ground arith) (ground (arith, same_key_iff j j)) in
    rw here (
      mapped_miss v s (ground arith) (λ k p safe_k e. elim (Bool-cases (same_key j k)) [
        | inl same_ ↦ h k q safe_k (rw same_ refl)
        | inr other ↦ h k p safe_k (rw other e)
      ]))

module _ (s : List (Key × ℕ)) (text : Text) (rendered : render_config s ≡ ok text) where
  -- In a configuration that nginx loads.
  pub render_hits :
      (v : Text) (k : Key) (p : ℕ)
      → is_loadable (pairs s) ≡ true
      → shown_port k s ≡ some p
      → eq_ignore_ascii_case v (routing_value k) ≡ true
      → mapped v (read_config text) ≡ some (local_target p)
  render_hits v k p loads e like =
      ap (mapped v) (read-render s text rendered) ∙ mapped_hit v k p s loads e like

  pub render_misses :
      (v : Text)
      → all (λ e. is_safe_key e.0) s ≡ true
      → ((k : Key) (p : ℕ)
          → is_safe_key k ≡ true
          → shown_port k s ≡ some p
          → eq_ignore_ascii_case v (routing_value k) ≡ false)
      → mapped v (read_config text) ≡ none
  render_misses v safe h = ap (mapped v) (read-render s text rendered) ∙ mapped_miss v s safe h
