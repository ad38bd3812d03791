-- ===== src/Nginx/Publishing.antt =====
-- What a change of the registry does to the configuration on the bastion.
use ephemwork.Prelude.{
  ℕ, ◌∷◌, ◌++◌, sym, none, ◌≡◌, refl, ◌∙◌, ◌≢◌, ◌⊎◌, inl, inr, true, false, some, ok, err, arith,
  all, Result-cases,
}
use ephemwork.Text.{Text, codes, eq_ignore_ascii_case}
use ephemwork.Text.Decimal.{decimal}
use ephemwork.Storage.{FilePath, Disk, Weather, same_path, parent_ok, replace_file, with_extension}
use ephemwork.Storage.Laws.{replace_file_cases, replace_file_frame, tmp_ne}
use ephemwork.Registry.{Key, Registry, snapshot, lookup}
use ephemwork.Registry.Snapshot.{shown_port-snapshot}
use ephemwork.Nginx.{
  render_config, is_skip, NginxReloader, Exit, reload, Host, write_config, publish, reloaded,
  on_change, NginxError,
}
use ephemwork.Nginx.Safety.{is_safe_key, NoSlash-of_is_safe_key, render_config_safe}
use ephemwork.Nginx.Routing.{read_config, pairs}
use ephemwork.Nginx.Routing.Matching.{mapped, is_loadable, render_hits, render_misses}

-- The operating system does what it is asked to.
pub record Fair (w : Weather) (exit : Exit) (n : NginxReloader) : Type 0 where
  pub parent : parent_ok w n.config_path ≡ true
  pub writes : w.write_ok ≡ true
  pub renames : w.rename_ok ≡ true
  pub active : is_skip n.reload_command ≡ false
  pub reloads : reload n.reload_command exit ≡ ok tt
  pub named : n.config_path.extension ≢ codes "conf.tmp"

write_config-Fair :
    (w : Weather) (exit : Exit) (n : NginxReloader) (text : Text) (d : Disk)
    → Fair w exit n
    → (write_config w n text d).1 ≡ ok tt
unfolding write_config replace_file
write_config-Fair w exit n text d f = ground (arith, f.parent, f.writes, f.renames)

write_config_cases :
    (w : Weather) (n : NginxReloader) (text : Text) (d : Disk)
    → n.config_path.extension ≢ codes "conf.tmp"
    → (((write_config w n text d).1 ≡ ok tt)
        × ((write_config w n text d).0 n.config_path ≡ some text))
      ⊎ (((write_config w n text d).1 ≢ ok tt)
          × ((write_config w n text d).0 n.config_path ≡ d n.config_path))
unfolding write_config
write_config_cases w n text d named = ground (
  arith,
  replace_file_cases w n.config_path (with_extension n.config_path (codes "conf.tmp")) text d
      (tmp_ne n.config_path (codes "conf.tmp") named),
)

publish_cases :
    (w : Weather) (exit : Exit) (n : NginxReloader) (text : Text) (h : Host)
    → n.config_path.extension ≢ codes "conf.tmp"
    → (((publish w exit n text h).live ≡ h.live)
        ⊎ (((publish w exit n text h).live ≡ some text) × (is_skip n.reload_command ≡ false)))
      × (((publish w exit n text h).disk n.config_path ≡ h.disk n.config_path)
          ⊎ ((publish w exit n text h).disk n.config_path ≡ some text))
unfolding publish reloaded
publish_cases w exit n text h named = ground (arith, write_config_cases w n text h.disk named)

publish-Fair :
    (w : Weather) (exit : Exit) (n : NginxReloader) (text : Text) (h : Host)
    → Fair w exit n
    → (publish w exit n text h).live ≡ some text
unfolding publish reloaded
publish-Fair w exit n text h f = ground (
  arith,
  write_config-Fair w exit n text h.disk f,
  write_config_cases w n text h.disk f.named,
  f.reloads,
  f.active,
)

on_change_rendered :
    (w : Weather) (exit : Exit) (n : NginxReloader) (r : Registry) (h : Host) {text : Text}
    → render_config (snapshot r) ≡ ok text
    → on_change w exit n r h ≡ publish w exit n text h
unfolding on_change
on_change_rendered w exit n r h e = rw (e, on_change)

on_change_refused :
    (w : Weather) (exit : Exit) (n : NginxReloader) (r : Registry) (h : Host) {e : NginxError}
    → render_config (snapshot r) ≡ err e
    → on_change w exit n r h ≡ h
unfolding on_change
on_change_refused w exit n r h refused = rw (refused, on_change)

-- Where every session is safe, no two sessions are alike but for case, and the operating system
-- does what it is asked to, with a reload that is not skipped, nginx runs after a change with a
-- configuration that leads each header value that is like "user:service" of a registered session
-- with a safe key, without regard to case, to 127.0.0.1 and the port that the registry holds for
-- it, and every header value that is like that of no such session to no target.
pub on_change_routes :
    (w : Weather) (exit : Exit) (n : NginxReloader) (r : Registry) (h : Host)
    → Fair w exit n
    → all (λ e. is_safe_key e.0) (snapshot r) ≡ true
    → is_loadable (pairs (snapshot r)) ≡ true
    → (text : Text) × ((on_change w exit n r h).live ≡ some text)
      × ((v : Text) (k : Key) (p : ℕ)
          → is_safe_key k ≡ true
          → lookup r k ≡ some p
          → eq_ignore_ascii_case v (k.user ++ b':' ∷ k.service) ≡ true
          → mapped v (read_config text) ≡ some (codes "127.0.0.1:" ++ decimal p))
      × ((v : Text)
          → ((k : Key) (p : ℕ)
              → is_safe_key k ≡ true
              → lookup r k ≡ some p
              → eq_ignore_ascii_case v (k.user ++ b':' ∷ k.service) ≡ false)
          → mapped v (read_config text) ≡ none)
on_change_routes w exit n r h f safe loads =
    let (text, rendered) = render_config_safe (snapshot r) safe in
    (
      text,
      rw (on_change_rendered w exit n r h rendered) (publish-Fair w exit n text h f),
      λ v k p safe_k e like.
          render_hits (snapshot r) text rendered v k p loads
            (shown_port-snapshot r k (NoSlash-of_is_safe_key k safe_k) ∙ e) like,
      λ v apart. render_misses (snapshot r) text rendered v safe (λ k p safe_k e.
          apart k p safe_k (sym (shown_port-snapshot r k (NoSlash-of_is_safe_key k safe_k)) ∙ e)),
    )

-- In any weather and however the reload ends, the live configuration after a change is the one
-- before or, where the reload is not skipped, the rendering of this registry, and the
-- configuration file, whose extension is not conf.tmp, is the one before or that rendering.
pub on_change_atomic :
    (w : Weather) (exit : Exit) (n : NginxReloader) (r : Registry) (h : Host)
    → n.config_path.extension ≢ codes "conf.tmp"
    → (((on_change w exit n r h).live ≡ h.live)
        ⊎ ((text : Text) × (render_config (snapshot r) ≡ ok text)
            × ((on_change w exit n r h).live ≡ some text)
            × (is_skip n.reload_command ≡ false)))
      × (((on_change w exit n r h).disk n.config_path ≡ h.disk n.config_path)
          ⊎ ((text : Text) × (render_config (snapshot r) ≡ ok text)
              × ((on_change w exit n r h).disk n.config_path ≡ some text)))
on_change_atomic w exit n r h named = elim (Result-cases (render_config (snapshot r))) [
  | inr (e, refused) ↦ rw (on_change_refused w exit n r h refused) (inl refl, inl refl)
  | inl (text, rendered) ↦
      let (live, file) = publish_cases w exit n text h named in
      rw (on_change_rendered w exit n r h rendered) (
        elim live [ inl a ↦ inl a | inr (b, active) ↦ inr (text, rendered, b, active) ],
        elim file [ inl a ↦ inl a | inr b ↦ inr (text, rendered, b) ],
      )
]

-- Other files are left alone.
pub on_change_frame :
    (w : Weather) (exit : Exit) (n : NginxReloader) (r : Registry) (h : Host) (q : FilePath)
    → same_path n.config_path q ≡ false
    → same_path (with_extension n.config_path (codes "conf.tmp")) q ≡ false
    → (on_change w exit n r h).disk q ≡ h.disk q
unfolding on_change publish reloaded write_config
on_change_frame w exit n r h q not_file not_tmp = elim (Result-cases (render_config (snapshot r))) [
  | inr (e, refused) ↦ rw (refused, on_change)
  | inl (text, rendered) ↦ ground (
    arith,
    replace_file_frame w n.config_path (with_extension n.config_path (codes "conf.tmp")) text h.disk
        q not_tmp not_file,
  )
]
