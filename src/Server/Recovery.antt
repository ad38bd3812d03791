-- ===== src/Server/Recovery.antt =====
-- What a restart of the control plane finds.
use ephemwork.Prelude.{
  ℕ, ◌≡◌, refl, ◌∙◌, sym, ◌≢◌, ◌⊎◌, inl, inr, false, List, [], ◌∷◌, Result, ok, Result-cases,
}
use ephemwork.Text.{codes}
use ephemwork.Storage.{Disk, IoError, Codec, RoundTrips, same_path, with_extension, load_json}
use ephemwork.Registry.{Registry}
use ephemwork.Registry.Invariant.{WellFormed}
use ephemwork.Registry.Persistence.{save, load, load-save_registry}
use ephemwork.Nginx.Publishing.{on_change_frame}
use ephemwork.Protocol.{Wire}
use ephemwork.Http.{Request}
use ephemwork.Handlers.Isolation.{route-WellFormed, route_cases}
use ephemwork.Server.{
  ServerConfig, Conditions, World, Server, reloader, persist_on_change, composite_on_change,
  locked_route, run,
}

-- The files of the control plane are different files.
pub record Apart (cfg : ServerConfig) : Type 0 where
  pub not_config : same_path cfg.nginx_config cfg.persist_path ≡ false
  pub not_config_tmp :
      same_path (with_extension cfg.nginx_config (codes "conf.tmp")) cfg.persist_path ≡ false
  pub named : cfg.persist_path.extension ≢ codes "json.tmp"

module _ (codec : Codec Registry) (wire : Wire) (cfg : ServerConfig)
    (conditions : ℕ → Conditions) where
  -- The registry that a restart would load.
  abbrev pub stored : Server → Result IoError Registry
  stored s = load codec false cfg.persist_path s.world.host.disk

  load_same :
      (d e : Disk)
      → d cfg.persist_path ≡ e cfg.persist_path
      → load codec false cfg.persist_path d ≡ load codec false cfg.persist_path e
  unfolding load load_json
  load_same d e h = rw h

  -- After a call of the listeners a restart loads what it would load after the save alone.
  composite_load :
      (r : Registry) (w : World)
      → Apart cfg
      → load codec false cfg.persist_path
          (composite_on_change codec wire cfg conditions r w).host.disk
        ≡ load codec false cfg.persist_path
            (save codec (conditions w.calls).persisting r cfg.persist_path w.host.disk).0
  unfolding composite_on_change
  composite_load r w apart =
      load_same (composite_on_change codec wire cfg conditions r w).host.disk
        (save codec (conditions w.calls).persisting r cfg.persist_path w.host.disk).0
        (on_change_frame (conditions w.calls).publishing (conditions w.calls).exit (reloader cfg) r
          (persist_on_change codec wire cfg conditions (conditions w.calls).persisting r w.host)
          cfg.persist_path apart.not_config apart.not_config_tmp)

  -- One call of the listeners stores the registry, or leaves what is stored.
  composite_stores :
      (r : Registry) (w : World)
      → RoundTrips codec
      → Apart cfg
      → (load codec false cfg.persist_path
            (composite_on_change codec wire cfg conditions r w).host.disk
          ≡ ok r)
        ⊎ (load codec false cfg.persist_path
              (composite_on_change codec wire cfg conditions r w).host.disk
            ≡ load codec false cfg.persist_path w.host.disk)
  composite_stores r w trips apart =
      let c = (conditions w.calls).persisting in
      let (fine, failed) =
        load-save_registry codec c r cfg.persist_path w.host.disk trips apart.named in
      elim (Result-cases (save codec c r cfg.persist_path w.host.disk).1) [
        | inl (u, saved) ↦ inl (composite_load r w apart ∙ fine saved)
        | inr (e, broken) ↦ inr (composite_load r w apart ∙ failed (cc))
      ]

  -- Every save succeeds.
  abbrev pub SavesAll : Type 0
  SavesAll =
      (n : ℕ) (r : Registry) (d : Disk)
      → (save codec (conditions n).persisting r cfg.persist_path d).1 ≡ ok tt

  composite_saves :
      (r : Registry) (w : World)
      → RoundTrips codec
      → Apart cfg
      → SavesAll
      → load codec false cfg.persist_path
          (composite_on_change codec wire cfg conditions r w).host.disk
        ≡ ok r
  composite_saves r w trips apart saves =
      composite_load r w apart
      ∙ (load-save_registry codec (conditions w.calls).persisting r cfg.persist_path w.host.disk
            trips apart.named).0
          (saves w.calls r w.host.disk)

  locked_route_recovers :
      (req : Request) (s : Server)
      → RoundTrips codec
      → Apart cfg
      → SavesAll
      → stored s ≡ ok s.registry
      → stored (locked_route codec wire cfg conditions req s).1
        ≡ ok (locked_route codec wire cfg conditions req s).1.registry
  unfolding locked_route
  locked_route_recovers req s trips apart saves h =
      route_cases wire (composite_on_change codec wire cfg conditions)
        (λ r w. load codec false cfg.persist_path w.host.disk ≡ ok r) req s.registry s.world h
        (λ q p parsed got. composite_saves _ s.world trips apart saves)
        (λ q p parsed present. composite_saves _ s.world trips apart saves)

  -- Where every save succeeds, a restart after any requests finds the registry as it was; the
  -- format round-trips, the files are different files, and the file held the registry at first.
  pub run_recovers :
      (reqs : List Request) (s : Server)
      → RoundTrips codec
      → Apart cfg
      → SavesAll
      → stored s ≡ ok s.registry
      → stored (run codec wire cfg conditions reqs s)
        ≡ ok (run codec wire cfg conditions reqs s).registry
  unfolding run
  run_recovers [] s trips apart saves h = h
  run_recovers (req ∷ reqs) s trips apart saves h =
      run_recovers reqs (locked_route codec wire cfg conditions req s).1 trips apart saves
        (locked_route_recovers req s trips apart saves h)

  -- The registry was r after one of the requests.
  abbrev pub WasHeld : Registry → List Request → Server → Type 0
  WasHeld r [] s = ⊥
  WasHeld r (req ∷ reqs) s =
      let t = (locked_route codec wire cfg conditions req s).1 in
      (t.registry ≡ r) ⊎ WasHeld r reqs t

  locked_route_stores :
      (req : Request) (s : Server)
      → RoundTrips codec
      → Apart cfg
      → (stored (locked_route codec wire cfg conditions req s).1
          ≡ ok (locked_route codec wire cfg conditions req s).1.registry)
        ⊎ (stored (locked_route codec wire cfg conditions req s).1 ≡ stored s)
  unfolding locked_route
  locked_route_stores req s trips apart =
      route_cases wire (composite_on_change codec wire cfg conditions)
        (λ r w.
          (load codec false cfg.persist_path w.host.disk ≡ ok r)
          ⊎ (load codec false cfg.persist_path w.host.disk ≡ stored s))
        req s.registry s.world (inr refl) (λ q p parsed got. composite_stores _ s.world trips apart)
        (λ q p parsed present. composite_stores _ s.world trips apart)

  -- In any weather, a restart after any requests finds a registry that was held after one of them,
  -- or the one that was stored before; the format round-trips, the control plane's files are
  -- different files, and the file before can be loaded.
  pub run_stores :
      (reqs : List Request) (s : Server) (before : Registry)
      → RoundTrips codec
      → Apart cfg
      → stored s ≡ ok before
      → (r : Registry) × (stored (run codec wire cfg conditions reqs s) ≡ ok r)
        × ((r ≡ before) ⊎ WasHeld r reqs s)
  unfolding run
  run_stores [] s before trips apart h = (before, h, inl refl)
  run_stores (req ∷ reqs) s before trips apart h =
      let t = (locked_route codec wire cfg conditions req s).1 in
      elim (locked_route_stores req s trips apart) [
        | inl fresh ↦
            let (r, found, where_from) = run_stores reqs t t.registry trips apart fresh in
            (r, found, elim where_from [ inl e ↦ inr (inl (sym e)) | inr past ↦ inr (inr past) ])
        | inr old ↦
            let (r, found, where_from) = run_stores reqs t before trips apart (old ∙ h) in
            (r, found, elim where_from [ inl e ↦ inl e | inr past ↦ inr (inr past) ])
      ]

  -- After any requests to a server whose registry is well formed the registry is well formed.
  pub run-WellFormed :
      (reqs : List Request) (s : Server)
      → WellFormed s.registry
      → WellFormed (run codec wire cfg conditions reqs s).registry
  unfolding run locked_route
  run-WellFormed [] s v = v
  run-WellFormed (req ∷ reqs) s v =
      run-WellFormed reqs (locked_route codec wire cfg conditions req s).1 (
        route-WellFormed wire (composite_on_change codec wire cfg conditions) req s.registry s.world
          v)
