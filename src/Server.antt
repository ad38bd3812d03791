-- ===== src/Server.antt =====
-- The control plane as a whole: its listeners, its start and its requests one after another
-- (bastion-server/src/main.rs). Requests are served under one lock, so that their effects on the
-- registry and on the files follow one another.
pub mod Recovery
pub mod Exclusive
pub mod Threads
use ephemwork.Prelude.{
  ℕ, zero, suc, Bool, true, false, Option, none, some, List, [], ◌∷◌, Result, ok, err,
  if◌then◌else◌,
}
use ephemwork.Text.{Text}
use ephemwork.Storage.{FilePath, Disk, Weather, IoError, Codec}
use ephemwork.Registry.{Registry, registry_is_empty}
use ephemwork.Registry.Persistence.{save, load}
use ephemwork.Nginx.{ReloadCommand, NginxReloader, Exit, Host, on_change}
use ephemwork.Protocol.{Bytes, Wire}
use ephemwork.Http.{Request, Response, to_wire}
use ephemwork.Http.Read.{ReadEvent, read_request}
use ephemwork.Handlers.{Handled, route}

pub record ServerConfig : Type 0 where
  pub persist_path : FilePath
  pub nginx_config : FilePath
  pub nginx_reload : ReloadCommand

-- What the operating system does during one call of the listeners.
pub record Conditions : Type 0 where
  pub persisting : Weather
  pub publishing : Weather
  pub exit : Exit

-- The bastion, and how often the listeners were called.
pub record World : Type 0 where
  pub host : Host
  pub calls : ℕ

-- The registry behind the mutex, and the world around it.
pub record Server : Type 0 where
  pub registry : Registry
  pub world : World

abbrev pub reloader : ServerConfig → NginxReloader
reloader cfg = record { config_path = cfg.nginx_config; reload_command = cfg.nginx_reload }

module _ (codec : Codec Registry) (wire : Wire) (cfg : ServerConfig)
    (conditions : ℕ → Conditions) where
  -- `PersistOnChange::on_change`; a failure is only logged.
  unfoldable pub persist_on_change : Weather → Registry → Host → Host
  persist_on_change w r h = record h { disk = (save codec w r cfg.persist_path h.disk).0 }

  -- `CompositeListener::on_change`: first the registry's file, then nginx.
  unfoldable pub composite_on_change : Registry → World → World
  unfolding persist_on_change
  composite_on_change r w =
      let c = conditions w.calls in
      record {
        host =
            on_change c.publishing c.exit (reloader cfg) r
              (persist_on_change c.persisting r w.host);
        calls = suc w.calls;
      }

  -- The part of `handle_connection` under the lock.
  unfoldable pub locked_route : Request → Server → Response × Server
  locked_route req s =
      let h = route wire composite_on_change req s.registry s.world in
      (h.response, record { registry = h.registry; world = h.listener })

  -- `handle_connection`, from what the reads of the connection give: the bytes written back, and the
  -- server. A request that cannot be read is not answered; a failed write changes nothing.
  unfoldable pub handle_connection : List ReadEvent → Server → Bytes × Server
  unfolding locked_route
  handle_connection events s = elim (read_request events) [
    | err e ↦ ([], s)
    | ok req ↦ let (response, t) = locked_route req s in (to_wire response, t)
  ]

  -- Requests in the order in which they get the lock.
  unfoldable pub run : List Request → Server → Server
  run [] s = s
  run (req ∷ reqs) s = run reqs (locked_route req s).1

  -- `main`, up to the accept loop; `unreadable` says that the registry's file cannot be read.
  unfoldable pub start : Bool → Host → Result IoError Server
  start unreadable h = elim (load codec unreadable cfg.persist_path h.disk) [
    | err e ↦ err e
    | ok r ↦
        let w : World = record { host = h; calls = 0 } in
        ok (record {
          registry = r;
          world = if registry_is_empty r then w else composite_on_change r w;
        })
  ]
