-- ===== src/Server/Exclusive.antt =====
-- Ports are exclusive, whatever requests a new control plane has served.
use ephemwork.Prelude.{ℕ, ◌≡◌, ◌≢◌, sym, ap, ◌∙◌, List, some}
use ephemwork.Storage.{Codec}
use ephemwork.Registry.{Key, PortRange, Registry, with_range, lookup}
use ephemwork.Registry.Invariant.{with_range-WellFormed}
use ephemwork.Registry.Keys.{NoSlash, compose_injective}
use ephemwork.Registry.Sessions.{lookup_injective}
use ephemwork.Protocol.{Wire}
use ephemwork.Http.{Request}
use ephemwork.Server.{ServerConfig, Conditions, World, Server, run}
use ephemwork.Server.Recovery.{run-WellFormed}

-- A server that has served nothing.
abbrev pub fresh : PortRange → World → Server
fresh range w = record { registry = with_range range; world = w }

module _ (codec : Codec Registry) (wire : Wire) (cfg : ServerConfig)
    (conditions : ℕ → Conditions) where
  -- After any requests to a server that began without sessions, two different sessions, whose
  -- users have no slash, hold different ports.
  pub run_exclusive :
      (reqs : List Request) (range : PortRange) (w : World) (a b : Key) (p q : ℕ)
      → NoSlash a.user
      → NoSlash b.user
      → a ≢ b
      → lookup (run codec wire cfg conditions reqs (fresh range w)).registry a ≡ some p
      → lookup (run codec wire cfg conditions reqs (fresh range w)).registry b ≡ some q
      → p ≢ q
  run_exclusive reqs range w a b p q plain_a plain_b differ found_a found_b same_port = differ (
      compose_injective a b plain_a plain_b (
        lookup_injective (run codec wire cfg conditions reqs (fresh range w)).registry a b p
          (run-WellFormed codec wire cfg conditions reqs (fresh range w)
            (with_range-WellFormed range))
          found_a (found_b ∙ ap some (sym same_port))))
