-- ===== src/Tunnel/Opening.antt =====
-- `open_ssh2_reverse_forward` and `handle_accepted_channel` of src/tunnel.rs, over the calls of
-- the SSH library.
use ephemwork.Prelude.{ℕ, ◌%◌, ◌^◌, Bool, true, false, Option, Result, ok, err}
use ephemwork.Text.{Text, codes}
use ephemwork.Provisioner.Calls.{Call, ◌>>=◌, ◌>>◌, done}
use ephemwork.Tunnel.{SshConfig, SshAuth, agent, key_file, SshConfigError, validate}
use ephemwork.Tunnel.Accepting.{ReverseForward, from_worker_with_dead}

-- What the library and the network do; `fail` turns the file's own errors into those of the calls.
pub record Ssh {ℓ κ} (S : Type ℓ) (E : Type κ) : Type (ℓ ⊔ κ) where
  pub misconfigured : SshConfigError → E
  pub unauthenticated : E
  -- `TcpStream::connect`
  pub connect : Text → ℕ → Call S E (Unit {0})
  -- `Session::new`, `set_tcp_stream` and `handshake`
  pub handshake : Call S E (Unit {0})
  pub userauth_agent : Text → Call S E (Unit {0})
  pub userauth_pubkey_file : Text → Text → Option Text → Call S E (Unit {0})
  pub authenticated : Call S E Bool
  -- Seconds, as a `u32`.
  pub set_keepalive : ℕ → Call S E (Unit {0})
  -- The remote port and the host.
  pub channel_forward_listen : ℕ → Text → Call S E (Unit {0})
  pub set_blocking : Bool → Call S E (Unit {0})
  -- The worker's thread; the local port is that of its bridges.
  pub spawn_worker : ℕ → Call S E ℕ
  -- One bridge's socket; a host and a port.
  pub set_nonblocking : Call S E (Unit {0})
  -- `bridge_bidirectional`, whose result is dropped.
  pub bridge : Call S E (Unit {0})
  -- `channel.close`, whose result is dropped.
  pub close : Call S E (Unit {0})

module _ {ℓ κ} {S : Type ℓ} {E : Type κ} (p : Ssh S E) where
  unfoldable pub validated : Result SshConfigError (Unit {0}) → Call S E (Unit {0})
  validated (ok u) = done (ok tt)
  validated (err e) = done (err (p.misconfigured e))

  unfoldable pub authenticate : Text → SshAuth → Call S E (Unit {0})
  authenticate username agent = p.userauth_agent username
  authenticate username (key_file private_key passphrase) =
      p.userauth_pubkey_file username private_key passphrase

  unfoldable pub if_authenticated : Bool → Call S E (Unit {0})
  if_authenticated true = done (ok tt)
  if_authenticated false = done (err p.unauthenticated)

  unfoldable pub open_ssh2_reverse_forward : SshConfig → ℕ → ℕ → Call S E ReverseForward
  open_ssh2_reverse_forward cfg local_port remote_port = do
    validated (validate cfg)
    p.connect cfg.host cfg.port
    p.handshake
    authenticate cfg.username cfg.auth
    allowed ← p.authenticated
    if_authenticated allowed
    p.set_keepalive (cfg.keepalive % 2 ^ 32)
    p.channel_forward_listen remote_port cfg.host
    p.set_blocking false
    worker ← p.spawn_worker local_port
    done (ok (from_worker_with_dead local_port remote_port false false worker))

  -- The results of `bridge` and `close` are dropped.
  unfoldable pub dropped : Call S E (Unit {0}) → Call S E (Unit {0})
  dropped call s = ((call s).0, ok tt)

  unfoldable pub handle_accepted_channel : ℕ → Call S E (Unit {0})
  handle_accepted_channel local_port = do
    p.connect (codes "127.0.0.1") local_port
    p.set_nonblocking
    dropped p.bridge
    dropped p.close
