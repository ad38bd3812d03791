-- ===== src/Tunnel.antt =====
-- The reverse SSH tunnel of a service (src/tunnel.rs): the settings and the handle here; the
-- writes, the bridge between two endpoints and the worker that accepts channels in the modules
-- below. The SSH library and the sockets are scripts of what their calls return.
pub mod Writing
pub mod Bridge
pub mod Accepting
pub mod Opening
use ephemwork.Prelude.{
  ℕ, Bool, true, false, Option, none, some, List, [], ◌∷◌, Result, ok, err, is_empty, ◌==◌,
  if◌then◌else◌,
}
use ephemwork.Text.{Text, trim}
use ephemwork.Storage.{FilePath}

pub data SshAuth : Type 0 where
  agent : SshAuth
  key_file : (private_key : Text) (passphrase : Option Text) → SshAuth

-- The keepalive in seconds.
pub record SshConfig : Type 0 where
  pub host : Text
  pub port : ℕ
  pub username : Text
  pub auth : SshAuth
  pub keepalive : ℕ

pub data SshConfigError : Type 0 where
  empty_host zero_port empty_username empty_key : SshConfigError

unfoldable pub validate_auth : SshAuth → Result SshConfigError (Unit {0})
validate_auth agent = ok tt
validate_auth (key_file private_key passphrase) =
    if is_empty private_key then err empty_key else ok tt

unfoldable pub validate : SshConfig → Result SshConfigError (Unit {0})
unfolding validate_auth
validate cfg =
    if is_empty (trim cfg.host)
    then err empty_host
    else if cfg.port == 0
    then err zero_port
    else if is_empty (trim cfg.username)
    then err empty_username
    else validate_auth cfg.auth
