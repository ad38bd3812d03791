-- ===== src/Nginx.antt =====
-- The nginx configuration of the bastion and its reload (bastion-server/src/nginx.rs).
pub mod Routing
pub mod Publishing
pub mod Safety
use ephemwork.Prelude.{
  ℕ, zero, suc, Bool, true, false, not, ◌&&◌, ◌||◌, Option, none, some, List, [], ◌∷◌, ◌++◌, Result,
  ok, err, ◌>>=◌, ◌>>◌, all, is_empty, ◌==◌, if◌then◌else◌,
}
use ephemwork.Text.{Text, codes, is_ascii_alphanumeric}
use ephemwork.Text.Decimal.{decimal}
use ephemwork.Storage.{
  FilePath, Disk, Weather, IoError, creating, with_extension, parent_ok, replace_file,
}
use ephemwork.Registry.{Key, Registry, snapshot}

unfoldable pub safe_byte : ℕ → Bool
unfolding is_ascii_alphanumeric
safe_byte b = is_ascii_alphanumeric b || b == b'_' || b == b'-' || b == b'.'

unfoldable pub is_safe_identifier : Text → Bool
is_safe_identifier s = if is_empty s then false else all safe_byte s

pub data NginxError : Type 0 where
  unsafe_user unsafe_service : Text → NginxError

-- The first loop of `render_config`.
unfoldable pub check_entries : List (Key × ℕ) → Result NginxError (Unit {0})
check_entries [] = ok tt
check_entries ((key, port) ∷ s) =
    let rest = check_entries s in
    if is_safe_identifier key.user
    then (if is_safe_identifier key.service then rest else err (unsafe_service key.service))
    else err (unsafe_user key.user)

unfoldable pub header_key : Key → Text
header_key key = key.user ++ b':' ∷ key.service

unfoldable pub target : ℕ → Text
target port = codes "127.0.0.1:" ++ decimal port

-- One line of the map block.
unfoldable pub entry_line : Key → ℕ → Text
unfolding header_key target
entry_line key port =
    codes "    \"" ++ (header_key key ++ (codes "\" \"" ++ (target port ++ codes "\";\n")))

-- The second loop of `render_config`.
unfoldable pub entry_lines : List (Key × ℕ) → Text
entry_lines [] = []
entry_lines ((key, port) ∷ s) = entry_line key port ++ entry_lines s

unfoldable pub config_head : Text
config_head =
    codes "# Generated by ephemwork bastion control plane. DO NOT EDIT BY HAND.\n"
    ++ codes "# Re-rendered after every register/deregister.\n\n"
    ++ codes "resolver 127.0.0.1 valid=300s ipv6=off;\n\n"
    ++ codes "map $http_x_ephemwork $ephem_target {\n"
    ++ codes "    default \"\";\n"

unfoldable pub config_tail : Text
config_tail =
    codes "}\n\n"
    ++ codes "server {\n"
    ++ codes "    listen 80 default_server;\n"
    ++ codes "    listen [::]:80 default_server;\n\n"
    ++ codes "    location = /ephemwork-health {\n"
    ++ codes "        return 200 \"ok\\n\";\n"
    ++ codes "    }\n\n"
    ++ codes "    location / {\n"
    ++ codes "        if ($ephem_target = \"\") {\n"
    ++ codes "            return 404 \"no active ephemwork session for this header\\n\";\n"
    ++ codes "        }\n"
    ++ codes "        proxy_pass http://$ephem_target;\n"
    ++ codes "        proxy_http_version 1.1;\n"
    ++ codes "        proxy_set_header Host $host;\n"
    ++ codes "        proxy_set_header X-Forwarded-For $proxy_add_x_forwarded_for;\n"
    ++ codes "        proxy_set_header X-Forwarded-Proto $scheme;\n"
    ++ codes "        proxy_set_header X-Ephemwork $http_x_ephemwork;\n"
    ++ codes "        proxy_read_timeout 300s;\n"
    ++ codes "    }\n"
    ++ codes "}\n"

unfoldable pub render_config : List (Key × ℕ) → Result NginxError Text
render_config entries = do
  check_entries entries
  ok (config_head ++ (entry_lines entries ++ config_tail))

pub data ReloadCommand : Type 0 where
  nginx_binary skip : ReloadCommand
  custom : Text → ReloadCommand

pub record NginxReloader : Type 0 where
  pub config_path : FilePath
  pub reload_command : ReloadCommand

-- How a command ends: it could not be started, or it exits, by a signal where there is no code.
pub data Exit : Type 0 where
  spawn_failed : Exit
  exited : Option ℕ → Exit

pub data ReloadError : Type 0 where
  spawning : ReloadError
  bad_exit : Option ℕ → ReloadError

unfoldable pub run_status : Exit → Result ReloadError (Unit {0})
run_status spawn_failed = err spawning
run_status (exited (some zero)) = ok tt
run_status (exited code) = err (bad_exit code)

unfoldable pub reload : ReloadCommand → Exit → Result ReloadError (Unit {0})
reload skip exit = ok tt
reload nginx_binary exit = run_status exit
reload (custom cmd) exit = run_status exit

-- `ReloadCommand::None`: no command is run, so that nginx goes on with what it has.
abbrev pub is_skip : ReloadCommand → Bool
is_skip skip = true
is_skip nginx_binary = false
is_skip (custom cmd) = false

-- The bastion around the control plane: its files, and the configuration file as it stood when
-- a command that reloads nginx last succeeded.
pub record Host : Type 0 where
  pub disk : Disk
  pub live : Option Text

unfoldable pub write_config :
    Weather → NginxReloader → Text → Disk → Disk × Result IoError (Unit {0})
write_config w n contents d =
    if parent_ok w n.config_path
    then replace_file w n.config_path (with_extension n.config_path (codes "conf.tmp")) contents d
    else (d, err creating)

-- After the file is written: the reload, whose failure is only logged.
unfoldable pub reloaded : NginxReloader → Exit → Host → Host
reloaded n exit h = elim (reload n.reload_command exit) [
  | ok u ↦ if is_skip n.reload_command then h else record h { live = h.disk n.config_path }
  | err e ↦ h
]

-- What follows the rendering; each failure is logged and ends the call.
unfoldable pub publish : Weather → Exit → NginxReloader → Text → Host → Host
publish w exit n text h = elim (write_config w n text h.disk).1 [
  | ok u ↦ reloaded n exit (record h { disk = (write_config w n text h.disk).0 })
  | err e ↦ record h { disk = (write_config w n text h.disk).0 }
]

unfoldable pub on_change : Weather → Exit → NginxReloader → Registry → Host → Host
on_change w exit n r h = elim (render_config (snapshot r)) [
  | ok text ↦ publish w exit n text h
  | err e ↦ h
]
