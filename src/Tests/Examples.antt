-- ===== src/Tests/Examples.antt =====
-- The data of the tests.
use ephemwork.Prelude.{ℕ, true, Option, none, some, [], ◌∷◌, ◌++◌, Result, ok, err}
use ephemwork.Text.{Text, codes}
use ephemwork.Text.Decimal.{decimal, parse_unsigned, u16_max}
use ephemwork.Text.Splitting.{split_once}
use ephemwork.Storage.{FilePath, Disk, Weather}
use ephemwork.Registry.{Key, PortRange, Registry, with_range}
use ephemwork.Protocol.{Wire, Bytes, RegisterRequest, RegisterResponse, DeregisterRequest}
use ephemwork.Http.{Request}
use ephemwork.Nginx.{Exit, exited, Host, NginxReloader, nginx_binary}
use ephemwork.Server.{ServerConfig, Conditions, Server}

abbrev pub alice : Key
alice = record { user = codes "alice"; service = codes "api" }

abbrev pub bob : Key
bob = record { user = codes "bob"; service = codes "web" }

abbrev pub carol : Key
carol = record { user = codes "carol"; service = codes "api" }

abbrev pub two_ports : PortRange
two_ports = record { start = 10000; end = 10001 }

abbrev pub one_session : Registry
one_session = record { range = two_ports; entries = (codes "alice/api", 10000) ∷ [] }

abbrev pub full : Registry
full = record {
  range = two_ports;
  entries = (codes "alice/api", 10000) ∷ (codes "bob/web", 10001) ∷ [];
}

abbrev pub registry_path : FilePath
registry_path = record {
  dir = codes "/var/lib/ephemwork";
  stem = codes "registry";
  extension = codes "json";
}

abbrev pub nginx_path : FilePath
nginx_path = record {
  dir = codes "/etc/nginx/conf.d";
  stem = codes "ephemwork";
  extension = codes "conf";
}

abbrev pub empty_disk : Disk
empty_disk p = none

abbrev pub fair_weather : Weather
fair_weather = record { mkdir_ok = true; write_ok = true; torn = none; rename_ok = true }

abbrev pub clean_exit : Exit
clean_exit = exited (some 0)

abbrev pub reloading : NginxReloader
reloading = record { config_path = nginx_path; reload_command = nginx_binary }

abbrev pub quiet_host : Host
quiet_host = record { disk = empty_disk; live = none }

-- A wire format of words with a space between them.
abbrev pub key_of_words : Option (Text × Text) → Result Text (Text × Text)
key_of_words none = err (codes "no space")
key_of_words (some words) = ok words

abbrev pub read_register : Result Text (Text × Text) → Result Text RegisterRequest
read_register (err e) = err e
read_register (ok (u, s)) = ok (record { user = u; service = s })

abbrev pub read_deregister : Result Text (Text × Text) → Result Text DeregisterRequest
read_deregister (err e) = err e
read_deregister (ok (u, s)) = ok (record { user = u; service = s })

abbrev pub read_response : Option ℕ → Result Text RegisterResponse
read_response none = err (codes "no number")
read_response (some p) = ok (record { remote_port = p })

abbrev pub words : Wire
words = record {
  register_to_vec = λ r. r.user ++ b' ' ∷ r.service;
  register_from_slice = λ b. read_register (key_of_words (split_once b' ' b));
  deregister_to_vec = λ r. r.user ++ b' ' ∷ r.service;
  deregister_from_slice = λ b. read_deregister (key_of_words (split_once b' ' b));
  response_to_vec = λ r. decimal r.remote_port;
  response_from_slice = λ b. read_response (parse_unsigned u16_max b);
  error_to_vec = λ e. e.error;
  entries_to_vec = λ es. [];
}

abbrev pub post : Text → Bytes → Request
post path body = record { method = codes "POST"; path = path; body = body }

abbrev pub add_carol : Request
add_carol = post (codes "/register") (codes "carol api")

abbrev pub drop_alice : Request
drop_alice = post (codes "/deregister") (codes "alice api")

abbrev pub server_config : ServerConfig
server_config = record {
  persist_path = registry_path;
  nginx_config = nginx_path;
  nginx_reload = nginx_binary;
}

abbrev pub always_fair : ℕ → Conditions
always_fair n = record { persisting = fair_weather; publishing = fair_weather; exit = clean_exit }

abbrev pub fresh_server : Server
fresh_server = record {
  registry = with_range (record { start = 10000; end = 19999 });
  world = record { host = quiet_host; calls = 0 };
}
