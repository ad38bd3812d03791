-- ===== src/Config.antt =====
-- The configuration file (src/config.rs): its validation and the user's identity. The TOML form
-- is the `toml` crate's; a `HashMap` is a list of its entries, in the order of its iterator.
pub mod Validity
pub mod Identity
use ephemwork.Prelude.{
  ℕ, Bool, true, false, ◌&&◌, ◌||◌, Option, none, some, List, [], ◌∷◌, Result, ok, err, ◌>>=◌, ◌>>◌,
  guard, not, all, is_empty, ◌==◌, if◌then◌else◌,
}
use ephemwork.Text.{Text, codes, same, trim, is_ascii_alphanumeric}
use ephemwork.Text.Splitting.{split_char}

pub record TunnelConfig : Type 0 where
  pub tunnel_type : Text
  pub region : Text
  pub instance_type : Text
  pub project_name : Text
  pub expected_vpc_id : Option Text

pub record ServiceConfig : Type 0 where
  pub port : Option ℕ
  pub build_command : Option Text
  pub run_command : Text
  pub health_check_path : Option Text
  pub forward_ports : List Text
  pub bootstrap_command : Option Text

pub record Config : Type 0 where
  pub tunnel : TunnelConfig
  pub service : List (Text × ServiceConfig)

pub data ConfigError : Type 0 where
  empty_type empty_region empty_instance_type empty_project_name bad_project_name no_services :
      ConfigError
  port_zero empty_run_command : Text → ConfigError
  git_failed no_identity : ConfigError

abbrev pub is_blank : Text → Bool
is_blank s = is_empty (trim s)

unfoldable pub project_byte : ℕ → Bool
project_byte b = is_ascii_alphanumeric b || b == b'-' || b == b'_'

-- `matches!(svc.port, Some(0))`
abbrev pub is_port_zero : Option ℕ → Bool
is_port_zero none = false
is_port_zero (some p) = p == 0

-- The loop over the services.
unfoldable pub validate_services : List (Text × ServiceConfig) → Result ConfigError (Unit {0})
validate_services [] = ok tt
validate_services ((name, svc) ∷ rest) =
    let later = validate_services rest in
    if is_port_zero svc.port
    then err (port_zero name)
    else if is_blank svc.run_command
    then err (empty_run_command name)
    else later

unfoldable pub validate : Config → Result ConfigError (Unit {0})
validate c = do
  guard (not (is_blank c.tunnel.tunnel_type)) empty_type
  guard (not (is_blank c.tunnel.region)) empty_region
  guard (not (is_blank c.tunnel.instance_type)) empty_instance_type
  guard (not (is_blank c.tunnel.project_name)) empty_project_name
  guard (all project_byte c.tunnel.project_name) bad_project_name
  guard (not (is_empty c.service)) no_services
  validate_services c.service

abbrev pub first_piece : List Text → Text
first_piece [] = []
first_piece (t ∷ ts) = t

-- From the address of `git config user.email`, which may not be had.
unfoldable pub user_of_email : Option Text → Result ConfigError Text
user_of_email none = err git_failed
user_of_email (some email) =
    let local = trim (first_piece (split_char b'@' email)) in
    if is_empty local then err no_identity else ok local

unfoldable pub resolve_user : Option Text → Option Text → Result ConfigError Text
unfolding user_of_email
resolve_user none git_email = user_of_email git_email
resolve_user (some u) git_email = if is_blank u then user_of_email git_email else ok (trim u)
