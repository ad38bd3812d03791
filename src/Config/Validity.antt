-- ===== src/Config/Validity.antt =====
-- What a configuration that passes the validation is like.
use ephemwork.Prelude.{
  ◌≡◌, refl, ◌≢◌, ◌↔◌, true, some, List, [], ◌∷◌, ok, arith, All, all, ◌≤◌, ◌⊎◌, ℕ,
}
use ephemwork.Text.{Text, trim, is_ascii_alphanumeric}
use ephemwork.Config.{ServiceConfig, Config, project_byte, validate_services, validate}

-- No port is 0, and there is something to run.
abbrev pub IsRunnable : Text × ServiceConfig → Type 0
IsRunnable e = (e.1.port ≢ some 0) × (trim e.1.run_command ≢ [])

-- A letter, a digit, "-" or "_", by its ASCII code.
abbrev pub IsProjectByte : ℕ → Type 0
IsProjectByte b =
    ((48 ≤ b) × (b ≤ 57))
    ⊎ (((65 ≤ b) × (b ≤ 90)) ⊎ (((97 ≤ b) × (b ≤ 122)) ⊎ ((b ≡ 45) ⊎ (b ≡ 95))))

pub record IsValid (c : Config) : Type 0 where
  pub tunnel_type : trim c.tunnel.tunnel_type ≢ []
  pub region : trim c.tunnel.region ≢ []
  pub instance_type : trim c.tunnel.instance_type ≢ []
  pub project_name : trim c.tunnel.project_name ≢ []
  pub project_bytes : All IsProjectByte c.tunnel.project_name
  pub services : c.service ≢ []
  pub runnable : All IsRunnable c.service

validate_services_iff :
    (s : List (Text × ServiceConfig)) → (validate_services s ≡ ok tt) ↔ All IsRunnable s
unfolding validate_services
validate_services_iff [] = (λ e. tt, λ v. refl)
validate_services_iff ((name, svc) ∷ s) = ground (arith, validate_services_iff s)

project_byte_iff : (b : ℕ) → (project_byte b ≡ true) ↔ IsProjectByte b
unfolding project_byte is_ascii_alphanumeric
project_byte_iff b = ground arith

all-project_byte_iff : (s : Text) → (all project_byte s ≡ true) ↔ All IsProjectByte s
all-project_byte_iff [] = (λ e. tt, λ v. refl)
all-project_byte_iff (b ∷ s) = ground (arith, project_byte_iff b, all-project_byte_iff s)

-- The validation passes exactly the configurations with a type, a region, an instance type and a
-- project name that are not blank, the project name of ASCII letters, digits, "-" and "_", with at
-- least one service, and where no service has port 0 or a blank command.
pub validate_iff : (c : Config) → (validate c ≡ ok tt) ↔ IsValid c
unfolding validate
validate_iff c = (
  λ e. record {
    tunnel_type = ground arith;
    region = ground arith;
    instance_type = ground arith;
    project_name = ground arith;
    project_bytes = (all-project_byte_iff c.tunnel.project_name).0 (ground arith);
    services = ground arith;
    runnable = (validate_services_iff c.service).0 (ground arith);
  },
  λ v. ground (
    arith,
    (validate_services_iff c.service).1 v.runnable,
    (all-project_byte_iff c.tunnel.project_name).1 v.project_bytes,
  ),
)
