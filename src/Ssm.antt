-- ===== src/Ssm.antt =====
-- Port forwards through Session Manager (src/ssm.rs): the arguments of `aws ssm start-session`
-- and the specifications in the configuration. The processes themselves are not modelled here.
pub mod Specs
use ephemwork.Prelude.{
  ℕ, Bool, true, false, ◌||◌, Option, none, some, List, [], ◌∷◌, ◌++◌, Result, ok, err, ◌>>=◌, ◌>>◌,
  ok_or, guard, not, is_empty, ◌==◌,
}
use ephemwork.Text.{Text, codes, trim}
use ephemwork.Text.Decimal.{decimal, parse_unsigned, u16_max}
use ephemwork.Text.Splitting.{split_char}

pub record PortForwardSpec : Type 0 where
  pub target : Text
  pub remote_port : ℕ
  pub region : Text

pub record RemoteHostForwardSpec : Type 0 where
  pub target : Text
  pub remote_host : Text
  pub remote_port : ℕ
  pub local_port : ℕ
  pub region : Text

unfoldable pub build_start_session_args : PortForwardSpec → ℕ → List Text
build_start_session_args spec local_port =
    codes "ssm"
    ∷ codes "start-session"
    ∷ codes "--region"
    ∷ spec.region
    ∷ codes "--target"
    ∷ spec.target
    ∷ codes "--document-name"
    ∷ codes "AWS-StartPortForwardingSession"
    ∷ codes "--parameters"
    ∷ (codes "portNumber=[\""
        ++ (decimal spec.remote_port
            ++ (codes "\"],localPortNumber=[\"" ++ (decimal local_port ++ codes "\"]"))))
    ∷ []

unfoldable pub build_remote_host_session_args : RemoteHostForwardSpec → List Text
build_remote_host_session_args spec =
    codes "ssm"
    ∷ codes "start-session"
    ∷ codes "--region"
    ∷ spec.region
    ∷ codes "--target"
    ∷ spec.target
    ∷ codes "--document-name"
    ∷ codes "AWS-StartPortForwardingSessionToRemoteHost"
    ∷ codes "--parameters"
    ∷ (codes "host=[\""
        ++ (spec.remote_host
            ++ (codes "\"],portNumber=[\""
                ++ (decimal spec.remote_port
                    ++ (codes "\"],localPortNumber=[\""
                        ++ (decimal spec.local_port ++ codes "\"]"))))))
    ∷ []

pub record ForwardPortSpec : Type 0 where
  pub local_port : ℕ
  pub remote_host : Text
  pub remote_port : ℕ

-- Each error names the text.
pub data SpecError : Type 0 where
  not_three_parts bad_local_port empty_remote_host bad_remote_port zero_port : Text → SpecError

abbrev pub three_parts : List Text → Option (Text × Text × Text)
three_parts (a ∷ b ∷ c ∷ []) = some (a, b, c)
three_parts _ = none

unfoldable pub parse_forward_port_spec : Text → Result SpecError ForwardPortSpec
parse_forward_port_spec raw = do
  (first, second, third) ← ok_or (three_parts (split_char b':' raw)) (not_three_parts raw)
  local_port ← ok_or (parse_unsigned u16_max first) (bad_local_port raw)
  guard (not (is_empty (trim second))) (empty_remote_host raw)
  remote_port ← ok_or (parse_unsigned u16_max third) (bad_remote_port raw)
  guard (not (local_port == 0 || remote_port == 0)) (zero_port raw)
  ok (record { local_port = local_port; remote_host = trim second; remote_port = remote_port })
