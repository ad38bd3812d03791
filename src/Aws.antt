-- ===== src/Aws.antt =====
-- The provisioner that calls AWS (src/aws_bastion_provisioner.rs): its pure checks here, the
-- encoding of the user data and the sequences of calls in the modules below. What the SDK returns
-- is a parameter.
pub mod Base64
pub mod Roles
pub mod Groups
pub mod Instances
pub mod Endpoints
use ephemwork.Prelude.{
  ℕ, zero, suc, ◌+◌, ◌≤◌, Bool, true, false, not, ◌&&◌, ◌||◌, Option, none, some, List, [], ◌∷◌,
  ◌++◌, Result, ok, err, any, leb, ◌==◌, Ordering, if◌then◌else◌,
}
use ephemwork.Text.{Text, codes, same, compare_text}
use ephemwork.Text.Decimal.{decimal}

-- What the program reads of an SDK `IpPermission`; a port is none where the rule has none. The
-- ports of a rule for TCP are not negative.
pub record IpPermission : Type 0 where
  pub ip_protocol : Option Text
  pub from_port : Option ℕ
  pub to_port : Option ℕ
  pub group_ids : List (Option Text)

abbrev pub is_text : Text → Option Text → Bool
is_text t none = false
is_text t (some s) = same s t

-- A port that is none counts as -1.
abbrev pub starts_by : Option ℕ → ℕ → Bool
starts_by none port = true
starts_by (some from) port = leb from port

abbrev pub ends_from : Option ℕ → ℕ → Bool
ends_from none port = false
ends_from (some to) port = leb port to

-- One round of the loop: whether the permission admits the group.
unfoldable pub permits : Text → ℕ → IpPermission → Bool
permits source_sg_id port p =
    is_text (codes "tcp") p.ip_protocol
    && (starts_by p.from_port port && ends_from p.to_port port)
    && any (is_text source_sg_id) p.group_ids

unfoldable pub ingress_allows : List IpPermission → Text → ℕ → Bool
ingress_allows perms source_sg_id port = any (permits source_sg_id port) perms

pub data VpcError : Type 0 where
  vpc_mismatch : (subnet_id actual_vpc expected_vpc : Text) → VpcError

unfoldable pub verify_vpc_match : Text → Text → Text → Result VpcError (Unit {0})
verify_vpc_match subnet_id actual_vpc expected_vpc =
    if not (same actual_vpc expected_vpc)
    then err (vpc_mismatch subnet_id actual_vpc expected_vpc)
    else ok tt

pub record MissingEndpointIngress : Type 0 where
  pub endpoint_sg_id : Text
  pub endpoint_service : Text
  pub port : ℕ

abbrev pub profile_arg : Option Text → Text
profile_arg none = []
profile_arg (some p) = codes " --profile " ++ p

unfoldable pub fix_command : MissingEndpointIngress → Text → Option Text → Text
fix_command m bastion_sg_id profile =
    codes "aws ec2 authorize-security-group-ingress"
    ++ (profile_arg profile
        ++ (codes " \\\n  --group-id "
            ++ (m.endpoint_sg_id
                ++ (codes " \\\n  --ip-permissions 'IpProtocol=tcp,FromPort="
                    ++ (decimal m.port
                        ++ (codes ",ToPort="
                            ++ (decimal m.port
                                ++ (codes ",UserIdGroupPairs=[{GroupId="
                                    ++ (bastion_sg_id
                                        ++ codes ",Description=\"ephemwork bastion\"}]'")))))))))
