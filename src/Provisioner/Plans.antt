-- ===== src/Provisioner/Plans.antt =====
-- The plan builders: names, the security group, the tags and the launch.
use ephemwork.Prelude.{
  ℕ, not, List, [], ◌∷◌, ◌++◌, Option, Result, ok, ◌>>=◌, ◌>>◌, guard, is_empty,
}
use ephemwork.Text.{Text, codes, trim}
use ephemwork.BTreeMap.{BTreeMap, insert}
use ephemwork.Config.{TunnelConfig}
use ephemwork.Provisioner.Scripts.{ScriptError, empty_group, user_data_script}

pub record BastionContext : Type 0 where
  pub project_name : Text

abbrev pub prefixed : BastionContext → Text → Text
prefixed ctx suffix = codes "ephemwork-" ++ (ctx.project_name ++ suffix)

unfoldable pub instance_name : BastionContext → Text
instance_name ctx = prefixed ctx (codes "-bastion")

unfoldable pub security_group_name : BastionContext → Text
security_group_name ctx = prefixed ctx (codes "-bastion-sg")

unfoldable pub iam_role_name : BastionContext → Text
iam_role_name ctx = prefixed ctx (codes "-bastion-role")

unfoldable pub iam_instance_profile_name : BastionContext → Text
iam_instance_profile_name ctx = prefixed ctx (codes "-bastion-instance-profile")

abbrev pub managed_policy_arns : List Text
managed_policy_arns =
    codes "arn:aws:iam::aws:policy/AmazonSSMManagedInstanceCore"
    ∷ codes "arn:aws:iam::aws:policy/AmazonS3ReadOnlyAccess"
    ∷ []

pub data IngressSource : Type 0 where
  security_group cidr : Text → IngressSource

pub record IngressRule : Type 0 where
  pub protocol : Text
  pub from_port : ℕ
  pub to_port : ℕ
  pub source : IngressSource
  pub description : Text

pub record SecurityGroupPlan : Type 0 where
  pub name : Text
  pub description : Text
  pub ingress : List IngressRule

unfoldable pub security_group_plan : BastionContext → Text → Result ScriptError SecurityGroupPlan
security_group_plan ctx alb_security_group_id = do
  guard (not (is_empty (trim alb_security_group_id))) empty_group
  ok (record {
    name = security_group_name ctx;
    description =
        codes "Inbound rules for the ephemwork bastion (project "
        ++ (ctx.project_name ++ codes ")");
    ingress =
        record {
          protocol = codes "tcp";
          from_port = 80;
          to_port = 80;
          source = security_group alb_security_group_id;
          description = codes "ALB to bastion nginx";
        }
        ∷ [];
  })

unfoldable pub instance_tags : BastionContext → BTreeMap Text
instance_tags ctx =
    insert (codes "EphemworkProject") ctx.project_name (
      insert (codes "ManagedBy") (codes "ephemwork") (insert (codes "Name") (instance_name ctx) []))

pub record LaunchPlan : Type 0 where
  pub region : Text
  pub instance_type : Text
  pub ami_id : Text
  pub subnet_id : Text
  pub security_group_id : Text
  pub instance_profile_name : Text
  pub user_data : Text
  pub tags : List (Text × Text)

unfoldable pub from_config :
    TunnelConfig
    → BastionContext
    → (ami_id subnet_id security_group_id bastion_binary_s3_uri : Text) → Option Text
    → Result ScriptError LaunchPlan
from_config cfg ctx ami_id subnet_id security_group_id bastion_binary_s3_uri ssh_authorized_key = do
  user_data ← user_data_script bastion_binary_s3_uri ssh_authorized_key
  ok (record {
    region = cfg.region;
    instance_type = cfg.instance_type;
    ami_id = ami_id;
    subnet_id = subnet_id;
    security_group_id = security_group_id;
    instance_profile_name = iam_instance_profile_name ctx;
    user_data = user_data;
    tags = instance_tags ctx;
  })
