-- ===== src/Aws/Groups.antt =====
-- `ensure_security_group` of src/aws_bastion_provisioner.rs, over the calls of the EC2 client.
use ephemwork.Prelude.{ℕ, Option, none, some, List, [], ◌∷◌, Result, ok, err}
use ephemwork.Text.{Text}
use ephemwork.Provisioner.Calls.{Call, ◌>>=◌, ◌>>◌, done}
use ephemwork.Provisioner.Plans.{
  IngressSource, security_group, cidr, IngressRule, SecurityGroupPlan,
}

-- The `IpPermission` of a rule: the pairs are a group and a description.
pub record Permission : Type 0 where
  pub ip_protocol : Text
  pub from_port : ℕ
  pub to_port : ℕ
  pub user_id_group_pairs : List (Text × Text)

-- What an authorization gives; `duplicate` is InvalidPermission.Duplicate.
pub data Authorized {κ} (E : Type κ) : Type κ where
  authorized duplicate : Authorized E
  rejected : E → Authorized E

pub record Ec2 {ℓ κ} (S : Type ℓ) (E : Type κ) : Type (ℓ ⊔ κ) where
  pub no_vpc_source : E
  pub no_group_id : E
  -- The first group of the name, by its id.
  pub find_security_group_by_name : Text → Call S E (Option Text)
  pub vpc_id_for_security_group : Text → Call S E Text
  -- A name, a description and a VPC.
  pub create_security_group : Text → Text → Text → Call S E (Option Text)
  pub authorize_security_group_ingress : Text → Permission → S → S × Authorized E

-- `find_map` to the first source that is a group.
unfoldable pub alb_source : List IngressRule → Option Text
alb_source [] = none
alb_source (rule ∷ rules) =
    let rest = alb_source rules in
    elim rule.source [ security_group id ↦ some id | cidr range ↦ rest ]

abbrev pub pairs_of : IngressSource → Text → List (Text × Text)
pairs_of (security_group src_sg) description = (src_sg, description) ∷ []
pairs_of (cidr range) description = []

-- A range of addresses is left out.
unfoldable pub permission_of : IngressRule → Permission
permission_of rule = record {
  ip_protocol = rule.protocol;
  from_port = rule.from_port;
  to_port = rule.to_port;
  user_id_group_pairs = pairs_of rule.source rule.description;
}

unfoldable pub tolerated {κ} : {E : Type κ} → Authorized E → Result E (Unit {0})
tolerated authorized = ok tt
tolerated duplicate = ok tt
tolerated (rejected e) = err e

module _ {ℓ κ} {S : Type ℓ} {E : Type κ} (p : Ec2 S E) where
  unfoldable pub some_or {μ} : {A : Type μ} → E → Option A → Call S E A
  some_or e none = done (err e)
  some_or e (some a) = done (ok a)

  unfoldable pub group_or_create : SecurityGroupPlan → Option Text → Call S E Text
  group_or_create plan (some existing) = done (ok existing)
  group_or_create plan none = do
    alb_sg ← some_or p.no_vpc_source (alb_source plan.ingress)
    vpc_id ← p.vpc_id_for_security_group alb_sg
    created ← p.create_security_group plan.name plan.description vpc_id
    some_or p.no_group_id created

  unfoldable pub authorize : Text → IngressRule → Call S E (Unit {0})
  authorize sg_id rule s =
      let out = p.authorize_security_group_ingress sg_id (permission_of rule) s in
      (out.0, tolerated out.1)

  unfoldable pub authorize_each : Text → List IngressRule → Call S E (Unit {0})
  authorize_each sg_id [] = done (ok tt)
  authorize_each sg_id (rule ∷ rules) = do authorize sg_id rule; authorize_each sg_id rules

  unfoldable pub ensure_security_group : SecurityGroupPlan → Call S E Text
  ensure_security_group plan = do
    existing ← p.find_security_group_by_name plan.name
    sg_id ← group_or_create plan existing
    authorize_each sg_id plan.ingress
    done (ok sg_id)
