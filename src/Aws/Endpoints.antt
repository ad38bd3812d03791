-- ===== src/Aws/Endpoints.antt =====
-- `missing_vpc_endpoint_ingress` of src/aws_bastion_provisioner.rs: the groups of the interface
-- endpoints of a VPC that do not admit the bastion. A `HashMap` is walked in an order that the
-- program does not choose, so that the list of groups to check is an argument in any order.
pub mod Ordered
pub mod Shuffled
use ephemwork.Prelude.{
  ℕ, Bool, true, false, not, Option, none, some, List, [], ◌∷◌, Result, ok, err, ◌>>=◌, Ordering,
  any, if◌then◌else◌,
}
use ephemwork.Text.{Text, compare_text, same}
use ephemwork.Aws.{IpPermission, ingress_allows, MissingEndpointIngress}

pub record VpcEndpoint : Type 0 where
  pub is_interface : Bool
  pub service_name : Option Text
  pub groups : List (Option Text)

abbrev pub or_empty : Option Text → Text
or_empty none = []
or_empty (some t) = t

-- `entry(gid).or_insert_with(..)`
unfoldable pub entry_or : Text → Text → List (Text × Text) → List (Text × Text)
entry_or gid service map = if any (λ e. same e.0 gid) map then map else (gid, service) ∷ map

unfoldable pub add_groups : Text → List (Option Text) → List (Text × Text) → List (Text × Text)
add_groups service [] map = map
add_groups service (none ∷ groups) map = add_groups service groups map
add_groups service (some gid ∷ groups) map = add_groups service groups (entry_or gid service map)

-- The groups to check, each with the service of the first endpoint that has it.
unfoldable pub groups_to_check : List VpcEndpoint → List (Text × Text) → List (Text × Text)
groups_to_check [] map = map
groups_to_check (ep ∷ endpoints) map =
    let added = groups_to_check endpoints (add_groups (or_empty ep.service_name) ep.groups map) in
    let skipped = groups_to_check endpoints map in if ep.is_interface then added else skipped

abbrev pub missing_of : Text × Text → MissingEndpointIngress
missing_of (sg_id, service) = record {
  endpoint_sg_id = sg_id;
  endpoint_service = service;
  port = 443;
}

abbrev pub then_with : Ordering → Ordering → Ordering
then_with Ordering.lt o = Ordering.lt
then_with Ordering.eq o = o
then_with Ordering.gt o = Ordering.gt

-- The comparison of `sort_by`.
unfoldable pub compare_missing : MissingEndpointIngress → MissingEndpointIngress → Ordering
compare_missing a b =
    then_with (compare_text a.endpoint_service b.endpoint_service)
      (compare_text a.endpoint_sg_id b.endpoint_sg_id)

abbrev pub is_gt : Ordering → Bool
is_gt Ordering.lt = false
is_gt Ordering.eq = false
is_gt Ordering.gt = true

-- `sort_by`, which keeps the order of equal elements.
unfoldable pub insert_sorted :
    MissingEndpointIngress → List MissingEndpointIngress → List MissingEndpointIngress
insert_sorted m [] = m ∷ []
insert_sorted m (n ∷ ns) =
    let rest = insert_sorted m ns in if is_gt (compare_missing m n) then n ∷ rest else m ∷ n ∷ ns

unfoldable pub sorted : List MissingEndpointIngress → List MissingEndpointIngress
unfolding insert_sorted
sorted [] = []
sorted (m ∷ ms) = insert_sorted m (sorted ms)

-- `perms_of` is `security_group_ingress`.
module _ {ℓ} {E : Type ℓ} (perms_of : Text → Result E (List IpPermission))
    (bastion_sg_id : Text) where
  unfoldable pub check_groups : List (Text × Text) → Result E (List MissingEndpointIngress)
  check_groups [] = ok []
  check_groups (g ∷ groups) =
      let rest = check_groups groups in
      perms_of g.0 >>= λ perms. rest >>= λ missing.
      if not (ingress_allows perms bastion_sg_id 443)
      then ok (missing_of g ∷ missing)
      else ok missing

  -- From the groups in the order in which the map gives them.
  unfoldable pub missing_ingress : List (Text × Text) → Result E (List MissingEndpointIngress)
  unfolding check_groups
  missing_ingress groups = check_groups groups >>= λ missing. ok (sorted missing)
