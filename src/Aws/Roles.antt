-- ===== src/Aws/Roles.antt =====
-- The role of the bastion and its instance profile: `ensure_iam_role` and `delete_iam_role` of
-- src/aws_bastion_provisioner.rs, over the calls of the IAM client.
pub mod Effects
pub mod Ready
use ephemwork.Prelude.{Bool, true, false, List, [], ◌∷◌, Result, ok, err}
use ephemwork.Text.{Text}
use ephemwork.Provisioner.Calls.{Call, ◌>>=◌, ◌>>◌, done}
use ephemwork.Provisioner.Plans.{
  BastionContext, iam_role_name, iam_instance_profile_name, managed_policy_arns,
}

-- What a lookup gives; `no_such_entity` is NoSuchEntityException.
pub data Lookup {κ} (E : Type κ) : Type κ where
  found no_such_entity : Lookup E
  refused : E → Lookup E

pub record Iam {ℓ κ} (S : Type ℓ) (E : Type κ) : Type (ℓ ⊔ κ) where
  pub get_role : Text → S → S × Lookup E
  pub get_instance_profile : Text → S → S × Lookup E
  pub create_role : Text → Call S E (Unit {0})
  pub delete_role : Text → Call S E (Unit {0})
  -- A role and a policy.
  pub attach_role_policy : Text → Text → Call S E (Unit {0})
  pub detach_role_policy : Text → Text → Call S E (Unit {0})
  pub create_instance_profile : Text → Call S E (Unit {0})
  pub delete_instance_profile : Text → Call S E (Unit {0})
  -- A profile and a role.
  pub add_role_to_instance_profile : Text → Text → Call S E (Unit {0})
  pub remove_role_from_instance_profile : Text → Text → Call S E (Unit {0})

unfoldable pub exists_of {κ} : {E : Type κ} → Lookup E → Result E Bool
exists_of found = ok true
exists_of no_such_entity = ok false
exists_of (refused e) = err e

module _ {ℓ κ} {S : Type ℓ} {E : Type κ} (p : Iam S E) where
  unfoldable pub iam_role_exists : Text → Call S E Bool
  iam_role_exists name s = ((p.get_role name s).0, exists_of (p.get_role name s).1)

  unfoldable pub instance_profile_exists : Text → Call S E Bool
  instance_profile_exists name s =
      ((p.get_instance_profile name s).0, exists_of (p.get_instance_profile name s).1)

  -- `if !exists { create_role(..)?; }`
  unfoldable pub role_unless : Bool → Text → Call S E (Unit {0})
  role_unless true role = done (ok tt)
  role_unless false role = p.create_role role

  unfoldable pub attach_each : Text → List Text → Call S E (Unit {0})
  attach_each role [] = done (ok tt)
  attach_each role (arn ∷ arns) = do p.attach_role_policy role arn; attach_each role arns

  unfoldable pub profile_unless : Bool → Text → Text → Call S E (Unit {0})
  profile_unless true profile role = done (ok tt)
  profile_unless false profile role = do
    p.create_instance_profile profile
    p.add_role_to_instance_profile profile role

  unfoldable pub ensure_iam_role : BastionContext → Call S E (Unit {0})
  ensure_iam_role ctx = do
    has_role ← iam_role_exists (iam_role_name ctx)
    role_unless has_role (iam_role_name ctx)
    attach_each (iam_role_name ctx) managed_policy_arns
    has_profile ← instance_profile_exists (iam_instance_profile_name ctx)
    profile_unless has_profile (iam_instance_profile_name ctx) (iam_role_name ctx)

  -- `let _ = ..`
  unfoldable pub ignoring : Call S E (Unit {0}) → Call S E (Unit {0})
  ignoring call s = ((call s).0, ok tt)

  unfoldable pub delete_profile_if : Bool → Text → Text → Call S E (Unit {0})
  delete_profile_if false profile role = done (ok tt)
  delete_profile_if true profile role = do
    ignoring (p.remove_role_from_instance_profile profile role)
    p.delete_instance_profile profile

  unfoldable pub detach_each : Text → List Text → Call S E (Unit {0})
  detach_each role [] = done (ok tt)
  detach_each role (arn ∷ arns) = do ignoring (p.detach_role_policy role arn); detach_each role arns

  unfoldable pub delete_role_if : Bool → Text → Call S E (Unit {0})
  delete_role_if false role = done (ok tt)
  delete_role_if true role = do detach_each role managed_policy_arns; p.delete_role role

  unfoldable pub delete_iam_role : BastionContext → Call S E (Unit {0})
  delete_iam_role ctx = do
    has_profile ← instance_profile_exists (iam_instance_profile_name ctx)
    delete_profile_if has_profile (iam_instance_profile_name ctx) (iam_role_name ctx)
    has_role ← iam_role_exists (iam_role_name ctx)
    delete_role_if has_role (iam_role_name ctx)
