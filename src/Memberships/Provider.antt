-- ===== src/Memberships/Provider.antt =====
-- What exchange_agreement/services/agency_memberships.py uses of the identity provider, whose client
-- is server/keycloak_admin.py: calls that may fail, and keep what they did to the provider.
use rpsd_config.Common.{
  String, ◌≡◌, ◌≢◌, ◌⊎◌, Bool, true, false, Option, List, Result, ok, err, Action,
}
use rpsd_config.Models.{AgencyRole, AgencyMembership}

-- `KeycloakGroupRef`
pub record GroupRef : Type 0 where
  pub id : String
  pub path : String

-- The methods that are called, on the state K of the provider, with the text of the exception. (The
-- suffixes that `ensure_agency_groups` maps to groups are those of the roles.)
pub record KeycloakAdminService (K : Type 0) : Type 0 where
  pub ensure_agency_groups : String → Action String K (AgencyRole → GroupRef)
  pub get_group_by_path : String → Action String K (Option GroupRef)
  pub ensure_user : String → String → Action String K String
  pub assign_user_to_group : String → String → Action String K (Unit {0})
  pub remove_user_from_group : String → String → Action String K (Unit {0})

-- What the provider documents: a user who was added is a member of the group, and one who was removed
-- is not; neither touches other members, and a lookup changes none.
pub record IsProvider {K : Type 0} (kc : KeycloakAdminService K)
    (is_member : K → String → String → Bool) : Type 0 where
  pub added :
      (user group : String) (k : K)
      → (kc.assign_user_to_group user group k).0 ≡ ok tt
      → is_member (kc.assign_user_to_group user group k).1 user group ≡ true
  pub removed :
      (user group : String) (k : K)
      → (kc.remove_user_from_group user group k).0 ≡ ok tt
      → is_member (kc.remove_user_from_group user group k).1 user group ≡ false
  pub removed_only :
      (user group : String) (k : K) (other other_group : String)
      → (other ≢ user) ⊎ (other_group ≢ group)
      → is_member (kc.remove_user_from_group user group k).1 other other_group
        ≡ is_member k other other_group
  pub looked_up :
      (path : String) (k : K) (user group : String)
      → is_member (kc.get_group_by_path path k).1 user group ≡ is_member k user group

-- The provider and the table of memberships. There is no transaction around a call: what was written
-- before a raise stays written.
pub record World (K : Type 0) : Type 0 where
  pub provider : K
  pub memberships : List AgencyMembership

-- `removal_failed` is the `AgencyMembershipProvisioningError` of a change whose user could not leave the
-- old group; the source tells it apart by its message.
pub data MembershipError : Type 0 where
  permission_denied unsupported_role no_email row_is_gone : MembershipError
  provisioning_failed removal_failed : String → MembershipError

abbrev pub failed : {A : Type 0} → Result String A → Result MembershipError A
failed (ok a) = ok a
failed (err message) = err (provisioning_failed message)

module _ {K A : Type 0} where
  -- A call whose exceptions are raised again as `AgencyMembershipProvisioningError`.
  abbrev pub called : Action String K A → Action MembershipError (World K) A
  called m w = (failed (m w.provider).0, record w { provider = (m w.provider).1 })

  -- A call whose exceptions are caught.
  abbrev pub attempted : Action String K A → Action MembershipError (World K) (Result String A)
  attempted m w = (ok (m w.provider).0, record w { provider = (m w.provider).1 })
