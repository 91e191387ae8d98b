-- ===== src/Memberships/Enrolment.antt =====
-- The group of a role and the user in the identity provider
-- (exchange_agreement/services/agency_memberships.py).
use rpsd_config.Common.Actions.{◌>>=◌, ◌>>◌}
use rpsd_config.Common.{
  ℕ, String, not, Option, none, some, Result, Action, pure, raise, or_raise, raise_if, str_eq,
  if◌then◌else◌,
}
use rpsd_config.Texts.{is_empty}
use rpsd_config.Models.{Agency, AgencyRole, agency_admin, agency_editor, agency_reader}
use rpsd_config.Rbac.{User, can_manage_agency, resolve_user_agency_scope}
use rpsd_config.Memberships.Provider.{
  GroupRef, KeycloakAdminService, World, MembershipError, permission_denied, unsupported_role,
  no_email, called,
}

-- The user whose membership it is.
pub record DirectoryUser : Type 0 where
  pub pk : ℕ
  pub username : String
  pub email : String

unfoldable pub ensure_actor_can_manage_agency :
    String → User → Agency → Result MembershipError (Unit {0})
ensure_actor_can_manage_agency root actor agency =
    raise_if (not (can_manage_agency (resolve_user_agency_scope root actor) agency.agency_key))
      permission_denied

-- `_validate_role`: the role that a text names.
unfoldable pub role_of_text : String → Option AgencyRole
role_of_text role =
    if str_eq role "agency_admin"
    then some agency_admin
    else if str_eq role "agency_editor"
    then some agency_editor
    else if str_eq role "agency_reader"
    then some agency_reader
    else none

abbrev pub validate_role : String → Result MembershipError AgencyRole
validate_role role = or_raise (role_of_text role) unsupported_role

-- The group and the user in the identity provider.
pub record Enrolled : Type 0 where
  pub group : GroupRef
  pub user_id : String

module _ {K : Type 0} (kc : KeycloakAdminService K) (social_uid : ℕ → String) where
  -- `_keycloak_user_id_for_user`; `social_uid` is empty for a user without a social account.
  unfoldable pub keycloak_user_id_for_user : DirectoryUser → Action MembershipError (World K) String
  keycloak_user_id_for_user user =
      if is_empty (social_uid user.pk)
      then if is_empty user.email
        then raise no_email
        else called (
            kc.ensure_user (if is_empty user.username then user.email else user.username)
              user.email)
      else pure (social_uid user.pk)

  -- The first `try` of an assignment and of a change.
  unfoldable pub enroll :
      Agency → DirectoryUser → AgencyRole → Action MembershipError (World K) Enrolled
  unfolding keycloak_user_id_for_user
  enroll agency user role = do
    groups ← called (kc.ensure_agency_groups agency.agency_key)
    user_id ← keycloak_user_id_for_user user
    called (kc.assign_user_to_group user_id (groups role).id)
    pure (record { group = groups role; user_id = user_id })
