-- ===== src/Memberships/Changes.antt =====
-- `assign_agency_membership`, `change_agency_membership_role` and `revoke_agency_membership` of
-- exchange_agreement/services/agency_memberships.py.
use rpsd_config.Common.Actions.{◌>>=◌, ◌>>◌}
use rpsd_config.Common.{
  ℕ, String, Bool, Option, none, some, Result, ok, err, Action, pure, raise, gets, lift, str_eq,
  if◌then◌else◌,
}
use rpsd_config.Texts.{is_empty}
use rpsd_config.Models.{Agency, AgencyRole, AgencyMembership, MembershipSource}
use rpsd_config.Rbac.{User, agency_role_to_group_path}
use rpsd_config.Memberships.Provider.{
  GroupRef, KeycloakAdminService, World, MembershipError, permission_denied, removal_failed, called,
  attempted,
}
use rpsd_config.Memberships.Enrolment.{
  DirectoryUser, ensure_actor_can_manage_agency, validate_role, Enrolled, keycloak_user_id_for_user,
  enroll,
}
use rpsd_config.Memberships.Stored.{
  effective_role, update_or_create, existing_membership, save_fields, as_sync_error, with_role,
  as_revoked_by,
}

-- The arguments of an assignment.
pub record AssignmentRequest : Type 0 where
  pub actor : Option User
  pub agency : Agency
  pub user : DirectoryUser
  pub role : String
  pub source : MembershipSource
  pub enforce_actor_permission : Bool
  pub preserve_higher_local_role : Bool

-- The actor may be none, who manages no agency.
abbrev pub check_actor : String → Option User → Agency → Result MembershipError (Unit {0})
check_actor root none agency = err permission_denied
check_actor root (some actor) agency = ensure_actor_can_manage_agency root actor agency

abbrev pub permission : String → AssignmentRequest → Result MembershipError (Unit {0})
permission root a = if a.enforce_actor_permission then check_actor root a.actor a.agency else ok tt

abbrev pub pk_of_actor : Option User → Option ℕ
pk_of_actor none = none
pk_of_actor (some actor) = some actor.pk

-- The arguments of a change or a revocation: the membership, with its agency and its user.
pub record Subject : Type 0 where
  pub actor : User
  pub agency : Agency
  pub user : DirectoryUser
  pub membership : AgencyMembership

module _ {K : Type 0} (kc : KeycloakAdminService K) where
  abbrev pub remove_from : String → Option GroupRef → Action String K (Unit {0})
  remove_from user_id none = pure tt
  remove_from user_id (some g) = kc.remove_user_from_group user_id g.id

  -- The group of the old role is left, unless it is the new one.
  abbrev pub leave_group : String → String → Option GroupRef → Action String K (Unit {0})
  leave_group user_id new_id none = pure tt
  leave_group user_id new_id (some g) =
      if str_eq g.id new_id then pure tt else kc.remove_user_from_group user_id g.id

  unfoldable pub leave_old_group : String → Enrolled → Action String K (Unit {0})
  leave_old_group path enrolled = do
    old ← kc.get_group_by_path path
    leave_group enrolled.user_id enrolled.group.id old

-- What follows the removal from the old group.
abbrev pub after_removal :
    {K : Type 0}
    → ℕ
    → Subject
    → AgencyRole
    → Enrolled
    → Result String (Unit {0})
    → Action MembershipError (World K) AgencyMembership
after_removal now s role enrolled (ok done) =
    save_fields (with_role now s.actor.pk role enrolled) s.membership
after_removal now s role enrolled (err message) =
    save_fields (as_sync_error now s.actor.pk enrolled message) s.membership
    >> raise (removal_failed message)

abbrev pub group_path : String → Subject → String
group_path root s =
    if is_empty s.membership.keycloak_group_path
    then agency_role_to_group_path root s.agency.agency_key s.membership.role
    else s.membership.keycloak_group_path

module _ {K : Type 0} (kc : KeycloakAdminService K) (social_uid : ℕ → String) (root : String) where
  unfoldable pub assign_agency_membership :
      ℕ → AssignmentRequest → Action MembershipError (World K) AgencyMembership
  unfolding enroll update_or_create effective_role
  assign_agency_membership now a = do
    lift (permission root a)
    role ← lift (validate_role a.role)
    existing ← gets (existing_membership a.agency.pk a.user.pk)
    let effective = effective_role a.preserve_higher_local_role existing role
    enrolled ← enroll kc social_uid a.agency a.user effective
    update_or_create
        (record {
          now = now;
          actor_id = pk_of_actor a.actor;
          role = effective;
          source = a.source;
          enrolled = enrolled;
        })
        a.agency.pk a.user.pk

  unfoldable pub change_agency_membership_role :
      ℕ → Subject → String → Action MembershipError (World K) AgencyMembership
  unfolding enroll save_fields leave_old_group
  change_agency_membership_role now s new_role = do
    lift (ensure_actor_can_manage_agency root s.actor s.agency)
    role ← lift (validate_role new_role)
    enrolled ← enroll kc social_uid s.agency s.user role
    removed ← attempted (
        leave_old_group kc (agency_role_to_group_path root s.agency.agency_key s.membership.role)
          enrolled)
    after_removal now s role enrolled removed

  abbrev pub known_user_id : Subject → Action MembershipError (World K) String
  known_user_id s =
      if is_empty s.membership.keycloak_user_id
      then keycloak_user_id_for_user kc social_uid s.user
      else pure s.membership.keycloak_user_id

  unfoldable pub revoke_agency_membership :
      ℕ → Subject → Action MembershipError (World K) AgencyMembership
  unfolding save_fields keycloak_user_id_for_user
  revoke_agency_membership now s = do
    lift (ensure_actor_can_manage_agency root s.actor s.agency)
    group ← called (kc.get_group_by_path (group_path root s))
    user_id ← known_user_id s
    called (remove_from kc user_id group)
    save_fields (as_revoked_by now s.actor.pk user_id) s.membership
