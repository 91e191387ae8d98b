-- ===== src/Memberships/Calls.antt =====
-- The calls of `Memberships.Changes`, and what they promise in terms of the table of roles.
use rpsd_config.Common.{
  ℕ, ◌≤◌, ◌≡◌, String, Bool, true, Option, none, some, List, Result, ok, err, Action, find, ◌⊎◌,
}
use rpsd_config.Models.{AgencyRole, role_rank, AgencyMembership}
use rpsd_config.Models.Memberships.{sync_error}
use rpsd_config.Memberships.{of_user}
use rpsd_config.Memberships.Provider.{
  KeycloakAdminService, World, MembershipError, permission_denied, unsupported_role, no_email,
  row_is_gone, provisioning_failed, removal_failed,
}
use rpsd_config.Memberships.Enrolment.{role_of_text}
use rpsd_config.Memberships.Changes.{
  AssignmentRequest, Subject, assign_agency_membership, change_agency_membership_role,
  revoke_agency_membership,
}
use rpsd_config.Memberships.Roles.{role_of, holds, put_role}

pub data Call : Type 0 where
  assignment : ℕ → AssignmentRequest → Call
  role_change : ℕ → Subject → String → Call
  revocation : ℕ → Subject → Call

unfoldable pub run :
    {K : Type 0}
    → KeycloakAdminService K
    → (ℕ → String)
    → String
    → Call
    → Action MembershipError (World K) AgencyMembership
unfolding assign_agency_membership change_agency_membership_role revoke_agency_membership
run kc social_uid root (assignment now a) = assign_agency_membership kc social_uid root now a
run kc social_uid root (role_change now s role) =
    change_agency_membership_role kc social_uid root now s role
run kc social_uid root (revocation now s) = revoke_agency_membership kc social_uid root now s

abbrev pub agency_key_of : Call → ℕ
agency_key_of (assignment now a) = a.agency.pk
agency_key_of (role_change now s role) = s.membership.agency_id
agency_key_of (revocation now s) = s.membership.agency_id

abbrev pub user_key_of : Call → ℕ
user_key_of (assignment now a) = a.user.pk
user_key_of (role_change now s role) = s.membership.user_id
user_key_of (revocation now s) = s.membership.user_id

-- The rank that an assignment may not go below.
abbrev pub floor : Bool → Option AgencyMembership → ℕ
floor true (some m) = role_rank m.role
floor _ _ = 0

-- The higher one of the requested role and the role that is preserved.
pub record IsHighest (requested : AgencyRole) (preserved : ℕ) (role : AgencyRole) : Type 0 where
  pub above_requested : role_rank requested ≤ role_rank role
  pub above_preserved : preserved ≤ role_rank role
  pub is_either : (role ≡ requested) ⊎ (role_rank role ≡ preserved)

-- The role that a call gives, or none for a revocation.
abbrev pub Gives : Call → List AgencyMembership → Option AgencyRole → Type 0
Gives (assignment now a) rows given =
    (requested role : AgencyRole) × (role_of_text a.role ≡ some requested)
    × (given ≡ some role)
    × IsHighest requested
        (floor a.preserve_higher_local_role (find (of_user a.agency.pk a.user.pk) rows)) role
Gives (role_change now s text) rows given =
    (role : AgencyRole) × (role_of_text text ≡ some role) × (given ≡ some role)
Gives (revocation now s) rows given = given ≡ none

abbrev pub IsRoleChange : Call → Type 0
IsRoleChange (role_change now s text) = Unit
IsRoleChange _ = ⊥

-- The table of roles after the call is the one before it, but for the user and agency of the call.
abbrev pub Puts : Call → List AgencyMembership → Option AgencyRole → List AgencyMembership → Type 0
Puts c before given after =
    (a u : ℕ)
    → holds after a u ≡ put_role (agency_key_of c) (user_key_of c) given (holds before) a u

abbrev pub HasSameRoles : List AgencyMembership → List AgencyMembership → Type 0
HasSameRoles before after = (a u : ℕ) → holds after a u ≡ holds before a u

-- The stored membership records that the user could not leave the old group.
abbrev pub IsOutOfSync : Call → String → List AgencyMembership → Type 0
IsOutOfSync c message after =
    (m : AgencyMembership) × (find (of_user (agency_key_of c) (user_key_of c)) after ≡ some m)
    × (m.status ≡ sync_error)
    × (m.last_sync_error ≡ message)

-- A call that returns sets the role of its user in its agency. One that raises changes no role, but
-- for a role change whose user could not leave the old group: it takes the role away.
abbrev pub Implements :
    Call
    → List AgencyMembership
    → Result MembershipError AgencyMembership
    → List AgencyMembership
    → Type 0
Implements c before (ok m) after =
    (given : Option AgencyRole) × Gives c before given
    × (role_of (some m) ≡ given)
    × Puts c before given after
Implements c before (err (removal_failed message)) after =
    IsRoleChange c × IsOutOfSync c message after × Puts c before none after
Implements c before (err permission_denied) after = HasSameRoles before after
Implements c before (err unsupported_role) after = HasSameRoles before after
Implements c before (err no_email) after = HasSameRoles before after
Implements c before (err row_is_gone) after = HasSameRoles before after
Implements c before (err (provisioning_failed message)) after = HasSameRoles before after
