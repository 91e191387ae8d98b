-- ===== src/Invitations/Accept.antt =====
-- `accept_agency_invitation_for_user` of exchange_agreement/services/agency_invitations.py.
use rpsd_config.Common.Actions.{◌>>=◌, ◌>>◌}
use rpsd_config.Common.{
  ℕ, String, true, false, not, Option, none, some, List, Result, ok, err, raise_if, Action, pure,
  raise, lift, find, leb, str_eq, is_nil, if◌then◌else◌,
}
use rpsd_config.Texts.{lower, is_empty}
use rpsd_config.Models.{AgencyMembership, invitation}
use rpsd_config.Memberships.Provider.{KeycloakAdminService, World, MembershipError}
use rpsd_config.Memberships.Enrolment.{DirectoryUser}
use rpsd_config.Memberships.Changes.{AssignmentRequest, assign_agency_membership}
use rpsd_config.Invitations.{
  Invitation, InvitationIssue, Account, accepted, is_pending, invitation_issues, replace_row,
  as_expired,
}

pub data AcceptError : Type 0 where
  does_not_exist not_pending invitation_expired other_email : AcceptError
  not_provisioned : MembershipError → AcceptError
  invalid_invitation : List InvitationIssue → AcceptError

-- The provider, the memberships and the invitations.
pub record Office (K : Type 0) : Type 0 where
  pub world : World K
  pub invitations : List Invitation

-- An invitation without an email is for whoever accepts it first.
unfoldable pub check_email : Option String → String → Result AcceptError (Unit {0})
check_email none user_email = ok tt
check_email (some email) user_email =
    if is_empty email
    then ok tt
    else raise_if (not (str_eq (lower user_email) (lower email))) other_email

abbrev pub account_of : DirectoryUser → Account
account_of user = record { pk = user.pk; email = user.email }

abbrev pub as_accepted : ℕ → DirectoryUser → Invitation → Invitation
as_accepted now user i = record i {
  status = accepted;
  accepted_by = some (account_of user);
  accepted_at = some now;
  updated_at = now;
}

-- The assignment that an acceptance makes.
abbrev pub request_of : Invitation → DirectoryUser → AssignmentRequest
request_of i user = record {
  actor = i.invited_by;
  agency = i.agency;
  user = user;
  role = i.role_to_assign;
  source = invitation;
  enforce_actor_permission = false;
  preserve_higher_local_role = true;
}

abbrev not_assigned : Result MembershipError AgencyMembership → Result AcceptError AgencyMembership
not_assigned (ok m) = ok m
not_assigned (err e) = err (not_provisioned e)

module _ {K : Type 0} where
  -- `invitation.save()`, with the clean of the row
  unfoldable pub save_invitation : ℕ → Invitation → Action AcceptError (Office K) Invitation
  save_invitation now i o =
      if is_nil (invitation_issues now i)
      then (ok i, record o { invitations = replace_row i o.invitations })
      else (err (invalid_invitation (invitation_issues now i)), o)

  unfoldable pub expire_if_over : ℕ → Invitation → Action AcceptError (Office K) (Unit {0})
  unfolding save_invitation
  expire_if_over now i =
      if leb i.expires_at now
      then (save_invitation now (as_expired now i) >>= λ saved. raise invitation_expired)
      else pure tt

  -- `@transaction.atomic`: a raise rolls the tables back, and leaves the provider as it is.
  abbrev pub rolled_back :
      {A : Type 0} → Office K → Result AcceptError A → Office K → Result AcceptError A × Office K
  rolled_back o (ok a) o' = (ok a, o')
  rolled_back o (err e) o' =
      (err e, record o { world = record o.world { provider = o'.world.provider } })

module _ {K : Type 0} (kc : KeycloakAdminService K) (social_uid : ℕ → String) (root : String) where
  unfoldable pub assign_invited :
      ℕ → Invitation → DirectoryUser → Action AcceptError (Office K) AgencyMembership
  unfolding assign_agency_membership
  assign_invited now i user o =
      let after = assign_agency_membership kc social_uid root now (request_of i user) o.world in
      (not_assigned after.0, record o { world = after.1 })

  unfoldable pub accept_found :
      ℕ → Invitation → DirectoryUser → Action AcceptError (Office K) (Invitation × AgencyMembership)
  unfolding expire_if_over check_email assign_invited save_invitation
  accept_found now i user = do
    lift (raise_if (not (is_pending i.status)) not_pending)
    expire_if_over now i
    lift (check_email i.email user.email)
    membership ← assign_invited now i user
    saved ← save_invitation now (as_accepted now user i)
    pure (saved, membership)

  unfoldable pub accept_agency_invitation_for_user :
      ℕ → String → DirectoryUser → Action AcceptError (Office K) (Invitation × AgencyMembership)
  unfolding accept_found
  accept_agency_invitation_for_user now token user o =
      elim (find (λ i. str_eq i.token token) o.invitations) [
        | none ↦ (err does_not_exist, o)
        | some i ↦ let after = accept_found now i user o in rolled_back o after.0 after.1
      ]
