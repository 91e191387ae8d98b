-- ===== src/Tests/Invitations.antt =====
-- A rejection of a pending invitation, and one that comes too late.
use rpsd_config.Common.{
  ℕ, ◌≤◌, ◌≡◌, refl, sym, ◌∙◌, true, some, none, List, [], ◌∷◌, In, inl, inr, ◌⊎◌, err, arith,
}
use rpsd_config.Invitations
use rpsd_config.Invitations.{
  Invitation, Account, pending, invitation_expired, replace_row, as_expired,
  reject_agency_invitation_for_user,
}
use rpsd_config.Tests.Samples.{agency}
use rpsd_config.Invitations.Rejected.{Changes, reject-Changes}

abbrev invitation : Invitation
invitation = record {
  pk = 1;
  token = "t";
  agency = agency;
  email = some "ann@example.org";
  role_to_assign = "agency_reader";
  invited_by = none;
  expires_at = 10;
  accepted_by = none;
  accepted_at = none;
  rejected_by = none;
  rejected_at = none;
  status = pending;
  updated_at = 1;
}

abbrev ann : Account
ann = record { pk = 5; email = "Ann@Example.org" }

abbrev rows : List Invitation
rows = invitation ∷ []

one_key : (a b : Invitation) → In a rows → In b rows → a.pk ≡ b.pk → a ≡ b
one_key a b ma mb e = elim ma [
  | inl p ↦ elim mb [ inl q ↦ p ∙ sym q | inr r ↦ absurd r ]
  | inr r ↦ absurd r
]

reject-Changes_example :
    (y : Invitation) × In y (reject_agency_invitation_for_user 7 "t" ann rows).1
    × Changes 7 ann invitation y
reject-Changes_example = reject-Changes 7 "t" ann rows invitation one_key (inl refl)

-- The expiry is stored although the call raises.
expires :
    reject_agency_invitation_for_user 12 "t" ann rows
    ≡ (err invitation_expired, replace_row (as_expired 12 invitation) rows)
unfolding reject_agency_invitation_for_user Invitations.reject_found Invitations.expire
    Invitations.invitation_issues Invitations.state_issues Invitations.not_accepted_issues
    Invitations.not_rejected_issues
expires = refl

rejects :
    (reject_agency_invitation_for_user 7 "t" ann rows).0
    ≡ rpsd_config.Common.ok (Invitations.as_rejected 7 ann invitation)
unfolding reject_agency_invitation_for_user Invitations.reject_found Invitations.check_rejection
    Invitations.validate_reject_actor_email Invitations.invitation_issues Invitations.state_issues
    Invitations.not_accepted_issues Invitations.not_rejected_issues rpsd_config.Texts.lower
    rpsd_config.Texts.strip rpsd_config.Texts.strip_left rpsd_config.Texts.strip_right
rejects = refl
