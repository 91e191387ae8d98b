-- ===== src/Tests/Acceptance.antt =====
-- An invitation that is accepted, and one that is over.
use rpsd_config.Common.{◌≡◌, refl, some, none, [], ◌∷◌, err, false}
use rpsd_config.Models.{agency_admin}
use rpsd_config.Invitations.{Invitation, pending}
use rpsd_config.Invitations.Accept.{
  Office, invitation_expired, as_accepted, accept_agency_invitation_for_user,
}
use rpsd_config.Invitations.Accepted.{Outcome, accept-IsAccepted}
use rpsd_config.Memberships.Roles.{holds}
use rpsd_config.Tests.Samples.{agency}
use rpsd_config.Tests.Provisioning.{Members, kc, uid, colleague, reader}

abbrev invitation : Invitation
invitation = record {
  pk = 1;
  token = "t";
  agency = agency;
  email = some "C@tpl.it";
  role_to_assign = "agency_admin";
  invited_by = none;
  expires_at = 500;
  accepted_by = none;
  accepted_at = none;
  rejected_by = none;
  rejected_at = none;
  status = pending;
  updated_at = 1;
}

abbrev office : Office Members
office = record {
  world = record { provider = λ u g. false; memberships = reader ∷ [] };
  invitations = invitation ∷ [];
}

accepts :
    (accept_agency_invitation_for_user kc uid "/rpsd" 400 "t" colleague office).1.invitations
      ≡ as_accepted 400 colleague invitation ∷ []
    × (holds
          (accept_agency_invitation_for_user kc uid "/rpsd" 400 "t" colleague
            office).1.world.memberships
          1
          5
        ≡ some agency_admin)
unfolding accept_agency_invitation_for_user rpsd_config.Texts.lower
    rpsd_config.Memberships.Enrolment.role_of_text rpsd_config.Invitations.invitation_issues holds
    rpsd_config.Models.role_rank
accepts = (refl, refl)

-- The invitation stays pending.
over :
    accept_agency_invitation_for_user kc uid "/rpsd" 600 "t" colleague office
    ≡ (err invitation_expired, office)
unfolding accept_agency_invitation_for_user rpsd_config.Invitations.invitation_issues
over = refl

accept-IsAccepted_example :
    Outcome 400 "t" colleague office
      (accept_agency_invitation_for_user kc uid "/rpsd" 400 "t" colleague office).0
      (accept_agency_invitation_for_user kc uid "/rpsd" 400 "t" colleague office).1
accept-IsAccepted_example = accept-IsAccepted kc uid "/rpsd" 400 "t" colleague office
