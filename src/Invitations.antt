-- ===== src/Invitations.antt =====
-- The rejection of agency invitations in exchange_agreement/services/invitation_rejections.py, with
-- `AgencyInvitation.clean` of exchange_agreement/models.py. (Contract invitations are rejected in
-- the same way; their `clean` also looks at the role.)
pub mod Rejected
pub mod Accept
pub mod Accepted
use rpsd_config.Common.Results.{◌>>=◌, ◌>>◌}
use rpsd_config.Common.{
  ℕ, String, Bool, true, false, not, ◌&&◌, ◌||◌, Option, none, some, List, [], ◌∷◌, Result, ok, err,
  raise_if, Action, find, update_rows, leb, ◌==◌, str_eq, if◌then◌else◌, issue_if, is_nil,
}
use rpsd_config.Texts.{strip, lower, is_empty}
use rpsd_config.Models.{Agency}
use rpsd_config.Rbac.{User}

pub data InvitationStatus : Type 0 where
  pending accepted rejected expired revoked : InvitationStatus

abbrev pub is_pending : InvitationStatus → Bool
is_pending pending = true
is_pending _ = false

-- A user, by key and email.
pub record Account : Type 0 where
  pub pk : ℕ
  pub email : String

pub record Invitation : Type 0 where
  pub pk : ℕ
  pub token : String
  pub agency : Agency
  pub email : Option String
  pub role_to_assign : String
  pub invited_by : Option User
  pub expires_at : ℕ
  pub accepted_by : Option Account
  pub accepted_at : Option ℕ
  pub rejected_by : Option Account
  pub rejected_at : Option ℕ
  pub status : InvitationStatus
  pub updated_at : ℕ

pub data InvitationIssue : Type 0 where
  accepted_at_required accepted_by_required accepted_email : InvitationIssue
  rejected_at_required rejected_by_required rejected_email : InvitationIssue
  accepted_at_not_allowed accepted_by_not_allowed : InvitationIssue
  rejected_at_not_allowed rejected_by_not_allowed expires_in_past : InvitationIssue

pub data RejectError : Type 0 where
  does_not_exist not_pending invitation_expired : RejectError
  open_invitation no_actor_email other_email : RejectError
  invalid_invitation : List InvitationIssue → RejectError

abbrev pub is_missing {ℓ} : {A : Type ℓ} → Option A → Bool
is_missing none = true
is_missing (some a) = false

-- `self.email and by is not None and by.email.lower() != self.email.lower()`
abbrev pub email_differs : Option String → Option Account → Bool
email_differs none by = false
email_differs (some email) none = false
email_differs (some email) (some by) =
    not (is_empty email) && not (str_eq (lower by.email) (lower email))

unfoldable pub not_accepted_issues : Invitation → List InvitationIssue → List InvitationIssue
not_accepted_issues i rest =
    issue_if (not (is_missing i.accepted_at)) accepted_at_not_allowed
      (issue_if (not (is_missing i.accepted_by)) accepted_by_not_allowed rest)

unfoldable pub not_rejected_issues : Invitation → List InvitationIssue → List InvitationIssue
not_rejected_issues i rest =
    issue_if (not (is_missing i.rejected_at)) rejected_at_not_allowed
      (issue_if (not (is_missing i.rejected_by)) rejected_by_not_allowed rest)

unfoldable pub state_issues :
    InvitationStatus → Invitation → List InvitationIssue → List InvitationIssue
unfolding not_accepted_issues not_rejected_issues
state_issues accepted i rest = issue_if (is_missing i.accepted_at) accepted_at_required (
    issue_if (is_missing i.accepted_by) accepted_by_required
      (issue_if (email_differs i.email i.accepted_by) accepted_email (not_rejected_issues i rest)))
state_issues rejected i rest = issue_if (is_missing i.rejected_at) rejected_at_required (
    issue_if (is_missing i.rejected_by) rejected_by_required
      (issue_if (email_differs i.email i.rejected_by) rejected_email (not_accepted_issues i rest)))
state_issues _ i rest = not_accepted_issues i (not_rejected_issues i rest)

-- `clean`
unfoldable pub invitation_issues : ℕ → Invitation → List InvitationIssue
unfolding state_issues
invitation_issues now i =
    state_issues i.status i
      (issue_if (is_pending i.status && leb i.expires_at now) expires_in_past [])

-- `_validate_reject_actor_email`
unfoldable pub validate_reject_actor_email : Option String → String → Result RejectError (Unit {0})
validate_reject_actor_email none actor_email = err open_invitation
validate_reject_actor_email (some email) actor_email = do
  let normalized = lower (strip actor_email)
  raise_if (is_empty email) open_invitation
  raise_if (is_empty normalized) no_actor_email
  raise_if (not (str_eq normalized (lower email))) other_email

abbrev pub replace_row : Invitation → List Invitation → List Invitation
replace_row saved rows = update_rows (λ o. o.pk == saved.pk) (λ _. saved) rows

abbrev pub as_expired : ℕ → Invitation → Invitation
as_expired now i = record i { status = expired; updated_at = now }

abbrev pub as_rejected : ℕ → Account → Invitation → Invitation
as_rejected now actor i = record i {
  status = rejected;
  rejected_by = some actor;
  rejected_at = some now;
  updated_at = now;
}

-- An expired invitation is stored as expired and committed; the error is raised after the
-- transaction.
unfoldable pub expire : ℕ → Invitation → Action RejectError (List Invitation) Invitation
unfolding invitation_issues
expire now i rows =
    let issues = invitation_issues now (as_expired now i) in
    if is_nil issues
    then (err invitation_expired, replace_row (as_expired now i) rows)
    else (err (invalid_invitation issues), rows)

unfoldable pub check_rejection : ℕ → Account → Invitation → Result RejectError (Unit {0})
unfolding invitation_issues
check_rejection now actor i = do
  validate_reject_actor_email i.email actor.email
  let issues = invitation_issues now (as_rejected now actor i)
  raise_if (not (is_nil issues)) (invalid_invitation issues)

abbrev pub then_reject :
    ℕ
    → Account
    → Invitation
    → List Invitation
    → Result RejectError (Unit {0})
    → Result RejectError Invitation × List Invitation
then_reject now actor i rows (err e) = (err e, rows)
then_reject now actor i rows (ok u) =
    (ok (as_rejected now actor i), replace_row (as_rejected now actor i) rows)

unfoldable pub reject_found :
    ℕ → Account → Invitation → Action RejectError (List Invitation) Invitation
unfolding expire check_rejection
reject_found now actor i rows =
    if is_pending i.status
    then if leb i.expires_at now
      then expire now i rows
      else then_reject now actor i rows (check_rejection now actor i)
    else (err not_pending, rows)

unfoldable pub reject_agency_invitation_for_user :
    ℕ → String → Account → Action RejectError (List Invitation) Invitation
reject_agency_invitation_for_user now token actor rows =
    elim (find (λ i. str_eq i.token token) rows) [
      | none ↦ (err does_not_exist, rows)
      | some i ↦ reject_found now actor i rows
    ]
