-- ===== src/Tests/Lifecycle.antt =====
-- Approval and withdrawal on the sample contract.
use rpsd_config.Common.{
  ℕ, String, ◌≤◌, ◌<◌, ◌≡◌, refl, sym, ◌∙◌, Bool, true, false, Option, some, none, List, In, inl,
  inr, ◌⊎◌, Result, ok, err, arith,
}
use rpsd_config.Models.{Db, Revision, is_approved}
use rpsd_config.Rbac
use rpsd_config.Revisions
use rpsd_config.Revisions.{RevisionError, current_revision, candidate, later}
use rpsd_config.Revisions.Periods.{HasUniqueDates}
use rpsd_config.Texts.{strip, strip_left, strip_right}
use rpsd_config.Json.Checksum.{canonical_snapshot_checksum}
use rpsd_config.Lifecycle
use rpsd_config.Lifecycle.{
  Frozen, as_approved, write_approval, approve_contract_revision, as_withdrawn, write_withdrawal,
  withdraw_contract_revision,
}
use rpsd_config.Lifecycle.Checks.{IsApproval}
use rpsd_config.Models.{Contract}
use rpsd_config.Common.{[], ◌∷◌}
use rpsd_config.Tests.Samples.{revision_of, db_of}
use rpsd_config.Models
use rpsd_config.Lifecycle.History.{
  approve-IsApproval, HasUniquePks, approve-keeps_history, withdraw-keeps_history,
}
use rpsd_config.Lifecycle.Invariant.{IsConsistent, IsSound, approve-IsConsistent}
use rpsd_config.Lifecycle.Reach.{
  Reach, here, next, Step, approval, withdrawal, Reach-IsConsistent, Reach-RowsEvolve,
}
use rpsd_config.Lifecycle.Evolution.{RowsEvolve}
use rpsd_config.Tests.Samples.{first, second, user, runtime_at, rows, db, stored_snapshot, digest}

abbrev frozen : Frozen
frozen = record { stored = stored_snapshot; schema_version = "1.0"; checksum = "sha256:digest" }

abbrev approved_second : Revision
approved_second = as_approved (runtime_at 150) user frozen second

abbrev db_approved : Db
db_approved = write_approval (runtime_at 150) user second frozen db

-- The draft can be approved fifty days before it starts.
approves :
    approve_contract_revision (runtime_at 150) second user db ≡ (ok approved_second, db_approved)
unfolding approve_contract_revision Lifecycle.check_approval Lifecycle.get_contract
    Lifecycle.get_revision Lifecycle.check_start Lifecycle.approved_of Lifecycle.in_sequence
    rpsd_config.Common.first_by Lifecycle.freeze rpsd_config.Approval.validate_revision_for_approval
    rpsd_config.Approval.composition_issues rpsd_config.Approval.profile_issues
    rpsd_config.Approval.inputs_issues rpsd_config.Approval.input_issues
    rpsd_config.Approval.configurations_issues rpsd_config.Approval.configuration_issues
    rpsd_config.Approval.business_issues rpsd_config.Business.is_scheduling_key
    rpsd_config.Business.normalize_json_value rpsd_config.Business.validate_business_configuration
    rpsd_config.Json.Access.field_of rpsd_config.Json.Access.get
    rpsd_config.Json.Canonical.all_text_keys rpsd_config.Json.Canonical.canonical_value
    rpsd_config.Json.Canonical.collect rpsd_config.Json.Canonical.insert_entry
    rpsd_config.Json.Canonical.sort_entries rpsd_config.Json.Canonical.text_lt
    rpsd_config.Json.Checksum.canonical_snapshot_checksum
    rpsd_config.Permissions.can_approve_contract_revision rpsd_config.Rbac.match_group
    rpsd_config.Rbac.after rpsd_config.Rbac.contains rpsd_config.Rbac.is_agency_key
    rpsd_config.Rbac.key_and_role rpsd_config.Rbac.key_tail
    rpsd_config.Rbac.platform_admin_group_path rpsd_config.Rbac.resolve_user_agency_scope
    rpsd_config.Rbac.scope_of_groups rpsd_config.Rbac.segment rpsd_config.Rbac.suffix_role
    rpsd_config.Revisions.Dates.later rpsd_config.Texts.lower_is rpsd_config.Texts.strip
    rpsd_config.Texts.strip_left rpsd_config.Texts.strip_right
approves = refl

row_cases : (x : Revision) → In x rows → (x ≡ first) ⊎ (x ≡ second)
row_cases x (inl e) = inl e
row_cases x (inr (inl e)) = inr e
row_cases x (inr (inr m)) = absurd m

distinct_keys : HasUniquePks rows
distinct_keys x y mx my h = elim (row_cases x mx) [
  | inl e ↦ elim (row_cases y my) [ inl f ↦ e ∙ sym f | inr f ↦ absurd (ground (arith, e, f)) ]
  | inr e ↦ elim (row_cases y my) [ inl f ↦ absurd (ground (arith, e, f)) | inr f ↦ e ∙ sym f ]
]

distinct_dates : HasUniqueDates rows
distinct_dates x y mx my ax ay own d = elim (row_cases x mx) [
  | inl e ↦ elim (row_cases y my) [ inl f ↦ e ∙ sym f | inr f ↦ absurd (ground (arith, f)) ]
  | inr e ↦ absurd (ground (arith, e))
]

first-IsSound : IsSound digest first
unfolding canonical_snapshot_checksum rpsd_config.Json.Canonical.all_text_keys
    rpsd_config.Json.Canonical.canonical_value rpsd_config.Json.Canonical.collect
    rpsd_config.Json.Canonical.insert_entry rpsd_config.Json.Canonical.sort_entries
    rpsd_config.Json.Canonical.text_lt
first-IsSound = record { dated = λ e. cc; checksum = refl }

rows-IsSound : (r : Revision) → In r rows → is_approved r.status ≡ true → IsSound digest r
rows-IsSound r m a = elim (row_cases r m) [
  | inl e ↦ rw e first-IsSound
  | inr e ↦ absurd (ground (arith, e))
]

rows-IsConsistent : IsConsistent digest rows
rows-IsConsistent = record {
  unique_pks = distinct_keys;
  unique_dates = distinct_dates;
  sound = rows-IsSound;
}

approve-Step : Step digest db (approve_contract_revision (runtime_at 150) second user db).1
approve-Step = approval (runtime_at 150) second user refl refl

abbrev db_withdrawn : Db
db_withdrawn =
    (withdraw_contract_revision (runtime_at 160) second " error " user
      (approve_contract_revision (runtime_at 150) second user db).1).1

both_calls : Reach digest db db_withdrawn
both_calls =
    next (next here approve-Step) (withdrawal (runtime_at 160) second " error " user refl refl)

withdraws : withdraw_contract_revision (runtime_at 160) second " error " user db_approved ≡ (
  ok (as_withdrawn (runtime_at 160) user " error " approved_second),
  write_withdrawal (runtime_at 160) user " error " approved_second db_approved,
)
unfolding withdraw_contract_revision write_approval Lifecycle.check_withdrawal
    Lifecycle.get_contract rpsd_config.Permissions.can_withdraw_contract_revision
    rpsd_config.Permissions.can_approve_contract_revision rpsd_config.Rbac.match_group
    rpsd_config.Rbac.after rpsd_config.Rbac.contains rpsd_config.Rbac.is_agency_key
    rpsd_config.Rbac.key_and_role rpsd_config.Rbac.key_tail
    rpsd_config.Rbac.platform_admin_group_path rpsd_config.Rbac.resolve_user_agency_scope
    rpsd_config.Rbac.scope_of_groups rpsd_config.Rbac.segment rpsd_config.Rbac.suffix_role
    rpsd_config.Texts.strip rpsd_config.Texts.strip_left rpsd_config.Texts.strip_right
withdraws = refl

Reach-RowsEvolve_example : RowsEvolve db db_withdrawn
Reach-RowsEvolve_example = Reach-RowsEvolve digest db rows-IsConsistent both_calls

Reach-IsConsistent_example : IsConsistent digest db_withdrawn.revisions
Reach-IsConsistent_example = Reach-IsConsistent digest db rows-IsConsistent both_calls

approve-keeps_history_example :
    current_revision 7 149 db_approved.revisions ≡ current_revision 7 149 rows
approve-keeps_history_example =
    approve-keeps_history (runtime_at 150) second user db db_approved approved_second 7 149
      distinct_keys approves (omega arith)

-- What is stored is still consistent after the approval.
approved_keys : HasUniquePks db_approved.revisions
approved_keys =
    (rw approves at
      (approve-IsConsistent (runtime_at 150) second user db rows-IsConsistent)).unique_pks

withdraw-keeps_history_example :
    current_revision 7 160
      (write_withdrawal (runtime_at 160) user " error " approved_second db_approved).revisions
    ≡ current_revision 7 160 db_approved.revisions
withdraw-keeps_history_example =
    withdraw-keeps_history (runtime_at 160) second " error " user db_approved
      (write_withdrawal (runtime_at 160) user " error " approved_second db_approved)
      (as_withdrawn (runtime_at 160) user " error " approved_second) 7 160 approved_keys withdraws
      (omega arith)

approve-IsApproval_example :
    (locked : Revision) × (start : ℕ) × (fixed : Frozen) × IsApproval
      (runtime_at 150)
      second
      user
      db
      locked
      start
      fixed
    × (approved_second ≡ as_approved (runtime_at 150) user fixed locked)
    × (db_approved ≡ write_approval (runtime_at 150) user locked fixed db)
approve-IsApproval_example =
    approve-IsApproval (runtime_at 150) second user db db_approved approved_second approves

-- A draft that starts with the contract, and nothing approved before.
abbrev opening : Revision
opening = revision_of 3 1 100 Models.RevisionRows.draft stored_snapshot

abbrev db_opening : Db
db_opening = db_of (opening ∷ [])

approves_opening : approve_contract_revision (runtime_at 50) opening user db_opening ≡ (
  ok (as_approved (runtime_at 50) user frozen opening),
  write_approval (runtime_at 50) user opening frozen db_opening,
)
unfolding approve_contract_revision Lifecycle.check_approval Lifecycle.get_contract
    Lifecycle.get_revision Lifecycle.check_start Lifecycle.approved_of Lifecycle.in_sequence
    rpsd_config.Common.first_by Lifecycle.freeze rpsd_config.Approval.validate_revision_for_approval
    rpsd_config.Approval.composition_issues rpsd_config.Approval.profile_issues
    rpsd_config.Approval.inputs_issues rpsd_config.Approval.input_issues
    rpsd_config.Approval.configurations_issues rpsd_config.Approval.configuration_issues
    rpsd_config.Approval.business_issues rpsd_config.Business.is_scheduling_key
    rpsd_config.Business.normalize_json_value rpsd_config.Business.validate_business_configuration
    rpsd_config.Json.Access.field_of rpsd_config.Json.Access.get
    rpsd_config.Json.Canonical.all_text_keys rpsd_config.Json.Canonical.canonical_value
    rpsd_config.Json.Canonical.collect rpsd_config.Json.Canonical.insert_entry
    rpsd_config.Json.Canonical.sort_entries rpsd_config.Json.Canonical.text_lt
    rpsd_config.Json.Checksum.canonical_snapshot_checksum
    rpsd_config.Permissions.can_approve_contract_revision rpsd_config.Rbac.match_group
    rpsd_config.Rbac.after rpsd_config.Rbac.contains rpsd_config.Rbac.is_agency_key
    rpsd_config.Rbac.key_and_role rpsd_config.Rbac.key_tail
    rpsd_config.Rbac.platform_admin_group_path rpsd_config.Rbac.resolve_user_agency_scope
    rpsd_config.Rbac.scope_of_groups rpsd_config.Rbac.segment rpsd_config.Rbac.suffix_role
    rpsd_config.Revisions.Dates.later rpsd_config.Texts.lower_is rpsd_config.Texts.strip
    rpsd_config.Texts.strip_left rpsd_config.Texts.strip_right
approves_opening = refl
