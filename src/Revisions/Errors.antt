-- ===== src/Revisions/Errors.antt =====
-- What the revision services raise. An issue is named by its `code`; its message is not modelled.
use rpsd_config.Common.{List}
use rpsd_config.Json.Canonical.{CanonicalError}

-- `RevisionValidationIssue.code`. `snapshot_issue` is the code of a validation error of
-- services/validation_plans.py.
pub data Issue : Type 0 where
  profile_not_published orchestration_flow_not_published missing_flow_reference : Issue
  missing_inputs input_not_in_profile input_flow_not_published : Issue
  dataset_specification_not_published dataset_not_active missing_indicators : Issue
  indicator_not_in_profile multiple_versions_for_indicator indicator_not_published : Issue
  indicator_not_active missing_indicator_execution_reference : Issue
  invalid_business_configuration snapshot_issue : Issue
  invalid_revision_sequence retroactive_valid_from duplicate_valid_from : Issue
  withdrawal_reason_required profile_not_applicable : Issue
  selection_not_in_profile required_input_not_available_in_profile : Issue
  ambiguous_input_flow : Issue

pub data RevisionError : Type 0 where
  validation : List Issue → RevisionError
  canonical : CanonicalError → RevisionError
  permission_denied does_not_exist : RevisionError
  only_draft_approvable already_withdrawn not_future : RevisionError
  only_approved_has_period missing_date : RevisionError
  snapshot_not_built missing_schema_version : RevisionError
  contract_not_effective no_current_revision : RevisionError
