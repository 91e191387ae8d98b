-- ===== src/Approval.antt =====
-- `validate_revision_for_approval` of exchange_agreement/services/contract_revisions.py: every issue
-- of a draft's composition, in the order in which the source reports them.
pub mod Complete
use rpsd_config.Common.{
  issue_if, is_nil, ℕ, String, Bool, true, false, not, ◌&&◌, ◌||◌, Option, none, some, List, [],
  ◌∷◌, ◌++◌, Result, ok, err, exists_row, ◌==◌, if◌then◌else◌,
}
use rpsd_config.Json.{Json}
use rpsd_config.Texts.{is_empty}
use rpsd_config.Business.{BusinessError, validate_business_configuration}
use rpsd_config.Models.{
  is_published, is_active, Profile, ProfileInput, ProfileIndicator, Configuration, Revision,
}
use rpsd_config.Revisions.{
  Issue, profile_not_published, orchestration_flow_not_published, missing_flow_reference,
  missing_inputs, input_not_in_profile, input_flow_not_published,
  dataset_specification_not_published, dataset_not_active, missing_indicators,
  indicator_not_in_profile, multiple_versions_for_indicator, indicator_not_published,
  indicator_not_active, missing_indicator_execution_reference, invalid_business_configuration,
  snapshot_issue,
}

unfoldable pub profile_issues : Profile → List Issue → List Issue
profile_issues profile rest =
    let flow = profile.orchestration_flow_version in
    issue_if (not (is_published profile.status)) profile_not_published (
      issue_if (not (is_published flow.status)) orchestration_flow_not_published (
        issue_if (is_empty flow.deployment_name || is_empty flow.artifact_identifier)
          missing_flow_reference rest))

-- One round of the loop over the selected inputs.
unfoldable pub input_issues : Profile → ProfileInput → List Issue → List Issue
input_issues profile input rest =
    let flow = input.input_flow_version in
    let specification = flow.dataset_specification in
    if input.processing_profile_version_id == profile.pk
    then issue_if (not (is_published flow.status)) input_flow_not_published (
        issue_if (is_empty flow.deployment_name || is_empty flow.artifact_identifier)
          missing_flow_reference
          (issue_if (not (is_published specification.status)) dataset_specification_not_published
            (issue_if (not (is_active specification.dataset.status)) dataset_not_active rest)))
    else input_not_in_profile ∷ rest

unfoldable pub inputs_issues : Profile → List ProfileInput → List Issue → List Issue
inputs_issues profile [] rest = rest
inputs_issues profile (input ∷ inputs) rest =
    input_issues profile input (inputs_issues profile inputs rest)

abbrev pub is_refused : Result BusinessError Json → Bool
is_refused (ok v) = false
is_refused (err e) = true

unfoldable pub business_issues : Configuration → List Issue → List Issue
business_issues c rest =
    issue_if (is_refused (validate_business_configuration c.thresholds))
      invalid_business_configuration
      (issue_if (is_refused (validate_business_configuration c.aggregation))
        invalid_business_configuration
        (issue_if (is_refused (validate_business_configuration c.penalties))
          invalid_business_configuration
          (issue_if (is_refused (validate_business_configuration c.parameters))
            invalid_business_configuration rest)))

-- `indicator_id in configured_logical_indicator_ids`
abbrev pub seen : ℕ → List ℕ → Bool
seen id ids = exists_row (λ j. j == id) ids

-- What one configuration of the profile is checked for; `ids` are the logical indicators so far.
unfoldable pub configuration_issues : List ℕ → Configuration → List Issue → List Issue
configuration_issues ids c rest =
    let version = c.processing_profile_indicator_version.indicator_version in
    issue_if (seen version.indicator.pk ids) multiple_versions_for_indicator (
      issue_if (not (is_published version.status)) indicator_not_published (
        issue_if (not (is_active version.indicator.status)) indicator_not_active (
          issue_if
            (not (is_empty version.execution_engine)
              && (is_empty version.execution_reference || is_empty version.artifact_identifier))
            missing_indicator_execution_reference (business_issues c rest))))

abbrev pub in_profile : Profile → Configuration → Bool
in_profile profile c =
    c.processing_profile_indicator_version.processing_profile_version_id == profile.pk

abbrev pub indicator_id : Configuration → ℕ
indicator_id c = c.processing_profile_indicator_version.indicator_version.indicator.pk

-- The loop over the configurations.
unfoldable pub configurations_issues : Profile → List ℕ → List Configuration → List Issue
configurations_issues profile ids [] = []
configurations_issues profile ids (c ∷ cs) =
    let skipped = indicator_not_in_profile ∷ configurations_issues profile ids cs in
    let checked =
      configuration_issues ids c (configurations_issues profile (indicator_id c ∷ ids) cs) in
    if in_profile profile c then checked else skipped

-- All the checks before the snapshot is built.
unfoldable pub composition_issues : Revision → List Issue
composition_issues revision =
    let profile = revision.processing_profile_version in
    profile_issues profile (
      issue_if (is_nil revision.inputs) missing_inputs (
        inputs_issues profile revision.inputs (
          issue_if (is_nil revision.configurations) missing_indicators
            (configurations_issues profile [] revision.configurations))))

abbrev pub snapshot_issues : Option Json → List Issue
snapshot_issues none = snapshot_issue ∷ []
snapshot_issues (some snapshot) = []

-- The snapshot is tried only where the composition has no issue. `build_revision_snapshot` returns
-- `none` where it raises a validation error.
unfoldable pub validate_revision_for_approval : (Revision → Option Json) → Revision → List Issue
validate_revision_for_approval build_revision_snapshot revision =
    let issues = composition_issues revision in
    if is_nil issues then snapshot_issues (build_revision_snapshot revision) else issues
