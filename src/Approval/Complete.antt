-- ===== src/Approval/Complete.antt =====
-- A revision without issues is one whose whole composition is publishable, and the other way round.
use rpsd_config.Common.{
  ℕ, String, ◌≡◌, ◌≢◌, ◌↔◌, refl, true, false, not, ◌&&◌, ◌||◌, Option, none, some, List, [], ◌∷◌,
  All, arith, Bool-cases, inl, inr,
}
use rpsd_config.Json.{Json}
use rpsd_config.Texts.{is_empty}
use rpsd_config.Business.{validate_business_configuration}
use rpsd_config.Models.{is_published, is_active, Profile, ProfileInput, Configuration, Revision}
use rpsd_config.Revisions.{Issue, missing_inputs, missing_indicators}
use rpsd_config.Approval.{
  issue_if, is_nil, is_refused, profile_issues, input_issues, inputs_issues, business_issues, seen,
  configuration_issues, in_profile, indicator_id, configurations_issues, composition_issues,
  snapshot_issues, validate_revision_for_approval,
}

pub record HasReference (deployment_name artifact_identifier : String) : Type 0 where
  pub deployment : is_empty deployment_name ≡ false
  pub artifact : is_empty artifact_identifier ≡ false

pub record IsReadyProfile (profile : Profile) : Type 0 where
  pub profile_published : is_published profile.status ≡ true
  pub flow_published : is_published profile.orchestration_flow_version.status ≡ true
  pub reference :
      HasReference profile.orchestration_flow_version.deployment_name
        profile.orchestration_flow_version.artifact_identifier

pub record IsReadyInput (profile : Profile) (input : ProfileInput) : Type 0 where
  pub of_profile : input.processing_profile_version_id ≡ profile.pk
  pub flow_published : is_published input.input_flow_version.status ≡ true
  pub reference :
      HasReference input.input_flow_version.deployment_name
        input.input_flow_version.artifact_identifier
  pub specification_published :
      is_published input.input_flow_version.dataset_specification.status ≡ true
  pub dataset_active :
      is_active input.input_flow_version.dataset_specification.dataset.status ≡ true

pub record IsAccepted (value : Json) : Type 0 where
  pub accepted : is_refused (validate_business_configuration value) ≡ false

pub record IsReadyConfiguration (profile : Profile) (c : Configuration) : Type 0 where
  pub of_profile : c.processing_profile_indicator_version.processing_profile_version_id ≡ profile.pk
  pub version_published :
      is_published c.processing_profile_indicator_version.indicator_version.status ≡ true
  pub indicator_active :
      is_active c.processing_profile_indicator_version.indicator_version.indicator.status ≡ true
  pub executable :
      not (is_empty c.processing_profile_indicator_version.indicator_version.execution_engine)
        && (is_empty c.processing_profile_indicator_version.indicator_version.execution_reference
            || is_empty
                c.processing_profile_indicator_version.indicator_version.artifact_identifier)
      ≡ false
  pub thresholds : IsAccepted c.thresholds
  pub aggregation : IsAccepted c.aggregation
  pub penalties : IsAccepted c.penalties
  pub parameters : IsAccepted c.parameters

-- Every configuration is ready, and its logical indicator is neither in `ids` nor configured again.
abbrev pub AreReady : Profile → List ℕ → List Configuration → Type 0
AreReady profile ids [] = Unit
AreReady profile ids (c ∷ cs) =
    IsReadyConfiguration profile c
    × (seen (indicator_id c) ids ≡ false)
    × AreReady profile (indicator_id c ∷ ids) cs

pub record IsApprovable (r : Revision) : Type 0 where
  pub profile : IsReadyProfile r.processing_profile_version
  pub some_input : r.inputs ≢ []
  pub inputs : All (IsReadyInput r.processing_profile_version) r.inputs
  pub some_indicator : r.configurations ≢ []
  pub configurations : AreReady r.processing_profile_version [] r.configurations

profile_issues_lem :
    (profile : Profile) (rest : List Issue)
    → (profile_issues profile rest ≡ []) ↔ (IsReadyProfile profile × (rest ≡ []))
unfolding profile_issues
profile_issues_lem profile rest = (λ h. ground arith, λ h. ground arith)

input_issues_lem :
    (profile : Profile) (input : ProfileInput) (rest : List Issue)
    → (input_issues profile input rest ≡ []) ↔ (IsReadyInput profile input × (rest ≡ []))
unfolding input_issues
input_issues_lem profile input rest = (λ h. ground arith, λ h. ground arith)

inputs_issues_lem :
    (profile : Profile) (inputs : List ProfileInput) (rest : List Issue)
    → (inputs_issues profile inputs rest ≡ []) ↔ (All (IsReadyInput profile) inputs × (rest ≡ []))
unfolding inputs_issues
inputs_issues_lem profile [] rest = (λ h. (tt, h), λ h. h.1)
inputs_issues_lem profile (input ∷ inputs) rest =
    let one = input_issues_lem profile input (inputs_issues profile inputs rest) in
    let more = inputs_issues_lem profile inputs rest in
    (
      λ h. let (ready, tail) = one.0 h in let (all, e) = more.0 tail in ((ready, all), e),
      λ h. one.1 (h.0.0, more.1 (h.0.1, h.1)),
    )

business_issues_lem :
    (c : Configuration) (rest : List Issue)
    → (business_issues c rest ≡ []) ↔ (
        IsAccepted c.thresholds
        × IsAccepted c.aggregation
        × IsAccepted c.penalties
        × IsAccepted c.parameters
        × (rest ≡ []))
unfolding business_issues
business_issues_lem c rest = (λ h. ground arith, λ h. ground arith)

configuration_issues_lem :
    (profile : Profile) (ids : List ℕ) (c : Configuration) (rest : List Issue)
    → in_profile profile c ≡ true
    → (configuration_issues ids c rest ≡ [])
      ↔ (IsReadyConfiguration profile c × (seen (indicator_id c) ids ≡ false) × (rest ≡ []))
unfolding configuration_issues
configuration_issues_lem profile ids c rest own =
    let business = business_issues_lem c rest in (λ h. ground arith, λ h. ground arith)

configurations_issues_lem :
    (profile : Profile) (ids : List ℕ) (cs : List Configuration)
    → (configurations_issues profile ids cs ≡ []) ↔ AreReady profile ids cs
unfolding configurations_issues
configurations_issues_lem profile ids [] = (λ h. tt, λ h. refl)
configurations_issues_lem profile ids (c ∷ cs) =
    let more = configurations_issues_lem profile (indicator_id c ∷ ids) cs in
    let one =
      configuration_issues_lem profile ids c
        (configurations_issues profile (indicator_id c ∷ ids) cs) in
    elim (Bool-cases (in_profile profile c)) [
      | inl own ↦ rw own (
        λ h. let (ready, fresh, tail) = (one own).0 h in (ready, fresh, more.0 tail),
        λ h. (one own).1 (h.0, h.1, more.1 h.2),
      )
      | inr other ↦ rw other (λ h. cc, λ h. ground (arith, h.0.of_profile))
    ]

-- A check that a selection is not empty.
missing_if_nil {ℓ} :
    {A : Type ℓ} (xs : List A) (issue : Issue) (rest : List Issue)
    → (issue_if (is_nil xs) issue rest ≡ []) ↔ ((xs ≢ []) × (rest ≡ []))
missing_if_nil [] issue rest = (λ h. cc, λ h. absurd (h.0 refl))
missing_if_nil (x ∷ xs) issue rest = (λ h. ((λ e. cc), h), λ h. h.1)

-- No issue of the composition is reported exactly when the profile, every selected input and every
-- configuration are ready, at least one input and one indicator are selected, and no logical
-- indicator is selected twice.
pub composition_issues_lem : (r : Revision) → (composition_issues r ≡ []) ↔ IsApprovable r
unfolding composition_issues
composition_issues_lem r =
    let profile = r.processing_profile_version in
    let indicators = configurations_issues profile [] r.configurations in
    let some_indicators = missing_if_nil r.configurations missing_indicators indicators in
    let from_indicators = issue_if (is_nil r.configurations) missing_indicators indicators in
    let from_inputs = inputs_issues profile r.inputs from_indicators in
    let some_inputs = missing_if_nil r.inputs missing_inputs from_inputs in
    (
      λ h.
          let (ready, h1) =
            (profile_issues_lem profile (issue_if (is_nil r.inputs) missing_inputs from_inputs)).0
              h in
          let (input, h2) = some_inputs.0 h1 in
          let (inputs, h3) = (inputs_issues_lem profile r.inputs from_indicators).0 h2 in
          let (indicator, h4) = some_indicators.0 h3 in
          record {
            profile = ready;
            some_input = input;
            inputs = inputs;
            some_indicator = indicator;
            configurations = (configurations_issues_lem profile [] r.configurations).0 h4;
          },
      λ h.
          let h4 = (configurations_issues_lem profile [] r.configurations).1 h.configurations in
          let h3 = some_indicators.1 (h.some_indicator, h4) in
          let h2 = (inputs_issues_lem profile r.inputs from_indicators).1 (h.inputs, h3) in
          (profile_issues_lem profile (issue_if (is_nil r.inputs) missing_inputs from_inputs)).1
            (h.profile, some_inputs.1 (h.some_input, h2)),
    )

snapshot_issues_lem :
    (o : Option Json) → (snapshot_issues o ≡ []) ↔ ((snapshot : Json) × (o ≡ some snapshot))
snapshot_issues_lem none = (λ h. cc, λ h. cc (h.1))
snapshot_issues_lem (some v) = (λ h. (v, refl), λ h. refl)

-- A revision passes the validation exactly when its composition is approvable and its snapshot can
-- be built.
pub validate_revision_for_approval_lem :
    (build : Revision → Option Json) (r : Revision)
    → (validate_revision_for_approval build r ≡ [])
      ↔ (IsApprovable r × (snapshot : Json) × (build r ≡ some snapshot))
unfolding validate_revision_for_approval
validate_revision_for_approval_lem build r =
    let composition = composition_issues_lem r in
    let snapshot = snapshot_issues_lem (build r) in
    (
      λ h.
          let clean : composition_issues r ≡ [] = ground arith in
          let (v, e) = snapshot.0 (rw clean at h) in (composition.0 clean, v, e),
      λ h. rw (composition.1 h.0) (snapshot.1 (h.1, h.2)),
    )
