-- ===== src/Models/Catalogs.antt =====
-- The technical catalogs of exchange_agreement/models.py: datasets, flows, indicators and the
-- processing profiles that join them.
use rpsd_config.Common.{ℕ, String, Bool, true, false, Option, List}
use rpsd_config.Json.{Json}

-- The status of a versioned catalog row (specification, flow, indicator version, profile).
pub data CatalogStatus : Type 0 where
  draft published deprecated withdrawn : CatalogStatus

abbrev pub is_published : CatalogStatus → Bool
is_published published = true
is_published _ = false

-- The status of a stable identity (`Dataset`, `Indicator`).
pub data IdentityStatus : Type 0 where
  active deprecated : IdentityStatus

abbrev pub is_active : IdentityStatus → Bool
is_active active = true
is_active deprecated = false

pub record Dataset : Type 0 where
  pub pk : ℕ
  pub code : String
  pub status : IdentityStatus

pub record DatasetSpecification : Type 0 where
  pub pk : ℕ
  pub code : String
  pub version : String
  pub status : CatalogStatus
  pub dataset : Dataset

-- `InputFlowVersion`
pub record InputFlow : Type 0 where
  pub code : String
  pub version : String
  pub status : CatalogStatus
  pub engine : String
  pub deployment_name : String
  pub artifact_identifier : String
  pub dataset_specification : DatasetSpecification

-- `OrchestrationFlowVersion`
pub record OrchestrationFlow : Type 0 where
  pub code : String
  pub version : String
  pub status : CatalogStatus
  pub engine : String
  pub deployment_name : String
  pub artifact_identifier : String

pub record Indicator : Type 0 where
  pub pk : ℕ
  pub code : String
  pub status : IdentityStatus

pub record IndicatorVersion : Type 0 where
  pub pk : ℕ
  pub code : String
  pub version : String
  pub status : CatalogStatus
  pub indicator : Indicator
  pub execution_engine : String
  pub execution_reference : String
  pub artifact_identifier : String

-- `ProcessingProfileInputFlow`
pub record ProfileInput : Type 0 where
  pub pk : ℕ
  pub processing_profile_version_id : ℕ
  pub dataset : Dataset
  pub input_flow_version : InputFlow

-- `ProcessingProfileIndicatorVersion`
pub record ProfileIndicator : Type 0 where
  pub pk : ℕ
  pub processing_profile_version_id : ℕ
  pub indicator_version : IndicatorVersion
  pub proposed_by_default : Bool

pub record Profile : Type 0 where
  pub pk : ℕ
  pub code : String
  pub version : String
  pub name : String
  pub description : String
  pub status : CatalogStatus
  pub published_at : Option ℕ
  pub published_by_id : Option ℕ
  pub updated_at : ℕ
  pub orchestration_flow_version : OrchestrationFlow
  pub input_flow_links : List ProfileInput
  pub indicator_version_links : List ProfileIndicator

-- `ContractRevisionIndicator`
pub record Configuration : Type 0 where
  pub processing_profile_indicator_version : ProfileIndicator
  pub thresholds : Json
  pub aggregation : Json
  pub penalties : Json
  pub parameters : Json
