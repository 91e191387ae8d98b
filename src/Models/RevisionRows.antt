-- ===== src/Models/RevisionRows.antt =====
-- `ContractConfigurationRevision`, its status events and `ContractPublication` of
-- exchange_agreement/models.py.
use rpsd_config.Common.{ℕ, String, Bool, true, false, Option, List}
use rpsd_config.Json.{Json}
use rpsd_config.Models.Catalogs.{Profile, ProfileInput, Configuration}

pub data RevisionStatus : Type 0 where
  draft approved withdrawn : RevisionStatus

abbrev pub is_draft : RevisionStatus → Bool
is_draft draft = true
is_draft _ = false

abbrev pub is_approved : RevisionStatus → Bool
is_approved approved = true
is_approved _ = false

abbrev pub is_withdrawn : RevisionStatus → Bool
is_withdrawn withdrawn = true
is_withdrawn _ = false

-- `inputs` are the profile inputs of `input_selections`, `configurations` the rows of
-- `indicator_configurations`.
pub record Revision : Type 0 where
  pub pk : ℕ
  pub contract_id : ℕ
  pub revision_number : ℕ
  pub code : String
  pub processing_profile_version : Profile
  pub valid_from : Option ℕ
  pub status : RevisionStatus
  pub change_reason : String
  pub replaces_revision_id : Option ℕ
  pub snapshot_schema_version : String
  pub configuration_snapshot : Json
  pub snapshot_checksum : String
  pub created_by_id : Option ℕ
  pub approved_by_id : Option ℕ
  pub approved_at : Option ℕ
  pub withdrawn_by_id : Option ℕ
  pub withdrawn_at : Option ℕ
  pub withdrawal_reason : String
  pub updated_at : ℕ
  pub inputs : List ProfileInput
  pub configurations : List Configuration

-- `ContractRevisionDependencyConfiguration`: the values of an implicit prerequisite.
pub record DependencyConfiguration : Type 0 where
  pub revision_id : ℕ
  pub indicator_version_id : ℕ

pub record RevisionStatusEvent : Type 0 where
  pub revision_id : ℕ
  pub from_status : RevisionStatus
  pub to_status : RevisionStatus
  pub changed_by_id : Option ℕ
  pub reason : String
  pub snapshot_checksum : String
  pub changed_at : ℕ

pub record Publication : Type 0 where
  pub contract_id : ℕ
  pub configuration_revision_id : ℕ
  pub publication_version : ℕ
  pub published_at : ℕ
  pub published_by_id : Option ℕ
  pub snapshot_schema_version : String
  pub snapshot : Json
  pub snapshot_checksum : String
