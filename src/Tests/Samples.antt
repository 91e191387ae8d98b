-- ===== src/Tests/Samples.antt =====
-- The data of the tests: a contract with an approved revision and a draft that follows it.
use rpsd_config.Common.{◌+◌, ℕ, String, true, false, none, some, List, [], ◌∷◌}
use rpsd_config.Json.{Json, str, int, pos, obj, end, field, text_key}
use rpsd_config.Models
use rpsd_config.Models.{
  Db, Clock, Agency, Contract, ContractStatus, Revision, RevisionStatus, Profile, ProfileInput,
  ProfileIndicator, Configuration, Indicator, IndicatorVersion, Dataset, DatasetSpecification,
  InputFlow, OrchestrationFlow, AgencyMembership, agency_admin, invitation,
}
use rpsd_config.Rbac.{User}
use rpsd_config.Lifecycle.{Runtime}

abbrev pub agency : Agency
agency = record { pk = 1; agency_key = "tpl" }

abbrev pub contract_with : ℕ → ℕ → ContractStatus → Contract
contract_with pk start_date status = record {
  pk = pk;
  contract_code = "C";
  client_agency = agency;
  contractor_company_id = 3;
  governing_authority_id = none;
  start_date = start_date;
  end_date = some (start_date + 400);
  tender_id = "";
  contract_type = Models.Contracts.start;
  version = 0;
  contract_program_file = "";
  lot = record { pk = 1; agency_id = some 1 };
  status = status;
  closed_at = none;
  closed_reason = "";
  replaced_by_id = none;
  updated_at = 1;
}

abbrev pub contract : Contract
contract = contract_with 7 100 Models.Contracts.active

abbrev pub dataset : Dataset
dataset = record { pk = 1; code = "D"; status = Models.Catalogs.active }

abbrev pub input_flow : InputFlow
input_flow = record {
  code = "F";
  version = "1";
  status = Models.Catalogs.published;
  engine = "prefect";
  deployment_name = "ingest";
  artifact_identifier = "sha";
  dataset_specification = record {
    pk = 1;
    code = "S";
    version = "1";
    status = Models.Catalogs.published;
    dataset = dataset;
  };
}

abbrev pub input : ProfileInput
input = record {
  pk = 1;
  processing_profile_version_id = 1;
  dataset = dataset;
  input_flow_version = input_flow;
}

abbrev pub profile : Profile
profile = record {
  pk = 1;
  code = "P";
  version = "1";
  name = "Profile";
  description = "All inputs";
  status = Models.Catalogs.published;
  published_at = some 1;
  published_by_id = some 1;
  updated_at = 1;
  orchestration_flow_version = record {
    code = "O";
    version = "1";
    status = Models.Catalogs.published;
    engine = "prefect";
    deployment_name = "run";
    artifact_identifier = "sha";
  };
  input_flow_links = input ∷ [];
  indicator_version_links = [];
}

abbrev pub empty_object : Json
empty_object = obj end

abbrev pub thresholds : Json
thresholds = obj (field (text_key "max") (int (pos 5)) (field (text_key "late") (str "no") end))

abbrev pub configuration : Configuration
configuration = record {
  processing_profile_indicator_version = record {
    pk = 1;
    processing_profile_version_id = 1;
    indicator_version = record {
      pk = 1;
      code = "I";
      version = "1";
      status = Models.Catalogs.published;
      indicator = record { pk = 1; code = "I"; status = Models.Catalogs.active };
      execution_engine = "";
      execution_reference = "";
      artifact_identifier = "";
    };
    proposed_by_default = true;
  };
  thresholds = thresholds;
  aggregation = empty_object;
  penalties = empty_object;
  parameters = empty_object;
}

-- A revision of the contract with a key, a number, a start date and a status.
abbrev pub revision_of : ℕ → ℕ → ℕ → RevisionStatus → Json → Revision
revision_of pk number start status snapshot = record {
  pk = pk;
  contract_id = 7;
  revision_number = number;
  code = "R";
  processing_profile_version = profile;
  valid_from = some start;
  status = status;
  change_reason = "first";
  replaces_revision_id = none;
  snapshot_schema_version = "1.0";
  configuration_snapshot = snapshot;
  snapshot_checksum = "sha256:digest";
  created_by_id = some 1;
  approved_by_id = none;
  approved_at = none;
  withdrawn_by_id = none;
  withdrawn_at = none;
  withdrawal_reason = "";
  updated_at = 1;
  inputs = input ∷ [];
  configurations = configuration ∷ [];
}

abbrev pub snapshot : Json
snapshot =
    obj (
      field (text_key "snapshot_schema_version") (str "1.0")
        (field (text_key "code") (str "R") end))

abbrev pub stored_snapshot : Json
stored_snapshot =
    obj (
      field (text_key "code") (str "R")
        (field (text_key "snapshot_schema_version") (str "1.0") end))

abbrev pub first : Revision
first = revision_of 1 1 100 Models.RevisionRows.approved stored_snapshot

abbrev pub second : Revision
second = revision_of 2 2 200 Models.RevisionRows.draft empty_object

abbrev pub user : User
user = record {
  pk = 9;
  is_authenticated = true;
  is_superuser = false;
  groups = "/rpsd/tpl/admin" ∷ [];
}

abbrev pub digest : Json → String
digest _ = "digest"

abbrev pub runtime_at : ℕ → Runtime
runtime_at today = record {
  root = "/rpsd";
  clock = record { today = today; now = 1000 };
  hexdigest = digest;
  build_revision_snapshot = λ _. some snapshot;
}

abbrev pub db_of : List Revision → Db
db_of rows = record {
  contracts = contract ∷ [];
  revisions = rows;
  dependency_configurations = [];
  revision_events = [];
  publications = [];
  agency_memberships = [];
  contract_memberships = [];
}

-- Before and after the approval of the second revision.
abbrev pub rows : List Revision
rows = first ∷ second ∷ []

abbrev pub db : Db
db = db_of rows
