-- ===== src/Ingest.antt =====
-- exchange_agreement/services/ingest_resolution.py: the current configuration of a contract, read
-- from the approved snapshot after its integrity is checked, and the input that serves a data
-- category. The checks of evaluations and of formal metadata in a snapshot are parameters.
pub mod Resolved
pub mod Inputs
pub mod Sound
use rpsd_config.Common.Results.{◌>>=◌, ◌>>◌}
use rpsd_config.Common.{
  ℕ, String, Bool, true, false, not, ◌&&◌, ◌||◌, Option, none, some, List, [], ◌∷◌, Result, ok, err,
  or_raise, raise_if, count, select, length, leb, ◌==◌, str_eq, if◌then◌else◌,
}
use rpsd_config.Json.{Json, str, arr, obj, Items, nil, cons}
use rpsd_config.Json.Access.{get}
use rpsd_config.Json.Canonical.{CanonicalError}
use rpsd_config.Json.Checksum.{canonical_snapshot_checksum}
use rpsd_config.Texts.{strip, lower, is_empty}
use rpsd_config.Models.{Contract, is_active_today, Revision}
use rpsd_config.Revisions.{candidate, current_revision}
use rpsd_config.Lifecycle.{is_on}

-- What `configuration_invariant_violation` is raised for, by its message.
pub data Violation : Type 0 where
  ambiguous invalid_mapping not_serializable failed_integrity : Violation
  other_contract other_revision invalid_inputs invalid_entries : Violation
  ambiguous_inputs incomplete_text : Violation

pub data IngestError : Type 0 where
  contract_not_effective configuration_not_ready data_category_not_configured : IngestError
  unsupported_formal_configuration unsupported_evaluation_configuration : IngestError
  configuration_invariant_violation : Violation → IngestError

-- The hash of a canonical value, and the two checks of other services.
pub record Checks : Type 0 where
  pub hexdigest : Json → String
  pub validate_frozen_formal_metadata : Json → Result IngestError (Unit {0})
  pub validate_frozen_evaluations : Json → Result IngestError (Unit {0})

abbrev pub require_mapping : Option Json → Result IngestError Json
require_mapping (some (obj fs)) = ok (obj fs)
require_mapping _ = err (configuration_invariant_violation invalid_mapping)

abbrev pub text_is : String → Option Json → Bool
text_is s (some (str t)) = str_eq t s
text_is s _ = false

-- `isinstance(value, str) and value.strip()`
abbrev pub is_filled_text : Option Json → Bool
is_filled_text (some (str t)) = not (is_empty (strip t))
is_filled_text _ = false

unfoldable pub has_text_fields : List String → Json → Bool
has_text_fields [] value = true
has_text_fields (name ∷ names) value =
    is_filled_text (get name value) && has_text_fields names value

unfoldable pub require_text_fields : List String → Json → Result IngestError (Unit {0})
unfolding has_text_fields
require_text_fields names value =
    raise_if (not (has_text_fields names value)) (configuration_invariant_violation incomplete_text)

abbrev pub digest_or_raise : Result CanonicalError String → Result IngestError String
digest_or_raise (ok d) = ok d
digest_or_raise (err e) = err (configuration_invariant_violation not_serializable)

unfoldable pub is_known_schema : String → Bool
is_known_schema s =
    str_eq s "canonical-json-v1"
    || (str_eq s "canonical-json-v2"
        || (str_eq s "canonical-json-v3" || str_eq s "canonical-json-v4"))

abbrev pub is_formal_schema : String → Bool
is_formal_schema s = str_eq s "canonical-json-v4"

abbrev pub is_evaluation_schema : String → Bool
is_evaluation_schema s = str_eq s "canonical-json-v3" || str_eq s "canonical-json-v4"

-- `revisions.filter(valid_from=revision.valid_from)`
unfoldable pub on_same_day : ℕ → ℕ → Revision → Revision → Bool
on_same_day contract_id today revision r =
    candidate contract_id today r
    && elim revision.valid_from [ none ↦ false | some d ↦ is_on d r.valid_from ]

-- The schema version and the checksum of the row are those of its snapshot.
unfoldable pub is_intact : Revision → Json → String → Bool
unfolding is_known_schema
is_intact revision snapshot digest =
    is_known_schema revision.snapshot_schema_version
    && (text_is revision.snapshot_schema_version (get "snapshot_schema_version" snapshot)
        && (not (is_empty revision.snapshot_checksum) && str_eq digest revision.snapshot_checksum))

-- The guards for the versions of the snapshot schema.
unfoldable pub check_schema : Checks → Bool → Bool → String → Json → Result IngestError (Unit {0})
check_schema checks allow_evaluations allow_formal schema snapshot = do
  raise_if (is_formal_schema schema && not allow_formal) unsupported_formal_configuration
  if is_formal_schema schema then checks.validate_frozen_formal_metadata snapshot else ok tt
  raise_if (is_evaluation_schema schema && not allow_evaluations)
      unsupported_evaluation_configuration
  if is_evaluation_schema schema then checks.validate_frozen_evaluations snapshot else ok tt

pub record CurrentContractConfiguration : Type 0 where
  pub contract : Contract
  pub revision : Revision
  pub snapshot_schema_version : String
  pub snapshot_checksum : String
  pub snapshot : Json

-- The current revision, where the contract is effective and no other candidate starts on its day.
unfoldable pub current_row : ℕ → List Revision → Contract → Result IngestError Revision
current_row today rows contract = do
  raise_if (not (is_active_today contract today)) contract_not_effective
  revision ← or_raise (current_revision contract.pk today rows) configuration_not_ready
  raise_if (not (count (on_same_day contract.pk today revision) rows == 1))
      (configuration_invariant_violation ambiguous)
  ok revision

-- The snapshot of the row, after its integrity checks.
unfoldable pub intact_snapshot : (Json → String) → Revision → Result IngestError Json
intact_snapshot hexdigest revision = do
  snapshot ← require_mapping (some revision.configuration_snapshot)
  digest ← digest_or_raise (canonical_snapshot_checksum hexdigest snapshot)
  raise_if (not (is_intact revision snapshot digest))
      (configuration_invariant_violation failed_integrity)
  ok snapshot

-- The snapshot names the contract and the revision.
unfoldable pub check_owner : Contract → Revision → Json → Result IngestError (Unit {0})
check_owner contract revision snapshot = do
  contract_snapshot ← require_mapping (get "contract" snapshot)
  raise_if (not (text_is contract.contract_code (get "code" contract_snapshot)))
      (configuration_invariant_violation other_contract)
  revision_snapshot ← require_mapping (get "revision" snapshot)
  raise_if (not (text_is revision.code (get "code" revision_snapshot)))
      (configuration_invariant_violation other_revision)

unfoldable pub checked_snapshot :
    Checks → Bool → Bool → Contract → Revision → Result IngestError Json
checked_snapshot checks allow_evaluations allow_formal contract revision = do
  snapshot ← intact_snapshot checks.hexdigest revision
  check_schema checks allow_evaluations allow_formal revision.snapshot_schema_version snapshot
  check_owner contract revision snapshot
  ok snapshot

unfoldable pub resolve_current_contract_configuration :
    Checks
    → Bool
    → Bool
    → ℕ
    → List Revision
    → Contract
    → Result IngestError CurrentContractConfiguration
resolve_current_contract_configuration checks allow_evaluations allow_formal today rows contract =
    do
      revision ← current_row today rows contract
      snapshot ← checked_snapshot checks allow_evaluations allow_formal contract revision
      ok (record {
        contract = contract;
        revision = revision;
        snapshot_schema_version = revision.snapshot_schema_version;
        snapshot_checksum = revision.snapshot_checksum;
        snapshot = snapshot;
      })

-- The entries, each a dict.
unfoldable pub entries : Items → Result IngestError (List Json)
entries nil = ok []
entries (cons (obj fs) xs) = do rest ← entries xs; ok (obj fs ∷ rest)
entries (cons _ xs) = err (configuration_invariant_violation invalid_entries)

abbrev pub require_inputs : Option Json → Result IngestError Items
require_inputs (some (arr xs)) = ok xs
require_inputs _ = err (configuration_invariant_violation invalid_inputs)

abbrev pub only_match : List Json → Result IngestError Json
only_match [] = err data_category_not_configured
only_match (x ∷ []) = ok x
only_match (x ∷ (y ∷ ys)) = err (configuration_invariant_violation ambiguous_inputs)

abbrev pub serves : String → Json → Bool
serves category item = text_is category (get "dataset_code" item)

abbrev pub flow_fields : List String
flow_fields = "code" ∷ "version" ∷ "engine" ∷ "deployment_name" ∷ "artifact_identifier" ∷ []

pub record CurrentIngestConfiguration : Type 0 where
  pub current : CurrentContractConfiguration
  pub data_category : String
  pub dataset_specification : Json
  pub input_flow_version : Json
  pub orchestration_flow_version : Json

-- The one input that serves the category.
unfoldable pub matching_input : String → Json → Result IngestError Json
matching_input category snapshot = do
  inputs ← require_inputs (get "inputs" snapshot)
  items ← entries inputs
  only_match (select (serves category) items)

-- The specification and the flow of an input, and the orchestration flow of the snapshot.
unfoldable pub parts_of : Json → Json → Result IngestError (Json × Json × Json)
parts_of selected snapshot = do
  specification ← require_mapping (get "dataset_specification" selected)
  input_flow ← require_mapping (get "input_flow" selected)
  orchestration ← require_mapping (get "orchestration_flow" snapshot)
  require_text_fields ("code" ∷ "version" ∷ []) specification
  require_text_fields flow_fields input_flow
  require_text_fields flow_fields orchestration
  ok (specification, input_flow, orchestration)

unfoldable pub select_input :
    String → CurrentContractConfiguration → Result IngestError CurrentIngestConfiguration
select_input category current = do
  selected ← matching_input category current.snapshot
  (specification, input_flow, orchestration) ← parts_of selected current.snapshot
  ok (record {
    current = current;
    data_category = category;
    dataset_specification = specification;
    input_flow_version = input_flow;
    orchestration_flow_version = orchestration;
  })

unfoldable pub resolve_current_ingest_configuration :
    Checks
    → Bool
    → Bool
    → ℕ
    → List Revision
    → Contract
    → String
    → Result IngestError CurrentIngestConfiguration
resolve_current_ingest_configuration checks allow_evaluations allow_formal today rows contract
      data_category =
    do
      current ←
          resolve_current_contract_configuration checks allow_evaluations allow_formal today rows
            contract
      select_input (lower (strip data_category)) current
