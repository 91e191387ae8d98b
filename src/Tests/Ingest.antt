-- ===== src/Tests/Ingest.antt =====
-- The current configuration of the sample contract, and the input that serves a category.
use rpsd_config.Common.{
  ℕ, String, ◌≡◌, refl, sym, ◌∙◌, true, false, some, none, List, [], ◌∷◌, In, inl, inr, ◌⊎◌, Result,
  ok, arith,
}
use rpsd_config.Json.{Json, str, arr, cons, nil, obj, field, text_key, end}
use rpsd_config.Json.Canonical
use rpsd_config.Json.Access
use rpsd_config.Json.Checksum.{canonical_snapshot_checksum}
use rpsd_config.Texts.{lower, strip, strip_left, strip_right}
use rpsd_config.Models
use rpsd_config.Models.{Revision, is_approved, is_active_today}
use rpsd_config.Revisions.{current_revision, candidate, later, resolve_current_contract_revision}
use rpsd_config.Lifecycle.Invariant.{IsConsistent, IsSound}
use rpsd_config.Ingest
use rpsd_config.Ingest.{
  Checks, CurrentContractConfiguration, CurrentIngestConfiguration, current_row,
  resolve_current_contract_configuration, resolve_current_ingest_configuration,
}
use rpsd_config.Ingest.Resolved.{IsVerified, resolve_configuration-resolve}
use rpsd_config.Ingest.Inputs.{IsServed, resolve_ingest-IsServed}
use rpsd_config.Ingest.Sound.{resolve-current_row}
use rpsd_config.Tests.Samples.{contract, revision_of, digest}

abbrev flow : Json
flow = obj (
    field (text_key "artifact_identifier") (str "sha") (
      field (text_key "code") (str "F") (
        field (text_key "deployment_name") (str "run")
          (field (text_key "engine") (str "prefect") (field (text_key "version") (str "1") end)))))

abbrev specification : Json
specification = obj (field (text_key "code") (str "S") (field (text_key "version") (str "1") end))

abbrev input : Json
input = obj (
    field (text_key "dataset_code") (str "netex") (
      field (text_key "dataset_specification") specification
        (field (text_key "input_flow") flow end)))

abbrev snapshot : Json
snapshot = obj (
    field (text_key "contract") (obj (field (text_key "code") (str "C") end)) (
      field (text_key "inputs") (arr (cons input nil)) (
        field (text_key "orchestration_flow") flow (
          field (text_key "revision") (obj (field (text_key "code") (str "R") end))
            (field (text_key "snapshot_schema_version") (str "canonical-json-v1") end)))))

abbrev revision : Revision
revision = record (revision_of 1 1 100 Models.RevisionRows.approved snapshot) {
  snapshot_schema_version = "canonical-json-v1";
}

abbrev checks : Checks
checks = record {
  hexdigest = digest;
  validate_frozen_formal_metadata = λ _. ok tt;
  validate_frozen_evaluations = λ _. ok tt;
}

abbrev rows : List Revision
rows = revision ∷ []

abbrev current : CurrentContractConfiguration
current = record {
  contract = contract;
  revision = revision;
  snapshot_schema_version = "canonical-json-v1";
  snapshot_checksum = "sha256:digest";
  snapshot = snapshot;
}

resolves : resolve_current_contract_configuration checks false false 150 rows contract ≡ ok current
unfolding resolve_current_contract_configuration current_row Ingest.on_same_day
    Ingest.checked_snapshot Ingest.intact_snapshot Ingest.is_intact Ingest.is_known_schema
    Ingest.check_schema Ingest.check_owner canonical_snapshot_checksum Canonical.canonical_value
    Canonical.all_text_keys Canonical.collect Canonical.insert_entry Canonical.sort_entries
    Canonical.text_lt Access.get Access.field_of is_active_today current_revision candidate later
    rpsd_config.Common.first_by
resolves = refl

abbrev served : CurrentIngestConfiguration
served = record {
  current = current;
  data_category = "netex";
  dataset_specification = specification;
  input_flow_version = flow;
  orchestration_flow_version = flow;
}

serves_netex :
    resolve_current_ingest_configuration checks false false 150 rows contract " NeTEx" ≡ ok served
unfolding resolve_current_ingest_configuration resolve_current_contract_configuration current_row
    Ingest.on_same_day Ingest.checked_snapshot Ingest.intact_snapshot Ingest.is_intact
    Ingest.is_known_schema Ingest.check_schema Ingest.check_owner Ingest.select_input
    Ingest.matching_input Ingest.parts_of Ingest.entries Ingest.require_text_fields
    Ingest.has_text_fields lower strip strip_left strip_right canonical_snapshot_checksum
    Canonical.canonical_value Canonical.all_text_keys Canonical.collect Canonical.insert_entry
    Canonical.sort_entries Canonical.text_lt Access.get Access.field_of is_active_today
    current_revision candidate later rpsd_config.Common.first_by
serves_netex = refl

resolve_configuration-resolve_example :
    (resolve_current_contract_revision 150 rows contract ≡ ok revision)
    × IsVerified digest contract revision snapshot
    × (current.snapshot_checksum ≡ revision.snapshot_checksum)
resolve_configuration-resolve_example =
    resolve_configuration-resolve checks false false 150 rows contract current resolves

resolve_ingest-IsServed_example :
    (resolve_current_contract_configuration checks false false 150 rows contract ≡ ok current)
    × IsServed (lower (strip " NeTEx")) served
resolve_ingest-IsServed_example =
    resolve_ingest-IsServed checks false false 150 rows contract " NeTEx" served serves_netex

the_row : (x : Revision) → In x rows → x ≡ revision
the_row x m = elim m [ inl e ↦ e | inr r ↦ absurd r ]

revision-IsSound : IsSound digest revision
unfolding canonical_snapshot_checksum Canonical.canonical_value Canonical.all_text_keys
    Canonical.collect Canonical.insert_entry Canonical.sort_entries Canonical.text_lt
revision-IsSound = record { dated = λ e. cc; checksum = refl }

rows-IsConsistent : IsConsistent digest rows
rows-IsConsistent = record {
  unique_pks = λ x y mx my e. the_row x mx ∙ sym (the_row y my);
  unique_dates = λ x y mx my ax ay own d. the_row x mx ∙ sym (the_row y my);
  sound = λ r m a. rw (the_row r m) revision-IsSound;
}

resolved : resolve_current_contract_revision 150 rows contract ≡ ok revision
unfolding resolve_current_contract_revision is_active_today current_revision candidate later
    rpsd_config.Common.first_by
resolved = refl

resolve-current_row_example :
    (current_row 150 rows contract ≡ ok revision)
    × (canonical_snapshot_checksum digest revision.configuration_snapshot
        ≡ ok revision.snapshot_checksum)
resolve-current_row_example =
    resolve-current_row digest 150 rows contract revision rows-IsConsistent ((λ m. m), tt) resolved
