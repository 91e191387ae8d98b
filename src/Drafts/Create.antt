-- ===== src/Drafts/Create.antt =====
-- `create_revision_draft`: a draft with the composition that its profile proposes. (The evaluations of
-- a replaced revision, which `clone_evaluations` copies, are left out.)
use rpsd_config.Common.Results.{◌>>=◌, ◌>>◌}
use rpsd_config.Common.{
  ℕ, ◌+◌, String, Bool, true, false, not, ◌&&◌, Option, none, some, List, [], ◌∷◌, ◌++◌, Result, ok,
  err, Action, or_raise, raise_if, is_nil, select, find, map, ltb, ◌==◌, if◌then◌else◌,
}
use rpsd_config.Json.{obj, end}
use rpsd_config.Models.{
  Db, Contract, Revision, draft, is_published, Profile, ProfileIndicator, Configuration,
}
use rpsd_config.Rbac.{User}
use rpsd_config.Permissions.{can_prepare_contract_revision}
use rpsd_config.Revisions.{
  RevisionError, permission_denied, does_not_exist, validation, profile_not_published,
  profile_not_applicable, invalid_revision_sequence,
}
use rpsd_config.Dependencies.Catalogue.{Catalogue}
use rpsd_config.Profiles.{ProfileError, validate_processing_profile_for_publication}
use rpsd_config.Lifecycle.{Runtime, get_contract}
use rpsd_config.Drafts.Inputs.{resolve_revision_inputs}
use rpsd_config.Drafts.Rows.{
  DraftError, raised, issue, revision_or_raise, closure_or_raise, code_or_default,
  reason_or_default, clean_revision, clean_inputs, save_configuration,
}

-- The tables that the services read besides the database of revisions.
pub record Library : Type 0 where
  pub catalogue : Catalogue
  pub profiles : List Profile

-- The arguments of the call, and the key that the database gives to the new row.
pub record DraftRequest : Type 0 where
  pub new_pk : ℕ
  pub contract_id : ℕ
  pub profile_id : ℕ
  pub valid_from : Option ℕ
  pub code : Option String
  pub change_reason : Option String
  pub replaces_revision : Option Revision

-- `aggregate(latest=Max("revision_number"))["latest"] or 0`
unfoldable pub latest_number : ℕ → List Revision → ℕ
latest_number contract_id [] = 0
latest_number contract_id (r ∷ rows) =
    let rest = latest_number contract_id rows in
    if r.contract_id == contract_id
    then (if ltb rest r.revision_number then r.revision_number else rest)
    else rest

abbrev pub is_foreign : Contract → Option Revision → Bool
is_foreign contract none = false
is_foreign contract (some r) = not (r.contract_id == contract.pk)

abbrev pub pk_of : Option Revision → Option ℕ
pk_of none = none
pk_of (some r) = some r.pk

abbrev pub not_applicable : Result ProfileError (Unit {0}) → Result DraftError (Unit {0})
not_applicable (ok t) = ok t
not_applicable (err e) = err (issue profile_not_applicable)

unfoldable pub new_revision : Runtime → DraftRequest → Contract → Profile → User → ℕ → Revision
unfolding code_or_default reason_or_default
new_revision rt request contract profile actor number = record {
  pk = request.new_pk;
  contract_id = contract.pk;
  revision_number = number;
  code = code_or_default request.code contract number;
  processing_profile_version = profile;
  valid_from = request.valid_from;
  status = draft;
  change_reason = reason_or_default request.change_reason profile;
  replaces_revision_id = pk_of request.replaces_revision;
  snapshot_schema_version = "canonical-json-v1";
  configuration_snapshot = obj end;
  snapshot_checksum = "";
  created_by_id = some actor.pk;
  approved_by_id = none;
  approved_at = none;
  withdrawn_by_id = none;
  withdrawn_at = none;
  withdrawal_reason = "";
  updated_at = rt.clock.now;
  inputs = [];
  configurations = [];
}

abbrev pub empty_configuration : ProfileIndicator → Configuration
empty_configuration link = record {
  processing_profile_indicator_version = link;
  thresholds = obj end;
  aggregation = obj end;
  penalties = obj end;
  parameters = obj end;
}

unfoldable pub save_all :
    Profile → List Configuration → List Configuration → Result DraftError (List Configuration)
unfolding save_configuration
save_all profile [] rows = ok rows
save_all profile (c ∷ configurations) rows = do
  rows ← save_configuration profile c rows
  save_all profile configurations rows

-- The configurations that are taken over: those whose indicator version the profile has, under its link.
unfoldable pub carried_over : Profile → List Configuration → List Configuration
carried_over profile [] = []
carried_over profile (c ∷ sources) =
    let rest = carried_over profile sources in
    elim (find
      (λ l. l.indicator_version.pk == c.processing_profile_indicator_version.indicator_version.pk)
      profile.indicator_version_links) [
        | none ↦ rest
        | some link ↦ record c { processing_profile_indicator_version = link } ∷ rest
      ]

abbrev configurations_at : Option Revision → List Configuration
configurations_at none = []
configurations_at (some r) = r.configurations

-- `replaces_revision.indicator_configurations`
abbrev pub replaced_configurations : Option Revision → List Revision → List Configuration
replaced_configurations none rows = []
replaced_configurations (some r) rows = configurations_at (find (λ x. x.pk == r.pk) rows)

-- The composition: the proposed indicators, the inputs they need and the values that are taken over.
unfoldable pub compose :
    Library → Profile → List Configuration → Revision → Result DraftError Revision
unfolding save_all carried_over clean_inputs
compose lib profile sources revision = do
  let links =
      select (λ (l : ProfileIndicator). l.proposed_by_default) profile.indicator_version_links
  r ← closure_or_raise (resolve_revision_inputs lib.catalogue profile links [])
  raise_if (not (is_nil r.issues)) (raised (validation r.issues))
  clean_inputs profile r.selected_inputs
  proposed ← save_all profile (map empty_configuration links) []
  configurations ← save_all profile (carried_over profile sources) proposed
  ok (record revision { inputs = r.selected_inputs; configurations = configurations })

-- The new row.
unfoldable pub check_draft :
    Runtime → Library → DraftRequest → User → Db → Result DraftError Revision
unfolding new_revision clean_revision compose latest_number
check_draft rt lib request actor db = do
  contract ← revision_or_raise (get_contract request.contract_id db)
  raise_if (not (can_prepare_contract_revision rt.root db actor contract))
      (raised permission_denied)
  profile ← or_raise (find (λ p. p.pk == request.profile_id) lib.profiles) (raised does_not_exist)
  raise_if (not (is_published profile.status)) (issue profile_not_published)
  not_applicable (validate_processing_profile_for_publication lib.catalogue profile)
  raise_if (is_foreign contract request.replaces_revision) (issue invalid_revision_sequence)
  let number = latest_number contract.pk db.revisions + 1
  revision ← clean_revision db.revisions (new_revision rt request contract profile actor number)
  compose lib profile (replaced_configurations request.replaces_revision db.revisions) revision

abbrev pub then_create : Db → Result DraftError Revision → Result DraftError Revision × Db
then_create db (err e) = (err e, db)
then_create db (ok row) = (ok row, record db { revisions = db.revisions ++ row ∷ [] })

unfoldable pub create_revision_draft :
    Runtime → Library → DraftRequest → User → Action DraftError Db Revision
unfolding check_draft
create_revision_draft rt lib request actor db = then_create db (check_draft rt lib request actor db)

abbrev passes : Result ProfileError (Unit {0}) → Bool
passes (ok t) = true
passes (err e) = false

-- `available_processing_profiles`: the published profiles that still pass the validation.
unfoldable pub available_processing_profiles :
    Runtime → Library → Contract → User → Db → Result RevisionError (List Profile)
available_processing_profiles rt lib contract actor db = do
  raise_if (not (can_prepare_contract_revision rt.root db actor contract)) permission_denied
  ok (
      select
        (λ p.
          is_published p.status
          && passes (validate_processing_profile_for_publication lib.catalogue p))
        lib.profiles)
