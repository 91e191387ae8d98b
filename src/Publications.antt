-- ===== src/Publications.antt =====
-- `publish_contract` of exchange_agreement/services/publication.py, with `ContractPublication.clean`
-- of exchange_agreement/models.py for a new publication. The comparisons of `clean` with the fields
-- that were copied from the revision hold and are left out.
pub mod Checks
pub mod Published
use Prim.Native.Char.{code}
use rpsd_config.Common.Results.{◌>>=◌, ◌>>◌}
use rpsd_config.Common.{
  ℕ, ◌+◌, suc, String, Bool, true, false, not, ◌&&◌, ◌||◌, Option, none, some, List, [], ◌∷◌, ◌++◌,
  Result, ok, err, or_raise, raise_if, Action, exists_row, find, update_rows, ltb, leb, ◌==◌,
  if◌then◌else◌, issue_if, is_nil,
}
use rpsd_config.Json.{Json, obj}
use rpsd_config.Texts.{is_empty}
use rpsd_config.Models.{
  Clock, Db, Contract, ContractStatus, is_draft_contract, is_closed_status, Revision, is_approved,
  Publication,
}
use rpsd_config.Models.Contracts
use rpsd_config.Rbac.{User, after}
use rpsd_config.Permissions.{contract_row, is_contract_admin}
use rpsd_config.Revisions.{current_revision, ended_before}
use rpsd_config.Contracts.{ContractError, check_save}

pub data PublicationIssue : Type 0 where
  version_below_one snapshot_not_object schema_version_required : PublicationIssue
  checksum_format revision_of_another_contract revision_not_approved : PublicationIssue

pub data PublishError : Type 0 where
  does_not_exist authentication_required admin_role_required : PublishError
  closed_contract not_effective no_current_revision : PublishError
  invalid_publication : List PublicationIssue → PublishError
  invalid_contract : ContractError → PublishError

-- `_require_publish_permission`
unfoldable pub require_publish_permission : Db → User → Contract → Result PublishError (Unit {0})
require_publish_permission db user contract = do
  raise_if (not user.is_authenticated) authentication_required
  raise_if
      (not user.is_superuser
        && not (exists_row (contract_row is_contract_admin contract user) db.contract_memberships))
      admin_role_required

abbrev pub is_hex : ℕ → Bool
is_hex c = leb b'0' c && leb c b'9' || leb b'a' c && leb c b'f'

-- Only hex characters, and how many.
unfoldable pub hex_digits : String → Option ℕ
hex_digits String.[] = some 0
hex_digits (String.◌∷◌ c s) =
    let rest = hex_digits s in
    if is_hex (code c) then elim rest [ none ↦ none | some n ↦ some (suc n) ] else none

-- `sha256:` and 64 lowercase hex characters
unfoldable pub is_checksum : String → Bool
unfolding hex_digits
is_checksum s = elim (after "sha256:" s) [
  | none ↦ false
  | some digits ↦ elim (hex_digits digits) [ none ↦ false | some n ↦ n == 64 ]
]

abbrev pub is_object : Json → Bool
is_object (obj fs) = true
is_object _ = false

unfoldable pub publication_issues : Revision → Publication → List PublicationIssue
unfolding is_checksum
publication_issues revision p = issue_if (ltb p.publication_version 1) version_below_one (
    issue_if (not (is_object p.snapshot)) snapshot_not_object (
      issue_if (is_empty p.snapshot_schema_version) schema_version_required (
        issue_if (not (is_checksum p.snapshot_checksum)) checksum_format (
          if not (is_approved revision.status)
          then revision_not_approved ∷ []
          else issue_if (not (revision.contract_id == p.contract_id)) revision_of_another_contract
              []))))

abbrev pub greater : ℕ → ℕ → ℕ
greater a b = if ltb a b then b else a

-- `aggregate(Max("publication_version")) or 0`
unfoldable pub latest_version : ℕ → List Publication → ℕ
latest_version contract_id [] = 0
latest_version contract_id (p ∷ ps) =
    let rest = latest_version contract_id ps in
    if p.contract_id == contract_id then greater p.publication_version rest else rest

-- The guards: the contract and its current revision.
unfoldable pub check_publish : Clock → User → ℕ → Db → Result PublishError (Contract × Revision)
check_publish clock user contract_id db = do
  contract ← or_raise (find (λ c. c.pk == contract_id) db.contracts) does_not_exist
  require_publish_permission db user contract
  raise_if (is_closed_status contract.status) closed_contract
  raise_if (ltb clock.today contract.start_date || ended_before clock.today contract.end_date)
      not_effective
  revision ← or_raise (current_revision contract.pk clock.today db.revisions) no_current_revision
  ok (contract, revision)

unfoldable pub new_publication : Clock → User → Db → Contract → Revision → Publication
unfolding latest_version
new_publication clock user db contract revision = record {
  contract_id = contract.pk;
  configuration_revision_id = revision.pk;
  publication_version = latest_version contract.pk db.publications + 1;
  published_at = clock.now;
  published_by_id = if user.is_authenticated then some user.pk else none;
  snapshot_schema_version = revision.snapshot_schema_version;
  snapshot = revision.configuration_snapshot;
  snapshot_checksum = revision.snapshot_checksum;
}

abbrev pub as_active : Contract → Contract
as_active c = record c { status = Contracts.active }

abbrev pub activated : ℕ → ℕ → List Contract → List Contract
activated now contract_id rows =
    update_rows (λ o. o.pk == contract_id)
      (λ o. record o { status = Contracts.active; updated_at = now }) rows

abbrev pub contract_or_raise {ℓ} : {A : Type ℓ} → Result ContractError A → Result PublishError A
contract_or_raise (ok a) = ok a
contract_or_raise (err e) = err (invalid_contract e)

-- `save(update_fields=["status", "updated_at"])` of a contract that was a draft
unfoldable pub activate :
    (ℕ → ℕ) → ℕ → Contract → List Contract → Result PublishError (List Contract)
activate six_years_after now contract rows =
    let checked = contract_or_raise (check_save six_years_after rows (as_active contract)) in
    if is_draft_contract contract.status
    then checked >> ok (activated now contract.pk rows)
    else ok rows

-- What a call returns and leaves.
unfoldable pub prepare_publish :
    (ℕ → ℕ) → Clock → User → ℕ → Db → Result PublishError (Publication × Db)
prepare_publish six_years_after clock user contract_id db = do
  (contract, revision) ← check_publish clock user contract_id db
  let publication = new_publication clock user db contract revision
  let issues = publication_issues revision publication
  raise_if (not (is_nil issues)) (invalid_publication issues)
  contracts ← activate six_years_after clock.now contract db.contracts
  ok (
    publication,
    record db { contracts = contracts; publications = db.publications ++ publication ∷ [] },
  )

abbrev pub then_publish :
    Db → Result PublishError (Publication × Db) → Result PublishError Publication × Db
then_publish db (err e) = (err e, db)
then_publish db (ok (publication, after_call)) = (ok publication, after_call)

unfoldable pub publish_contract : (ℕ → ℕ) → Clock → User → ℕ → Action PublishError Db Publication
publish_contract six_years_after clock user contract_id db =
    then_publish db (prepare_publish six_years_after clock user contract_id db)
