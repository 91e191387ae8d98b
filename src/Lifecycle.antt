-- ===== src/Lifecycle.antt =====
-- Approval and withdrawal of revisions: `approve_contract_revision` and
-- `withdraw_contract_revision` of exchange_agreement/services/contract_revisions.py.
-- A raise inside `@transaction.atomic` leaves the database as it was. The rows are locked, so no
-- other transaction runs between the reads and the writes of a call.
pub mod Checks
pub mod History
pub mod Invariant
pub mod Evolution
pub mod Reach
use rpsd_config.Common.Results.{◌>>=◌, ◌>>◌}
use rpsd_config.Common.{
  is_nil, ℕ, String, Bool, true, false, not, ◌&&◌, ◌||◌, Option, none, some, List, [], ◌∷◌, ◌++◌,
  Result, ok, err, or_raise, raise_if, Action, atomic, select, exists_row, find, update_rows,
  first_by, ltb, leb, ◌==◌, if◌then◌else◌,
}
use rpsd_config.Json.{Json}
use rpsd_config.Json.Access.{get, as_text}
use rpsd_config.Json.Canonical.{CanonicalError, canonical_value}
use rpsd_config.Json.Checksum.{canonical_snapshot_checksum}
use rpsd_config.Texts.{strip, is_empty}
use rpsd_config.Models.{
  Clock, Db, Contract, Revision, RevisionStatus, draft, approved, withdrawn, is_draft, is_approved,
  is_withdrawn, RevisionStatusEvent,
}
use rpsd_config.Rbac.{User}
use rpsd_config.Permissions.{can_approve_contract_revision, can_withdraw_contract_revision}
use rpsd_config.Revisions.{
  RevisionError, validation, canonical, permission_denied, does_not_exist, only_draft_approvable,
  already_withdrawn, not_future, missing_date, snapshot_not_built, missing_schema_version, Issue,
  invalid_revision_sequence, retroactive_valid_from, duplicate_valid_from,
  withdrawal_reason_required, later, ended_before,
}
use rpsd_config.Approval.{validate_revision_for_approval}

-- What a call reads besides the database: the group root of the settings, the clock, the hash of a
-- canonical value, and `build_revision_snapshot` (`none` where it raises a validation error).
pub record Runtime : Type 0 where
  pub root : String
  pub clock : Clock
  pub hexdigest : Json → String
  pub build_revision_snapshot : Revision → Option Json

abbrev pub canonical_or_raise {ℓ} : {A : Type ℓ} → Result CanonicalError A → Result RevisionError A
canonical_or_raise (ok a) = ok a
canonical_or_raise (err e) = err (canonical e)

-- `objects.get(pk=…)`
unfoldable pub get_contract : ℕ → Db → Result RevisionError Contract
get_contract id db = or_raise (find (λ c. c.pk == id) db.contracts) does_not_exist

-- `objects.filter(contract=…).get(pk=…)`
unfoldable pub get_revision : ℕ → ℕ → Db → Result RevisionError Revision
get_revision contract_id id db =
    or_raise (find (λ r. r.contract_id == contract_id && r.pk == id) db.revisions) does_not_exist

unfoldable pub approved_of : ℕ → List Revision → List Revision
approved_of contract_id rows =
    select (λ r. r.contract_id == contract_id && is_approved r.status) rows

abbrev pub is_on : ℕ → Option ℕ → Bool
is_on day none = false
is_on day (some d) = d == day

-- The first revision starts with the contract, another after the latest approved one.
unfoldable pub in_sequence : Contract → ℕ → Option Revision → Result RevisionError (Unit {0})
in_sequence contract start none =
    raise_if (not (start == contract.start_date)) (validation (invalid_revision_sequence ∷ []))
in_sequence contract start (some latest) = do
  last ← or_raise latest.valid_from missing_date
  raise_if (leb start last) (validation (invalid_revision_sequence ∷ []))

-- The checks of the start date, and the date.
unfoldable pub check_start : ℕ → Contract → List Revision → Revision → Result RevisionError ℕ
check_start today contract approved_rows locked = do
  start ← or_raise locked.valid_from (validation (invalid_revision_sequence ∷ []))
  raise_if (ltb start contract.start_date || ended_before start contract.end_date)
      (validation (invalid_revision_sequence ∷ []))
  raise_if (ltb start today) (validation (retroactive_valid_from ∷ []))
  raise_if (exists_row (λ r. is_on start r.valid_from) approved_rows)
      (validation (duplicate_valid_from ∷ []))
  in_sequence contract start (first_by later approved_rows)
  ok start

-- What an approval writes.
pub record Frozen : Type 0 where
  pub stored : Json
  pub schema_version : String
  pub checksum : String

-- `_raise_for_approval_issues`, `build_revision_snapshot` and the checksum.
unfoldable pub freeze : Runtime → Revision → Result RevisionError Frozen
freeze rt locked = do
  let issues = validate_revision_for_approval rt.build_revision_snapshot locked
  raise_if (not (is_nil issues)) (validation issues)
  snapshot ← or_raise (rt.build_revision_snapshot locked) snapshot_not_built
  checksum ← canonical_or_raise (canonical_snapshot_checksum rt.hexdigest snapshot)
  schema_version ←
      or_raise (as_text (get "snapshot_schema_version" snapshot)) missing_schema_version
  stored ← canonical_or_raise (canonical_value snapshot)
  ok (record { stored = stored; schema_version = schema_version; checksum = checksum })

-- `.update(status=APPROVED, …)`
abbrev pub as_approved : Runtime → User → Frozen → Revision → Revision
as_approved rt actor frozen r = record r {
  status = approved;
  snapshot_schema_version = frozen.schema_version;
  configuration_snapshot = frozen.stored;
  snapshot_checksum = frozen.checksum;
  approved_by_id = some actor.pk;
  approved_at = some rt.clock.now;
  updated_at = rt.clock.now;
}

unfoldable pub write_approval : Runtime → User → Revision → Frozen → Db → Db
write_approval rt actor locked frozen db = record db {
  revisions = update_rows (λ r. r.pk == locked.pk) (as_approved rt actor frozen) db.revisions;
  revision_events =
      db.revision_events
      ++ record {
        revision_id = locked.pk;
        from_status = draft;
        to_status = approved;
        changed_by_id = some actor.pk;
        reason = locked.change_reason;
        snapshot_checksum = frozen.checksum;
        changed_at = rt.clock.now;
      }
        ∷ [];
}

-- Everything that is read and checked before the writes: the locked row, its start and what is
-- frozen.
unfoldable pub check_approval :
    Runtime → Revision → User → Db → Result RevisionError (Revision × ℕ × Frozen)
check_approval rt revision actor db = do
  contract ← get_contract revision.contract_id db
  raise_if (not (can_approve_contract_revision rt.root db actor contract)) permission_denied
  locked ← get_revision contract.pk revision.pk db
  raise_if (not (is_draft locked.status)) only_draft_approvable
  start ← check_start rt.clock.today contract (approved_of contract.pk db.revisions) locked
  frozen ← freeze rt locked
  ok (locked, start, frozen)

abbrev pub then_approve :
    Runtime
    → User
    → Db
    → Result RevisionError (Revision × ℕ × Frozen)
    → Result RevisionError Revision × Db
then_approve rt actor db (err e) = (err e, db)
then_approve rt actor db (ok (locked, start, frozen)) =
    (ok (as_approved rt actor frozen locked), write_approval rt actor locked frozen db)

unfoldable pub approve_contract_revision :
    Runtime → Revision → User → Action RevisionError Db Revision
approve_contract_revision rt revision actor db =
    then_approve rt actor db (check_approval rt revision actor db)

-- `locked.valid_from is None or locked.valid_from <= today`
abbrev pub not_in_future : ℕ → Option ℕ → Bool
not_in_future today none = true
not_in_future today (some d) = leb d today

-- The checks of a withdrawal; the locked row is read by its key alone.
unfoldable pub check_withdrawal :
    Runtime → Revision → String → User → Db → Result RevisionError Revision
check_withdrawal rt revision reason actor db = do
  contract ← get_contract revision.contract_id db
  raise_if (not (can_withdraw_contract_revision rt.root db actor contract)) permission_denied
  raise_if (is_empty (strip reason)) (validation (withdrawal_reason_required ∷ []))
  locked ← or_raise (find (λ r. r.pk == revision.pk) db.revisions) does_not_exist
  raise_if (is_withdrawn locked.status) already_withdrawn
  raise_if (not_in_future rt.clock.today locked.valid_from) not_future
  ok locked

abbrev pub as_withdrawn : Runtime → User → String → Revision → Revision
as_withdrawn rt actor reason r = record r {
  status = withdrawn;
  withdrawal_reason = strip reason;
  withdrawn_by_id = some actor.pk;
  withdrawn_at = some rt.clock.now;
  updated_at = rt.clock.now;
}

unfoldable pub write_withdrawal : Runtime → User → String → Revision → Db → Db
write_withdrawal rt actor reason locked db = record db {
  revisions = update_rows (λ r. r.pk == locked.pk) (as_withdrawn rt actor reason) db.revisions;
  revision_events =
      db.revision_events
      ++ record {
        revision_id = locked.pk;
        from_status = locked.status;
        to_status = withdrawn;
        changed_by_id = some actor.pk;
        reason = strip reason;
        snapshot_checksum = locked.snapshot_checksum;
        changed_at = rt.clock.now;
      }
        ∷ [];
}

abbrev pub then_withdraw :
    Runtime
    → User
    → String
    → Db
    → Result RevisionError Revision
    → Result RevisionError Revision × Db
then_withdraw rt actor reason db (err e) = (err e, db)
then_withdraw rt actor reason db (ok locked) =
    (ok (as_withdrawn rt actor reason locked), write_withdrawal rt actor reason locked db)

unfoldable pub withdraw_contract_revision :
    Runtime → Revision → String → User → Action RevisionError Db Revision
withdraw_contract_revision rt revision reason actor db =
    then_withdraw rt actor reason db (check_withdrawal rt revision reason actor db)
