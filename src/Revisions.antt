-- ===== src/Revisions.antt =====
-- The queries of exchange_agreement/services/contract_revisions.py that resolve revisions by date:
-- which revision is current, the period of a revision and its state today.
pub mod Errors
pub mod Dates
pub mod Current
pub mod Periods
pub use Errors.*
pub use Dates.{starts_by, starts_after}
unfoldable pub use Dates.{later}
use rpsd_config.Common.{
  ℕ, ◌-◌, Bool, true, false, ◌&&◌, Option, none, some, List, Result, ok, err, select, first_by, ltb,
  leb, ◌==◌, if◌then◌else◌,
}
use rpsd_config.Models.{Contract, is_active_today, Revision, RevisionStatus, is_approved}

-- The approved revisions of a contract that have started by a day.
unfoldable pub candidate : ℕ → ℕ → Revision → Bool
candidate contract_id day r =
    r.contract_id == contract_id && (is_approved r.status && starts_by day r.valid_from)

-- `.filter(…, valid_from__lte=day).order_by("-valid_from", "-revision_number").first()`
unfoldable pub current_revision : ℕ → ℕ → List Revision → Option Revision
unfolding candidate
current_revision contract_id day rows = first_by later (select (candidate contract_id day) rows)

abbrev found : Option Revision → Result RevisionError Revision
found none = err no_current_revision
found (some r) = ok r

unfoldable pub resolve_current_contract_revision :
    ℕ → List Revision → Contract → Result RevisionError Revision
unfolding is_active_today current_revision
resolve_current_contract_revision today rows contract =
    if is_active_today contract today
    then found (current_revision contract.pk today rows)
    else err contract_not_effective

-- The approved revisions of the same contract that start after a day.
unfoldable pub successor : ℕ → ℕ → Revision → Bool
successor contract_id day r =
    r.contract_id == contract_id && (is_approved r.status && starts_after day r.valid_from)

-- `.order_by("valid_from", "revision_number").first()`
unfoldable pub next_revision : ℕ → ℕ → List Revision → Option Revision
unfolding successor
next_revision contract_id day rows =
    first_by (λ x y. later y x) (select (successor contract_id day) rows)

-- `next.valid_from - timedelta(days=1)` or the end of the contract
abbrev pub effective_to : Option Revision → Option ℕ → Option ℕ
effective_to none end_date = end_date
effective_to (some next) end_date = elim next.valid_from [ none ↦ none | some d ↦ some (d - 1) ]

-- The contract is `revision.contract`. A filter by a date that is missing raises.
abbrev period_from : List Revision → Contract → ℕ → Option ℕ → Result RevisionError (ℕ × Option ℕ)
period_from rows contract id none = err missing_date
period_from rows contract id (some d) =
    ok (d, effective_to (next_revision id d rows) contract.end_date)

unfoldable pub revision_effective_period :
    List Revision → Contract → Revision → Result RevisionError (ℕ × Option ℕ)
unfolding next_revision
revision_effective_period rows contract revision =
    if is_approved revision.status
    then period_from rows contract revision.contract_id revision.valid_from
    else err only_approved_has_period

pub data TemporalState : Type 0 where
  scheduled active expired : TemporalState
  persisted : RevisionStatus → TemporalState

abbrev pub ended_before : ℕ → Option ℕ → Bool
ended_before today none = false
ended_before today (some d) = ltb d today

abbrev state_in : ℕ → Result RevisionError (ℕ × Option ℕ) → Result RevisionError TemporalState
state_in today (err e) = err e
state_in today (ok (from, to)) =
    ok (if ltb today from then scheduled else if ended_before today to then expired else active)

unfoldable pub revision_temporal_state :
    ℕ → List Revision → Contract → Revision → Result RevisionError TemporalState
unfolding revision_effective_period
revision_temporal_state today rows contract revision =
    if is_approved revision.status
    then state_in today (revision_effective_period rows contract revision)
    else ok (persisted revision.status)
