-- ===== src/Lifecycle/History.antt =====
-- Neither approval nor withdrawal changes which revision was current on a day that is over.
use rpsd_config.Common.{
  ℕ, String, ◌≤◌, ◌<◌, ◌≡◌, ap, false, List, ok, first_by, update_rows, select-update_rows, In,
  ◌==◌, arith, Result-cases, inl, inr,
}
use rpsd_config.Common.{some, sym, ◌∙◌}
use rpsd_config.Models.{is_approved, Contract, Db, Revision}
use rpsd_config.Rbac.{User}
use rpsd_config.Revisions.{later, candidate, current_revision}
use rpsd_config.Lifecycle.{
  Runtime, Frozen, as_approved, write_approval, check_approval, approve_contract_revision,
  as_withdrawn, write_withdrawal, check_withdrawal, withdraw_contract_revision,
}
use rpsd_config.Lifecycle.Checks.{
  IsApproval, check_approval-IsApproval, check_withdrawal-IsWithdrawal,
}

-- Primary keys are unique.
abbrev pub HasUniquePks : List Revision → Type 0
HasUniquePks rows = (x y : Revision) → In x rows → In y rows → x.pk ≡ y.pk → x ≡ y

-- An approval that returns is the write after checks that passed.
pub approve-eq-ok :
    (rt : Runtime) (revision : Revision) (actor : User) (db db' : Db) (r : Revision)
    → approve_contract_revision rt revision actor db ≡ (ok r, db')
    → (locked : Revision) × (start : ℕ) × (frozen : Frozen) × (check_approval rt revision actor db
        ≡ ok (locked, start, frozen))
      × (r ≡ as_approved rt actor frozen locked)
      × (db' ≡ write_approval rt actor locked frozen db)
unfolding approve_contract_revision
approve-eq-ok rt revision actor db db' r h =
    elim (Result-cases (check_approval rt revision actor db)) [
      | inr (x, e) ↦ ground arith
      | inl ((locked, start, frozen), e) ↦ (locked, start, frozen, e, ground arith, ground arith)
    ]

-- Writing to the rows of one key changes no current revision, if the row fits the query neither
-- before nor after.
current_revision-update_rows :
    (id day : ℕ) (rows : List Revision) (locked : Revision) (f : Revision → Revision)
    → HasUniquePks rows
    → In locked rows
    → candidate id day locked ≡ false
    → candidate id day (f locked) ≡ false
    → current_revision id day (update_rows (λ r. r.pk == locked.pk) f rows)
      ≡ current_revision id day rows
unfolding current_revision
current_revision-update_rows id day rows locked f unique m before after = ap (first_by later) (
    select-update_rows (candidate id day) (λ r. r.pk == locked.pk) f rows
      (λ x q e.
        let same : x ≡ locked = unique x locked q m (ground arith) in rw same (before, after)))

-- Approving a revision changes for no contract which revision was current on a
-- day before today, when primary keys are unique.
pub approve-keeps_history :
    (rt : Runtime) (revision : Revision) (actor : User) (db db' : Db) (r : Revision) (id day : ℕ)
    → HasUniquePks db.revisions
    → approve_contract_revision rt revision actor db ≡ (ok r, db')
    → day < rt.clock.today
    → current_revision id day db'.revisions ≡ current_revision id day db.revisions
unfolding write_approval candidate
approve-keeps_history rt revision actor db db' r id day unique h past =
    let (locked, start, frozen, e, _, w) = approve-eq-ok rt revision actor db db' r h in
    let facts = check_approval-IsApproval rt revision actor db locked start frozen e in
    rw w (
      current_revision-update_rows id day db.revisions locked (as_approved rt actor frozen) unique
        facts.stored (ground (arith, facts.drafted))
        (ground (arith, facts.date, facts.new_start.not_past)))

pub withdraw-eq-ok :
    (rt : Runtime) (revision : Revision) (reason : String) (actor : User) (db db' : Db)
    (r : Revision)
    → withdraw_contract_revision rt revision reason actor db ≡ (ok r, db')
    → (locked : Revision) × (check_withdrawal rt revision reason actor db ≡ ok locked)
      × (r ≡ as_withdrawn rt actor reason locked)
      × (db' ≡ write_withdrawal rt actor reason locked db)
unfolding withdraw_contract_revision
withdraw-eq-ok rt revision reason actor db db' r h =
    elim (Result-cases (check_withdrawal rt revision reason actor db)) [
      | inr (x, e) ↦ ground arith
      | inl (locked, e) ↦ (locked, e, ground arith, ground arith)
    ]

-- Withdrawing a revision changes for no contract which revision is current today, or was on an
-- earlier day, when primary keys are unique.
pub withdraw-keeps_history :
    (rt : Runtime) (revision : Revision) (reason : String) (actor : User) (db db' : Db)
    (r : Revision) (id day : ℕ)
    → HasUniquePks db.revisions
    → withdraw_contract_revision rt revision reason actor db ≡ (ok r, db')
    → day ≤ rt.clock.today
    → current_revision id day db'.revisions ≡ current_revision id day db.revisions
unfolding write_withdrawal candidate
withdraw-keeps_history rt revision reason actor db db' r id day unique h past =
    let (locked, e, _, w) = withdraw-eq-ok rt revision reason actor db db' r h in
    let facts = check_withdrawal-IsWithdrawal rt revision reason actor db locked e in
    let (d, date, future) = facts.future in
    rw w (
      current_revision-update_rows id day db.revisions locked (as_withdrawn rt actor reason) unique
        facts.stored (ground (arith, date)) (ground arith))

-- An approval that returns is of a revision that may be approved: it was a stored draft, its start
-- is not past, fits the contract and is later than the start of every approved revision of the
-- contract, and the first one starts with the contract. What is written is the canonical form of
-- the snapshot with its checksum.
pub approve-IsApproval :
    (rt : Runtime) (revision : Revision) (actor : User) (db db' : Db) (r : Revision)
    → approve_contract_revision rt revision actor db ≡ (ok r, db')
    → (locked : Revision) × (start : ℕ) × (frozen : Frozen) × IsApproval rt revision actor db locked
        start frozen
      × (r ≡ as_approved rt actor frozen locked)
      × (db' ≡ write_approval rt actor locked frozen db)
approve-IsApproval rt revision actor db db' r h =
    let (locked, start, frozen, e, same, w) = approve-eq-ok rt revision actor db db' r h in
    (
      locked,
      start,
      frozen,
      check_approval-IsApproval rt revision actor db locked start frozen e,
      same,
      w,
    )

-- The first approved revision of a contract starts with the contract, so a contract that has
-- started without one can have none approved.
pub approve-first :
    (rt : Runtime) (revision : Revision) (actor : User) (db db' : Db) (r : Revision)
    → approve_contract_revision rt revision actor db ≡ (ok r, db')
    → ((x : Revision)
        → In x db.revisions
        → x.contract_id ≡ r.contract_id
        → is_approved x.status ≡ false)
    → (c : Contract) × In c db.contracts
      × (c.pk ≡ r.contract_id)
      × (r.valid_from ≡ some c.start_date)
      × (rt.clock.today ≤ c.start_date)
approve-first rt revision actor db db' r h none_approved =
    let (locked, start, frozen, facts, same, _) = approve-IsApproval rt revision actor db db' r h in
    let own : r.contract_id ≡ locked.contract_id = ap (λ (x : Revision). x.contract_id) same in
    let starts : start ≡ facts.contract.start_date =
      facts.new_start.first (λ x m e. none_approved x m (e ∙ (sym facts.of_contract ∙ sym own))) in
    (
      facts.contract,
      facts.contract_stored,
      sym (own ∙ facts.of_contract),
      ap (λ (x : Revision). x.valid_from) same ∙ (facts.date ∙ ap some starts),
      rw (← starts) facts.new_start.not_past,
    )
