-- ===== src/Publications/Checks.antt =====
-- What a call that publishes has read, checked and written.
use rpsd_config.Common.{
  ℕ, ◌≤◌, ◌≡◌, ◌∙◌, ap, false, some, List, [], ◌∷◌, ◌++◌, ok, find, ◌==◌, arith, Option-cases,
  Result-cases, inl, inr, if◌then◌else◌,
}
use rpsd_config.Models.{
  Clock, Db, Contract, is_draft_contract, is_closed_status, Revision, Publication,
}
use rpsd_config.Rbac.{User}
use rpsd_config.Revisions.{current_revision, ended_before}
use rpsd_config.Contracts.{check_save}
use rpsd_config.Publications.{
  check_publish, new_publication, as_active, activated, activate, prepare_publish, publish_contract,
}

-- What a publication has read and checked.
pub record IsPublish (clock : Clock) (user : User) (contract_id : ℕ) (db : Db) (p : Publication)
    (db' : Db) : Type 0 where
  pub contract : Contract
  pub revision : Revision
  pub read : find (λ c. c.pk == contract_id) db.contracts ≡ some contract
  pub not_closed : is_closed_status contract.status ≡ false
  pub started : contract.start_date ≤ clock.today
  pub not_over : ended_before clock.today contract.end_date ≡ false
  pub current : current_revision contract.pk clock.today db.revisions ≡ some revision
  pub is_new : p ≡ new_publication clock user db contract revision
  pub added : db'.publications ≡ db.publications ++ p ∷ []
  pub same_revisions : db'.revisions ≡ db.revisions
  pub contracts : db'.contracts ≡ (
      if is_draft_contract contract.status
      then activated clock.now contract.pk db.contracts
      else db.contracts)

check_publish-eq-ok :
    (clock : Clock) (user : User) (contract_id : ℕ) (db : Db) (c : Contract) (r : Revision)
    → check_publish clock user contract_id db ≡ ok (c, r)
    → (find (λ (o : Contract). o.pk == contract_id) db.contracts ≡ some c)
      × (is_closed_status c.status ≡ false)
      × (c.start_date ≤ clock.today)
      × (ended_before clock.today c.end_date ≡ false)
      × (current_revision c.pk clock.today db.revisions ≡ some r)
unfolding check_publish
check_publish-eq-ok clock user contract_id db c r h =
    let hit = λ (o : Contract). o.pk == contract_id in
    elim (Option-cases (find hit db.contracts)) [
      | inl e ↦ absurd (ground (arith, e))
      | inr (o, e) ↦ elim (Option-cases (current_revision o.pk clock.today db.revisions)) [
        | inl f ↦ absurd (ground (arith, e, f))
        | inr (q, f) ↦
            let same : o ≡ c = ground (arith, e, f) in
            let same' : q ≡ r = ground (arith, e, f) in
            (
              rw (← same) e,
              rw (← same) (ground (arith, e)),
              rw (← same) (ground (arith, e)),
              rw (← same) (ground (arith, e)),
              rw (← same) (rw (← same') f),
            )
      ]
    ]

activate-eq-ok :
    (six_years_after : ℕ → ℕ) (now : ℕ) (c : Contract) (rows rows' : List Contract)
    → activate six_years_after now c rows ≡ ok rows'
    → rows' ≡ (if is_draft_contract c.status then activated now c.pk rows else rows)
unfolding activate
activate-eq-ok six_years_after now c rows rows' h =
    elim (Result-cases (check_save six_years_after rows (as_active c))) [
      | inl (filled, e) ↦ ground (arith, e)
      | inr (x, e) ↦ ground (arith, e)
    ]

pub prepare_publish-IsPublish :
    (six_years_after : ℕ → ℕ) (clock : Clock) (user : User) (contract_id : ℕ) (db db' : Db)
    (p : Publication)
    → prepare_publish six_years_after clock user contract_id db ≡ ok (p, db')
    → IsPublish clock user contract_id db p db'
unfolding prepare_publish
prepare_publish-IsPublish six_years_after clock user contract_id db db' p h =
    elim (Result-cases (check_publish clock user contract_id db)) [
      | inr (x, e) ↦ absurd (ground (arith, e))
      | inl ((c, r), e) ↦ elim (Result-cases (activate six_years_after clock.now c db.contracts)) [
        | inr (x, f) ↦ absurd (ground (arith, e, f))
        | inl (rows, f) ↦
            let (read, open_, started, over, current) =
              check_publish-eq-ok clock user contract_id db c r e in
            let made : p ≡ new_publication clock user db c r = ground (arith, e, f) in
            let left : db' ≡ record db {
              contracts = rows;
              publications = db.publications ++ new_publication clock user db c r ∷ [];
            } =
              ground (arith, e, f) in
            record {
              contract = c;
              revision = r;
              read = read;
              not_closed = open_;
              started = started;
              not_over = over;
              current = current;
              is_new = made;
              added = rw made (ap (λ (d : Db). d.publications) left);
              same_revisions = ap (λ (d : Db). d.revisions) left;
              contracts =
                  ap (λ (d : Db). d.contracts) left
                  ∙ activate-eq-ok six_years_after clock.now c db.contracts rows f;
            }
      ]
    ]

pub publish_contract-IsPublish :
    (six_years_after : ℕ → ℕ) (clock : Clock) (user : User) (contract_id : ℕ) (db db' : Db)
    (p : Publication)
    → publish_contract six_years_after clock user contract_id db ≡ (ok p, db')
    → IsPublish clock user contract_id db p db'
unfolding publish_contract
publish_contract-IsPublish six_years_after clock user contract_id db db' p h =
    elim (Result-cases (prepare_publish six_years_after clock user contract_id db)) [
      | inr (x, e) ↦ absurd (ground (arith, e))
      | inl ((q, after_call), e) ↦
          prepare_publish-IsPublish six_years_after clock user contract_id db db' p
            (e ∙ ap ok (ground (arith, e)))
    ]
