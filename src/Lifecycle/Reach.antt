-- ===== src/Lifecycle/Reach.antt =====
-- Sequences of the services on revisions, by any users at any times: the invariant holds throughout,
-- and a row that is no draft any more is frozen.
use rpsd_config.Common.{String, ◌≡◌, ◌≢◌, List, In}
use mathlib.Core.Path.{subst}
use rpsd_config.Json.{Json}
use rpsd_config.Models.{ProfileInput, Db, Revision}
use rpsd_config.Rbac.{User}
use rpsd_config.Drafts.Create.{Library, DraftRequest, create_revision_draft}
use rpsd_config.Drafts.Replace.{Chosen, IndicatorConfig, replace_draft_configuration}
use rpsd_config.Drafts.Kept.{
  create-IsConsistent, create-RowsEvolve, replace-IsConsistent, replace-RowsEvolve,
}
use rpsd_config.Lifecycle.Evolution.{
  Evolves-refl, Evolves-trans, RowsEvolve, approve-RowsEvolve, withdraw-RowsEvolve,
}
use rpsd_config.Lifecycle.{Runtime, approve_contract_revision, withdraw_contract_revision}
use rpsd_config.Lifecycle.Invariant.{IsConsistent, approve-IsConsistent, withdraw-IsConsistent}

-- One call, by any user at any time, of a service whose hash is `hexdigest`. A new row has a new key.
pub data Step (hexdigest : Json → String) (db db' : Db) : Type 0 where
  creation :
      (rt : Runtime) (lib : Library) (request : DraftRequest) (actor : User)
      → ((r : Revision) → In r db.revisions → r.pk ≢ request.new_pk)
      → db' ≡ (create_revision_draft rt lib request actor db).1
      → Step hexdigest db db'
  replacement :
      (rt : Runtime) (lib : Library) (revision : Revision) (selections : List (Chosen ProfileInput))
      (items : List IndicatorConfig) (actor : User)
      → db' ≡ (replace_draft_configuration rt lib revision selections items actor db).1
      → Step hexdigest db db'
  approval :
      (rt : Runtime) (revision : Revision) (actor : User)
      → rt.hexdigest ≡ hexdigest
      → db' ≡ (approve_contract_revision rt revision actor db).1
      → Step hexdigest db db'
  withdrawal :
      (rt : Runtime) (revision : Revision) (reason : String) (actor : User)
      → rt.hexdigest ≡ hexdigest
      → db' ≡ (withdraw_contract_revision rt revision reason actor db).1
      → Step hexdigest db db'

pub data Reach (hexdigest : Json → String) (db : Db) : Db → Type 0 where
  here : Reach hexdigest db db
  next : {mid db' : Db} → Reach hexdigest db mid → Step hexdigest mid db' → Reach hexdigest db db'

Step-IsConsistent :
    (hexdigest : Json → String) (db db' : Db)
    → Step hexdigest db db'
    → IsConsistent hexdigest db.revisions
    → IsConsistent hexdigest db'.revisions
Step-IsConsistent hexdigest db db' (creation rt lib request actor fresh e) c =
    rw e (create-IsConsistent hexdigest rt lib request actor db fresh c)
Step-IsConsistent hexdigest db db' (replacement rt lib revision selections items actor e) c =
    rw e (replace-IsConsistent hexdigest rt lib revision selections items actor db c)
Step-IsConsistent hexdigest db db' (approval rt revision actor same e) c =
    let after = (approve_contract_revision rt revision actor db).1 in
    rw e (
      subst (λ (h : Json → String). IsConsistent h after.revisions) same
        (approve-IsConsistent rt revision actor db (rw same c)))
Step-IsConsistent hexdigest db db' (withdrawal rt revision reason actor same e) c =
    let after = (withdraw_contract_revision rt revision reason actor db).1 in
    rw e (
      subst (λ (h : Json → String). IsConsistent h after.revisions) same
        (withdraw-IsConsistent rt revision reason actor db (rw same c)))

Step-RowsEvolve :
    (hexdigest : Json → String) (db db' : Db)
    → Step hexdigest db db'
    → IsConsistent hexdigest db.revisions
    → RowsEvolve db db'
Step-RowsEvolve hexdigest db db' (creation rt lib request actor fresh e) c =
    rw e (create-RowsEvolve rt lib request actor db)
Step-RowsEvolve hexdigest db db' (replacement rt lib revision selections items actor e) c =
    rw e (replace-RowsEvolve rt lib revision selections items actor db c.unique_pks)
Step-RowsEvolve hexdigest db db' (approval rt revision actor same e) c =
    rw e (approve-RowsEvolve rt revision actor db (rw same c))
Step-RowsEvolve hexdigest db db' (withdrawal rt revision reason actor same e) c =
    rw e (withdraw-RowsEvolve rt revision reason actor db)

-- However many creations and replacements of drafts, approvals and withdrawals are called from a
-- consistent database, by whatever users at whatever times, the database stays consistent.
pub Reach-IsConsistent :
    (hexdigest : Json → String) (db : Db) {db' : Db}
    → IsConsistent hexdigest db.revisions
    → Reach hexdigest db db'
    → IsConsistent hexdigest db'.revisions
Reach-IsConsistent hexdigest db c here = c
Reach-IsConsistent hexdigest db {db'} c (next {mid = mid} r s) =
    Step-IsConsistent hexdigest mid db' s (Reach-IsConsistent hexdigest db c r)

-- However many creations and replacements of drafts, approvals and withdrawals are called from a
-- consistent database, every revision is still stored under its key, its status has only advanced, and
-- the snapshot, the checksum and the composition of one that was approved or withdrawn are unchanged.
pub Reach-RowsEvolve :
    (hexdigest : Json → String) (db : Db) {db' : Db}
    → IsConsistent hexdigest db.revisions
    → Reach hexdigest db db'
    → RowsEvolve db db'
Reach-RowsEvolve hexdigest db c here = λ x m. (x, m, Evolves-refl x)
Reach-RowsEvolve hexdigest db {db'} c (next {mid = mid} r s) = λ x m.
    let (y, my, h) = Reach-RowsEvolve hexdigest db c r x m in
    let (z, mz, p) =
      Step-RowsEvolve hexdigest mid db' s (Reach-IsConsistent hexdigest db c r) y my in
    (z, mz, Evolves-trans x y z h p)
