-- ===== src/Lifecycle/Evolution.antt =====
-- What becomes of a stored revision: a row that is no draft any more is frozen.
use rpsd_config.Common.{
  String, ◌≡◌, refl, ◌∙◌, true, false, List, In, update_rows, update_rows-In, ◌==◌, arith,
  Bool-cases, Result-cases, inl, inr,
}
use rpsd_config.Models.{Db, Revision, RevisionStatus, draft, approved, withdrawn, is_draft}
use rpsd_config.Rbac.{User}
use rpsd_config.Lifecycle.{
  Runtime, as_approved, write_approval, check_approval, approve_contract_revision, as_withdrawn,
  write_withdrawal, check_withdrawal, withdraw_contract_revision,
}
use rpsd_config.Lifecycle.Checks.{check_approval-IsApproval}
use rpsd_config.Lifecycle.Invariant.{IsConsistent}

-- draft → approved → withdrawn, and draft → withdrawn
abbrev pub Advances : RevisionStatus → RevisionStatus → Type 0
Advances draft s = Unit
Advances approved draft = ⊥
Advances approved approved = Unit
Advances approved withdrawn = Unit
Advances withdrawn withdrawn = Unit
Advances withdrawn _ = ⊥

-- What may become of a row: its identity and start date stay, its status only advances, and the
-- snapshot and composition of a row that is no draft stay.
pub record Evolves (x y : Revision) : Type 0 where
  pub pk : y.pk ≡ x.pk
  pub contract : y.contract_id ≡ x.contract_id
  pub number : y.revision_number ≡ x.revision_number
  pub date : y.valid_from ≡ x.valid_from
  pub status : Advances x.status y.status
  pub schema_version :
      is_draft x.status ≡ false → y.snapshot_schema_version ≡ x.snapshot_schema_version
  pub snapshot : is_draft x.status ≡ false → y.configuration_snapshot ≡ x.configuration_snapshot
  pub checksum : is_draft x.status ≡ false → y.snapshot_checksum ≡ x.snapshot_checksum
  pub inputs : is_draft x.status ≡ false → y.inputs ≡ x.inputs
  pub configurations : is_draft x.status ≡ false → y.configurations ≡ x.configurations

Advances-refl : (s : RevisionStatus) → Advances s s
Advances-refl draft = tt
Advances-refl approved = tt
Advances-refl withdrawn = tt

Advances-trans : (a b c : RevisionStatus) → Advances a b → Advances b c → Advances a c
Advances-trans draft b c h p = tt
Advances-trans approved draft c h p = absurd h
Advances-trans approved approved c h p = p
Advances-trans approved withdrawn withdrawn h p = tt
Advances-trans approved withdrawn draft h p = absurd p
Advances-trans approved withdrawn approved h p = absurd p
Advances-trans withdrawn withdrawn c h p = p
Advances-trans withdrawn draft c h p = absurd h
Advances-trans withdrawn approved c h p = absurd h

Advances-is_draft : (a b : RevisionStatus) → Advances a b → is_draft a ≡ false → is_draft b ≡ false
Advances-is_draft a b h e = ground arith

pub Evolves-refl : (x : Revision) → Evolves x x
Evolves-refl x = record {
  pk = refl;
  contract = refl;
  number = refl;
  date = refl;
  status = Advances-refl x.status;
  schema_version = λ _. refl;
  snapshot = λ _. refl;
  checksum = λ _. refl;
  inputs = λ _. refl;
  configurations = λ _. refl;
}

pub Evolves-trans : (x y z : Revision) → Evolves x y → Evolves y z → Evolves x z
Evolves-trans x y z h p =
    let still = Advances-is_draft x.status y.status h.status in
    record {
      pk = p.pk ∙ h.pk;
      contract = p.contract ∙ h.contract;
      number = p.number ∙ h.number;
      date = p.date ∙ h.date;
      status = Advances-trans x.status y.status z.status h.status p.status;
      schema_version = λ e. p.schema_version (still e) ∙ h.schema_version e;
      snapshot = λ e. p.snapshot (still e) ∙ h.snapshot e;
      checksum = λ e. p.checksum (still e) ∙ h.checksum e;
      inputs = λ e. p.inputs (still e) ∙ h.inputs e;
      configurations = λ e. p.configurations (still e) ∙ h.configurations e;
    }

-- An update of the rows of one key lets every row evolve, if its own row does.
pub evolve_update :
    (rows : List Revision) (locked : Revision) (f : Revision → Revision)
    → ((x : Revision) → In x rows → x.pk ≡ locked.pk → Evolves x (f x))
    → (x : Revision) → In x rows
    → (y : Revision) × In y (update_rows (λ r. r.pk == locked.pk) f rows) × Evolves x y
evolve_update rows locked f h x m =
    let hit = λ (r : Revision). r.pk == locked.pk in
    let stored = update_rows-In hit f rows x m in
    elim (Bool-cases (hit x)) [
      | inl e ↦ (f x, rw e at stored, h x m (ground arith))
      | inr e ↦ (x, rw e at stored, Evolves-refl x)
    ]

-- What every row of a database may have become in another one.
abbrev pub RowsEvolve : Db → Db → Type 0
RowsEvolve db db' =
    (x : Revision) → In x db.revisions → (y : Revision) × In y db'.revisions × Evolves x y

pub approve-RowsEvolve :
    (rt : Runtime) (revision : Revision) (actor : User) (db : Db)
    → IsConsistent rt.hexdigest db.revisions
    → RowsEvolve db (approve_contract_revision rt revision actor db).1
unfolding approve_contract_revision write_approval
approve-RowsEvolve rt revision actor db c =
    elim (Result-cases (check_approval rt revision actor db)) [
      | inr (x, e) ↦ rw e (λ x m. (x, m, Evolves-refl x))
      | inl ((locked, start, frozen), e) ↦
          let facts = check_approval-IsApproval rt revision actor db locked start frozen e in
          rw e (
            evolve_update db.revisions locked (as_approved rt actor frozen) (λ x m key.
              let same : x ≡ locked = c.unique_pks x locked m facts.stored key in
              let was_draft : is_draft x.status ≡ true = rw same facts.drafted in
              record {
                pk = refl;
                contract = refl;
                number = refl;
                date = refl;
                status = ground arith;
                schema_version = λ n. ground arith;
                snapshot = λ n. ground arith;
                checksum = λ n. ground arith;
                inputs = λ n. refl;
                configurations = λ n. refl;
              }))
    ]

pub withdraw-RowsEvolve :
    (rt : Runtime) (revision : Revision) (reason : String) (actor : User) (db : Db)
    → RowsEvolve db (withdraw_contract_revision rt revision reason actor db).1
unfolding withdraw_contract_revision write_withdrawal
withdraw-RowsEvolve rt revision reason actor db =
    elim (Result-cases (check_withdrawal rt revision reason actor db)) [
      | inr (x, e) ↦ rw e (λ x m. (x, m, Evolves-refl x))
      | inl (locked, e) ↦ rw e (
          evolve_update db.revisions locked (as_withdrawn rt actor reason) (λ x m key. record {
            pk = refl;
            contract = refl;
            number = refl;
            date = refl;
            status = ground arith;
            schema_version = λ n. refl;
            snapshot = λ n. refl;
            checksum = λ n. refl;
            inputs = λ n. refl;
            configurations = λ n. refl;
          }))
    ]
