-- ===== src/Lifecycle/Invariant.antt =====
-- The invariant of the stored revisions, which approval and withdrawal keep whether they return or
-- raise.
use rpsd_config.Common.{
  ℕ, String, ◌≡◌, ◌≢◌, refl, sym, ◌∙◌, ap, true, none, List, ok, update_rows, In, In-update_rows,
  ◌==◌, arith, Bool-cases, Result-cases, inl, inr, ◌⊎◌,
}
use rpsd_config.Json.{Json}
use rpsd_config.Json.Checksum.{canonical_snapshot_checksum, checksum-canonical_value}
use rpsd_config.Models.{Db, Revision, is_approved}
use rpsd_config.Rbac.{User}
use rpsd_config.Revisions.Periods.{HasUniqueDates}
use rpsd_config.Lifecycle.{
  Runtime, Frozen, as_approved, write_approval, check_approval, approve_contract_revision,
  as_withdrawn, write_withdrawal, check_withdrawal, withdraw_contract_revision,
}
use rpsd_config.Lifecycle.Checks.{
  IsApproval, check_approval-IsApproval, check_withdrawal-IsWithdrawal,
}
use rpsd_config.Lifecycle.History.{HasUniquePks}

-- What is true of one approved revision: it has a start date, and its checksum is that of its
-- snapshot.
pub record IsSound (hexdigest : Json → String) (r : Revision) : Type 0 where
  pub dated : r.valid_from ≢ none
  pub checksum :
      canonical_snapshot_checksum hexdigest r.configuration_snapshot ≡ ok r.snapshot_checksum

pub record IsConsistent (hexdigest : Json → String) (rows : List Revision) : Type 0 where
  pub unique_pks : HasUniquePks rows
  pub unique_dates : HasUniqueDates rows
  pub sound : (r : Revision) → In r rows → is_approved r.status ≡ true → IsSound hexdigest r

-- A row of an updated table is the updated row, or another row that was there.
pub updated_row :
    (rows : List Revision) (locked : Revision) (f : Revision → Revision) (x : Revision)
    → HasUniquePks rows
    → In locked rows
    → In x (update_rows (λ r. r.pk == locked.pk) f rows)
    → (x ≡ f locked) ⊎ (In x rows × (x.pk ≢ locked.pk))
updated_row rows locked f x unique m q =
    let (y, my, e) = In-update_rows (λ r. r.pk == locked.pk) f rows x q in
    elim (Bool-cases (y.pk == locked.pk)) [
      | inl p ↦
          let same : y ≡ locked = unique y locked my m (ground arith) in inl (e ∙ rw p (ap f same))
      | inr p ↦ let same : x ≡ y = rw p at e in inr (rw same my, rw same (ground arith))
    ]

-- An update that keeps the key of its row keeps keys unique.
pub update_rows-HasUniquePks :
    (rows : List Revision) (locked : Revision) (f : Revision → Revision)
    → HasUniquePks rows
    → In locked rows
    → (f locked).pk ≡ locked.pk
    → HasUniquePks (update_rows (λ r. r.pk == locked.pk) f rows)
update_rows-HasUniquePks rows locked f unique m key x y mx my e =
    elim (updated_row rows locked f x unique m mx) [
      | inl px ↦ elim (updated_row rows locked f y unique m my) [
        | inl py ↦ px ∙ sym py
        | inr (qy, ne) ↦ absurd (ne (sym e ∙ (ap (λ (r : Revision). r.pk) px ∙ key)))
      ]
      | inr (qx, ne) ↦ elim (updated_row rows locked f y unique m my) [
        | inl py ↦ absurd (ne (e ∙ (ap (λ (r : Revision). r.pk) py ∙ key)))
        | inr (qy, ne') ↦ unique x y qx qy e
      ]
    ]

-- A new approved row is later than the others of its contract.
approved-HasUniqueDates :
    (rt : Runtime) (actor : User) (frozen : Frozen) (db : Db) (revision locked : Revision)
    (start : ℕ)
    → IsApproval rt revision actor db locked start frozen
    → HasUniquePks db.revisions
    → HasUniqueDates db.revisions
    → HasUniqueDates
        (update_rows (λ r. r.pk == locked.pk) (as_approved rt actor frozen) db.revisions)
approved-HasUniqueDates rt actor frozen db revision locked start facts unique dates x y mx my ax ay
      own e =
    let f = as_approved rt actor frozen in
    let row = λ (z : Revision). updated_row db.revisions locked f z unique facts.stored in
    let older = facts.new_start.after_approved in
    elim (row x mx) [
      | inl px ↦ elim (row y my) [
        | inl py ↦ px ∙ sym py
        | inr (qy, ne) ↦
            absurd (ground (arith, px, facts.date, facts.of_contract, older y start qy))
      ]
      | inr (qx, ne) ↦ elim (row y my) [
        | inl py ↦ absurd (ground (arith, py, facts.date, facts.of_contract, older x start qx))
        | inr (qy, ne') ↦ dates x y qx qy ax ay own e
      ]
    ]

-- The row that an approval writes is sound: its checksum is the one of the stored snapshot.
pub as_approved-IsSound :
    (rt : Runtime) (actor : User) (frozen : Frozen) (db : Db) (revision locked : Revision)
    (start : ℕ)
    → IsApproval rt revision actor db locked start frozen
    → IsSound rt.hexdigest (as_approved rt actor frozen locked)
as_approved-IsSound rt actor frozen db revision locked start facts =
    let f = facts.is_frozen in
    record {
      dated = λ e. ground (arith, facts.date);
      checksum =
          checksum-canonical_value rt.hexdigest f.snapshot frozen.stored f.canonical_form
          ∙ f.checksum_of;
    }

write_approval-IsConsistent :
    (rt : Runtime) (actor : User) (frozen : Frozen) (db : Db) (revision locked : Revision)
    (start : ℕ)
    → IsApproval rt revision actor db locked start frozen
    → IsConsistent rt.hexdigest db.revisions
    → IsConsistent rt.hexdigest (write_approval rt actor locked frozen db).revisions
unfolding write_approval
write_approval-IsConsistent rt actor frozen db revision locked start facts c =
    let f = as_approved rt actor frozen in
    record {
      unique_pks = update_rows-HasUniquePks db.revisions locked f c.unique_pks facts.stored refl;
      unique_dates =
          approved-HasUniqueDates rt actor frozen db revision locked start facts c.unique_pks
            c.unique_dates;
      sound = λ r m a. elim (updated_row db.revisions locked f r c.unique_pks facts.stored m) [
        | inl e ↦ rw e (as_approved-IsSound rt actor frozen db revision locked start facts)
        | inr (q, ne) ↦ c.sound r q a
      ];
    }

-- Approval keeps the invariant of the stored revisions, whether it returns or raises.
pub approve-IsConsistent :
    (rt : Runtime) (revision : Revision) (actor : User) (db : Db)
    → IsConsistent rt.hexdigest db.revisions
    → IsConsistent rt.hexdigest (approve_contract_revision rt revision actor db).1.revisions
unfolding approve_contract_revision
approve-IsConsistent rt revision actor db c =
    elim (Result-cases (check_approval rt revision actor db)) [
      | inr (x, e) ↦ rw e c
      | inl ((locked, start, frozen), e) ↦ rw e (
          write_approval-IsConsistent rt actor frozen db revision locked start
            (check_approval-IsApproval rt revision actor db locked start frozen e) c)
    ]

-- A withdrawn row is not approved, so the other rows alone count.
withdrawn-HasUniqueDates :
    (rt : Runtime) (actor : User) (reason : String) (rows : List Revision) (locked : Revision)
    → HasUniquePks rows
    → In locked rows
    → HasUniqueDates rows
    → HasUniqueDates (update_rows (λ r. r.pk == locked.pk) (as_withdrawn rt actor reason) rows)
withdrawn-HasUniqueDates rt actor reason rows locked unique m dates x y mx my ax ay own e =
    let f = as_withdrawn rt actor reason in
    elim (updated_row rows locked f x unique m mx) [
      | inl px ↦ absurd (ground (arith, px))
      | inr (qx, ne) ↦ elim (updated_row rows locked f y unique m my) [
        | inl py ↦ absurd (ground (arith, py))
        | inr (qy, ne') ↦ dates x y qx qy ax ay own e
      ]
    ]

write_withdrawal-IsConsistent :
    (rt : Runtime) (actor : User) (reason : String) (db : Db) (locked : Revision)
    → In locked db.revisions
    → IsConsistent rt.hexdigest db.revisions
    → IsConsistent rt.hexdigest (write_withdrawal rt actor reason locked db).revisions
unfolding write_withdrawal
write_withdrawal-IsConsistent rt actor reason db locked m c =
    let f = as_withdrawn rt actor reason in
    record {
      unique_pks = update_rows-HasUniquePks db.revisions locked f c.unique_pks m refl;
      unique_dates =
          withdrawn-HasUniqueDates rt actor reason db.revisions locked c.unique_pks m
            c.unique_dates;
      sound = λ r q a. elim (updated_row db.revisions locked f r c.unique_pks m q) [
        | inl e ↦ absurd (ground (arith, e))
        | inr (p, ne) ↦ c.sound r p a
      ];
    }

-- Withdrawal keeps the invariant of the stored revisions, whether it returns or raises.
pub withdraw-IsConsistent :
    (rt : Runtime) (revision : Revision) (reason : String) (actor : User) (db : Db)
    → IsConsistent rt.hexdigest db.revisions
    → IsConsistent rt.hexdigest (withdraw_contract_revision rt revision reason actor db).1.revisions
unfolding withdraw_contract_revision
withdraw-IsConsistent rt revision reason actor db c =
    elim (Result-cases (check_withdrawal rt revision reason actor db)) [
      | inr (x, e) ↦ rw e c
      | inl (locked, e) ↦ rw e (
          write_withdrawal-IsConsistent rt actor reason db locked
            (check_withdrawal-IsWithdrawal rt revision reason actor db locked e).stored c)
    ]
