-- ===== src/Revisions/Current.antt =====
-- The revision that is resolved is the one whose period contains today.
use rpsd_config.Common.{
  ℕ, ◌≤◌, ◌<◌, ◌≡◌, true, false, none, some, List, select, first_by-In, first_by-least,
  first_by-eq-none, In, In-select, select-In, arith, Bool-cases, Option-cases, inl, inr,
}
use rpsd_config.Models.{Revision, is_approved}
use rpsd_config.Revisions.{later, candidate, current_revision, successor, next_revision}
use rpsd_config.Revisions.Dates.{later-IsSortOrder, earlier-IsSortOrder}

-- What the query for the current revision promises.
pub record IsCurrent (contract_id day : ℕ) (rows : List Revision) (r : Revision) : Type 0 where
  pub stored : In r rows
  pub fits : candidate contract_id day r ≡ true
  pub latest : (s : Revision) → In s rows → candidate contract_id day s ≡ true → later s r ≡ false

-- A revision that is found is stored, approved, started, of the contract, and no other such
-- revision starts later.
pub current_revision-IsCurrent :
    (contract_id day : ℕ) (rows : List Revision) (r : Revision)
    → current_revision contract_id day rows ≡ some r
    → IsCurrent contract_id day rows r
unfolding current_revision
current_revision-IsCurrent contract_id day rows r e =
    let fit = candidate contract_id day in
    let m = first_by-In later (select fit rows) e in
    record {
      stored = (In-select fit rows r m).0;
      fits = (In-select fit rows r m).1;
      latest = λ s q p.
          first_by-least later later-IsSortOrder (select fit rows) s e (select-In fit rows s q p);
    }

-- Where none is found, no stored revision fits.
pub current_revision-eq-none :
    (contract_id day : ℕ) (rows : List Revision) (s : Revision)
    → current_revision contract_id day rows ≡ none
    → In s rows
    → candidate contract_id day s ≡ false
unfolding current_revision
current_revision-eq-none contract_id day rows s e m =
    let fit = candidate contract_id day in
    elim (Bool-cases (fit s)) [
      | inl p ↦
          let q = first_by-eq-none later (select fit rows) e in
          absurd (rw q at (select-In fit rows s m p))
      | inr p ↦ p
    ]

pub record IsNext (contract_id day : ℕ) (rows : List Revision) (n : Revision) : Type 0 where
  pub stored : In n rows
  pub fits : successor contract_id day n ≡ true
  pub earliest : (s : Revision) → In s rows → successor contract_id day s ≡ true → later n s ≡ false

pub next_revision-IsNext :
    (contract_id day : ℕ) (rows : List Revision) (n : Revision)
    → next_revision contract_id day rows ≡ some n
    → IsNext contract_id day rows n
unfolding next_revision
next_revision-IsNext contract_id day rows n e =
    let fit = successor contract_id day in
    let before = λ (x y : Revision). later y x in
    let m = first_by-In before (select fit rows) e in
    record {
      stored = (In-select fit rows n m).0;
      fits = (In-select fit rows n m).1;
      earliest = λ s q p.
          first_by-least before earlier-IsSortOrder (select fit rows) s e
            (select-In fit rows s q p);
    }

pub next_revision-eq-none :
    (contract_id day : ℕ) (rows : List Revision) (s : Revision)
    → next_revision contract_id day rows ≡ none
    → In s rows
    → successor contract_id day s ≡ false
unfolding next_revision
next_revision-eq-none contract_id day rows s e m =
    let fit = successor contract_id day in
    let before = λ (x y : Revision). later y x in
    elim (Bool-cases (fit s)) [
      | inl p ↦
          let q = first_by-eq-none before (select fit rows) e in
          absurd (rw q at (select-In fit rows s m p))
      | inr p ↦ p
    ]

-- The date of a revision that fits.
pub candidate-date :
    (contract_id day : ℕ) (r : Revision)
    → candidate contract_id day r ≡ true
    → (d : ℕ) × (r.valid_from ≡ some d)
      × (d ≤ day)
      × (r.contract_id ≡ contract_id)
      × (is_approved r.status ≡ true)
unfolding candidate
candidate-date contract_id day r h = elim (Option-cases r.valid_from) [
  | inl e ↦ ground arith
  | inr (d, e) ↦ (d, e, ground arith, ground arith, ground arith)
]

pub successor-date :
    (contract_id day : ℕ) (r : Revision)
    → successor contract_id day r ≡ true
    → (d : ℕ) × (r.valid_from ≡ some d)
      × (day < d)
      × (r.contract_id ≡ contract_id)
      × (is_approved r.status ≡ true)
unfolding successor
successor-date contract_id day r h = elim (Option-cases r.valid_from) [
  | inl e ↦ ground arith
  | inr (d, e) ↦ (d, e, ground arith, ground arith, ground arith)
]
