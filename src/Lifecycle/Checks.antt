-- ===== src/Lifecycle/Checks.antt =====
-- What an approval or a withdrawal that returns has checked.
use rpsd_config.Common.{
  or_raise-eq-ok, In-select, select, first_by-In, ℕ, String, ◌≤◌, ◌<◌, ◌≡◌, refl, Bool, true, false,
  ◌&&◌, none, some, List, [], ok, raise_if, Result-cases, select, find, first_by, ◌==◌, arith,
  Option-cases, inl, inr, In, find-In, select-In, first_by-least, first_by-eq-none,
}
use rpsd_config.Json.{Json}
use rpsd_config.Json.Canonical.{canonical_value}
use rpsd_config.Json.Checksum.{canonical_snapshot_checksum}
use rpsd_config.Texts.{strip, is_empty}
use rpsd_config.Models.{Db, Contract, Revision, is_draft, is_approved, is_withdrawn}
use rpsd_config.Rbac.{User}
use rpsd_config.Permissions.{can_approve_contract_revision, can_withdraw_contract_revision}
use rpsd_config.Revisions.{later, ended_before}
use rpsd_config.Revisions.Dates.{later-IsSortOrder}
use rpsd_config.Approval.{validate_revision_for_approval}
use rpsd_config.Lifecycle.{
  Runtime, get_contract, get_revision, approved_of, in_sequence, check_start, Frozen, freeze,
  check_approval, check_withdrawal,
}

-- The date fits the period of the contract, is not past, and is later than the date of every
-- approved revision of the contract.
pub record IsNewStart (today : ℕ) (contract : Contract) (rows : List Revision) (start : ℕ)
    : Type 0 where
  pub from_contract : contract.start_date ≤ start
  pub before_end : ended_before start contract.end_date ≡ false
  pub not_past : today ≤ start
  pub after_approved :
      (r : Revision) (d : ℕ)
      → In r rows
      → r.contract_id ≡ contract.pk
      → is_approved r.status ≡ true
      → r.valid_from ≡ some d
      → d < start
  pub first :
      ((r : Revision) → In r rows → r.contract_id ≡ contract.pk → is_approved r.status ≡ false)
      → start ≡ contract.start_date

in_sequence-lt :
    (contract : Contract) (start : ℕ) (rows : List Revision) (r : Revision) (d : ℕ)
    → in_sequence contract start (first_by later rows) ≡ ok tt
    → In r rows
    → r.valid_from ≡ some d
    → d < start
unfolding later in_sequence
in_sequence-lt contract start rows r d h m q = elim (Option-cases (first_by later rows)) [
  | inl e ↦ let none_left = first_by-eq-none later rows e in absurd (rw none_left at m)
  | inr (l, e) ↦
      let least : later r l ≡ false = first_by-least later later-IsSortOrder rows r e m in
      let checked : in_sequence contract start (some l) ≡ ok tt = rw e at h in
      elim (Option-cases l.valid_from) [ inl p ↦ ground arith | inr (f, p) ↦ ground arith ]
]

in_sequence-first :
    (contract : Contract) (start : ℕ) (rows : List Revision)
    → in_sequence contract start (first_by later (approved_of contract.pk rows)) ≡ ok tt
    → ((r : Revision) → In r rows → r.contract_id ≡ contract.pk → is_approved r.status ≡ false)
    → start ≡ contract.start_date
unfolding in_sequence approved_of
in_sequence-first contract start rows h none_approved =
    let mine = λ (r : Revision). r.contract_id == contract.pk && is_approved r.status in
    elim (Option-cases (first_by later (select mine rows))) [
      | inl e ↦ let checked : in_sequence contract start none ≡ ok tt = rw e at h in ground arith
      | inr (l, e) ↦
          let (m, q) = In-select mine rows l (first_by-In later (select mine rows) e) in
          let not_approved : is_approved l.status ≡ false = none_approved l m (ground arith) in
          absurd (ground arith)
    ]

raise_if-eq-ok {ℓ} : {E : Type ℓ} (b : Bool) (e : E) → raise_if b e ≡ ok tt → b ≡ false
raise_if-eq-ok true e h = cc
raise_if-eq-ok false e h = refl

check_start-eq-ok :
    (today : ℕ) (contract : Contract) (approved_rows : List Revision) (locked : Revision)
    (start : ℕ)
    → check_start today contract approved_rows locked ≡ ok start
    → (locked.valid_from ≡ some start)
      × (contract.start_date ≤ start)
      × (ended_before start contract.end_date ≡ false)
      × (today ≤ start)
      × (in_sequence contract start (first_by later approved_rows) ≡ ok tt)
unfolding check_start
check_start-eq-ok today contract approved_rows locked start h = ground arith

pub check_start-IsNewStart :
    (today : ℕ) (contract : Contract) (rows : List Revision) (locked : Revision) (start : ℕ)
    → check_start today contract (approved_of contract.pk rows) locked ≡ ok start
    → (locked.valid_from ≡ some start) × IsNewStart today contract rows start
unfolding approved_of
check_start-IsNewStart today contract rows locked start h =
    let mine = λ (r : Revision). r.contract_id == contract.pk && is_approved r.status in
    let (date, from, before, past, sequence) =
      check_start-eq-ok today contract (select mine rows) locked start h in
    (
      date,
      record {
        from_contract = from;
        before_end = before;
        not_past = past;
        after_approved = λ r d m own appr q.
            in_sequence-lt contract start (select mine rows) r d sequence
              (select-In mine rows r m (ground arith)) q;
        first = in_sequence-first contract start rows sequence;
      },
    )

-- What is stored is the canonical form of the snapshot, with its checksum.
pub record IsFrozen (rt : Runtime) (locked : Revision) (frozen : Frozen) : Type 0 where
  pub valid : validate_revision_for_approval rt.build_revision_snapshot locked ≡ []
  pub snapshot : Json
  pub built : rt.build_revision_snapshot locked ≡ some snapshot
  pub canonical_form : canonical_value snapshot ≡ ok frozen.stored
  pub checksum_of : canonical_snapshot_checksum rt.hexdigest snapshot ≡ ok frozen.checksum

pub freeze-IsFrozen :
    (rt : Runtime) (locked : Revision) (frozen : Frozen)
    → freeze rt locked ≡ ok frozen
    → IsFrozen rt locked frozen
unfolding freeze
freeze-IsFrozen rt locked frozen h = elim (Option-cases (rt.build_revision_snapshot locked)) [
  | inl e ↦ ground arith
  | inr (v, e) ↦ record {
    valid = ground arith;
    snapshot = v;
    built = e;
    canonical_form = ground arith;
    checksum_of = ground arith;
  }
]

-- What an approval that returns has checked, and read.
pub record IsApproval (rt : Runtime) (revision : Revision) (actor : User) (db : Db)
    (locked : Revision) (start : ℕ) (frozen : Frozen) : Type 0 where
  pub contract : Contract
  pub contract_stored : In contract db.contracts
  pub allowed : can_approve_contract_revision rt.root db actor contract ≡ true
  pub stored : In locked db.revisions
  pub same_pk : locked.pk ≡ revision.pk
  pub of_contract : locked.contract_id ≡ contract.pk
  pub drafted : is_draft locked.status ≡ true
  pub date : locked.valid_from ≡ some start
  pub new_start : IsNewStart rt.clock.today contract db.revisions start
  pub is_frozen : IsFrozen rt locked frozen

get_revision-In :
    (contract_id id : ℕ) (db : Db) (r : Revision)
    → get_revision contract_id id db ≡ ok r
    → In r db.revisions × (r.contract_id ≡ contract_id) × (r.pk ≡ id)
unfolding get_revision
get_revision-In contract_id id db r h =
    let (m, p) =
      find-In (λ (r : Revision). r.contract_id == contract_id && r.pk == id) db.revisions {x = r}
        (or_raise-eq-ok _ _ h) in
    (m, ground arith, ground arith)

get_contract-In : (id : ℕ) (db : Db) (c : Contract) → get_contract id db ≡ ok c → In c db.contracts
unfolding get_contract
get_contract-In id db c h =
    (find-In (λ (o : Contract). o.pk == id) db.contracts {x = c} (or_raise-eq-ok _ _ h)).0

pub check_approval-IsApproval :
    (rt : Runtime) (revision : Revision) (actor : User) (db : Db) (locked : Revision) (start : ℕ)
    (frozen : Frozen)
    → check_approval rt revision actor db ≡ ok (locked, start, frozen)
    → IsApproval rt revision actor db locked start frozen
unfolding check_approval
check_approval-IsApproval rt revision actor db locked start frozen h =
    elim (Result-cases (get_contract revision.contract_id db)) [
      | inr (x, e) ↦ ground arith
      | inl (c, e) ↦
          let read : get_revision c.pk revision.pk db ≡ ok locked = ground arith in
          let dated : check_start rt.clock.today c (approved_of c.pk db.revisions) locked
              ≡ ok start =
            ground arith in
          let (m, own, key) = get_revision-In c.pk revision.pk db locked read in
          let (date, new_start) =
            check_start-IsNewStart rt.clock.today c db.revisions locked start dated in
          record {
            contract = c;
            contract_stored = get_contract-In revision.contract_id db c e;
            allowed = ground arith;
            stored = m;
            same_pk = key;
            of_contract = own;
            drafted = ground arith;
            date = date;
            new_start = new_start;
            is_frozen = freeze-IsFrozen rt locked frozen (ground arith);
          }
    ]

-- What a withdrawal that returns has checked, and read.
pub record IsWithdrawal (rt : Runtime) (revision : Revision) (reason : String) (actor : User)
    (db : Db) (locked : Revision) : Type 0 where
  pub contract : Contract
  pub allowed : can_withdraw_contract_revision rt.root db actor contract ≡ true
  pub reasoned : is_empty (strip reason) ≡ false
  pub stored : In locked db.revisions
  pub same_pk : locked.pk ≡ revision.pk
  pub not_withdrawn : is_withdrawn locked.status ≡ false
  pub future : (d : ℕ) × (locked.valid_from ≡ some d) × (rt.clock.today < d)

pub check_withdrawal-IsWithdrawal :
    (rt : Runtime) (revision : Revision) (reason : String) (actor : User) (db : Db)
    (locked : Revision)
    → check_withdrawal rt revision reason actor db ≡ ok locked
    → IsWithdrawal rt revision reason actor db locked
unfolding check_withdrawal
check_withdrawal-IsWithdrawal rt revision reason actor db locked h =
    elim (Result-cases (get_contract revision.contract_id db)) [
      | inr (x, e) ↦ ground arith
      | inl (c, e) ↦
          let found : find (λ (r : Revision). r.pk == revision.pk) db.revisions ≡ some locked =
            ground arith in
          let (m, key) = find-In (λ (r : Revision). r.pk == revision.pk) db.revisions found in
          record {
            contract = c;
            allowed = ground arith;
            reasoned = ground arith;
            stored = m;
            same_pk = ground arith;
            not_withdrawn = ground arith;
            future = elim (Option-cases locked.valid_from) [
              | inl q ↦ ground arith
              | inr (d, q) ↦ (d, q, ground arith)
            ];
          }
    ]
