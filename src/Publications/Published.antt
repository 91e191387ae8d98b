-- ===== src/Publications/Published.antt =====
-- What a publication holds, and what a call leaves in the database.
use rpsd_config.Common.{
  ℕ, ◌≤◌, ◌≡◌, refl, sym, ◌∙◌, ap, true, false, some, List, [], ◌∷◌, ◌++◌, ok, In, In-append, find,
  find-In, ◌==◌, arith, Bool-cases, Option-cases, Result-cases, inl, inr,
}
use rpsd_config.Models.{
  Clock, Db, Contract, is_draft_contract, is_closed_status, is_active_status, is_active_today,
  Revision, Publication,
}
use rpsd_config.Models.Contracts
use rpsd_config.Rbac.{User}
use rpsd_config.Revisions.{current_revision, ended_before, resolve_current_contract_revision}
use rpsd_config.Publications.{
  latest_version, new_publication, activated, prepare_publish, publish_contract,
}
use rpsd_config.Common.{find-update_rows}
use rpsd_config.Publications.Checks.{publish_contract-IsPublish, prepare_publish-IsPublish}

find-activated :
    (now contract_id k : ℕ) (rows : List Contract) (c : Contract)
    → k ≡ contract_id
    → find (λ o. o.pk == contract_id) rows ≡ some c
    → find (λ o. o.pk == contract_id) (activated now k rows)
      ≡ some (record c { status = Contracts.active; updated_at = now })
find-activated now contract_id k rows c own e = rw own (
    find-update_rows (λ (o : Contract). o.pk == contract_id)
      (λ (o : Contract). record o { status = Contracts.active; updated_at = now }) rows c (λ y q. q)
      e)

-- What is resolved for an effective contract is its current revision.
resolve-current :
    (today : ℕ) (rows : List Revision) (c : Contract) (r : Revision)
    → is_active_status c.status ≡ true
    → c.start_date ≤ today
    → ended_before today c.end_date ≡ false
    → current_revision c.pk today rows ≡ some r
    → resolve_current_contract_revision today rows c ≡ ok r
unfolding resolve_current_contract_revision is_active_today
resolve-current today rows c r a started over current = elim (Option-cases c.end_date) [
  | inl e ↦ rw current (ground (arith, e))
  | inr (d, e) ↦ rw current (ground (arith, e))
]

active_unless :
    (c : Contract)
    → is_closed_status c.status ≡ false
    → is_draft_contract c.status ≡ false
    → is_active_status c.status ≡ true
active_unless c h q = ground arith

-- After a publication that returns, the contract is active, and the revision that is resolved for
-- it is the published one, with the snapshot and the checksum of the publication.
pub publish-resolve :
    (six_years_after : ℕ → ℕ) (clock : Clock) (user : User) (contract_id : ℕ) (db db' : Db)
    (p : Publication)
    → publish_contract six_years_after clock user contract_id db ≡ (ok p, db')
    → (c : Contract) × (r : Revision) × (find (λ o. o.pk == contract_id) db'.contracts ≡ some c)
      × (is_active_status c.status ≡ true)
      × (resolve_current_contract_revision clock.today db'.revisions c ≡ ok r)
      × (p.configuration_revision_id ≡ r.pk)
      × (p.snapshot ≡ r.configuration_snapshot)
      × (p.snapshot_checksum ≡ r.snapshot_checksum)
unfolding new_publication
publish-resolve six_years_after clock user contract_id db db' p h =
    let facts = publish_contract-IsPublish six_years_after clock user contract_id db db' p h in
    let c = facts.contract in
    let key = (find-In (λ (o : Contract). o.pk == contract_id) db.contracts facts.read).1 in
    let own : c.pk ≡ contract_id = ground (arith, key) in
    let current : current_revision c.pk clock.today db'.revisions ≡ some facts.revision =
      rw facts.same_revisions facts.current in
    elim (Bool-cases (is_draft_contract c.status)) [
      | inl e ↦
          let now_active = record c { status = Contracts.active; updated_at = clock.now } in
          let rows : db'.contracts ≡ activated clock.now c.pk db.contracts =
            rw e at facts.contracts in
          (
            now_active,
            facts.revision,
            rw rows (find-activated clock.now contract_id c.pk db.contracts c own facts.read),
            refl,
            resolve-current clock.today db'.revisions now_active facts.revision refl facts.started
                facts.not_over current,
            ap (λ (q : Publication). q.configuration_revision_id) facts.is_new,
            ap (λ (q : Publication). q.snapshot) facts.is_new,
            ap (λ (q : Publication). q.snapshot_checksum) facts.is_new,
          )
      | inr e ↦
          let rows : db'.contracts ≡ db.contracts = rw e at facts.contracts in
          let is_active = active_unless c facts.not_closed e in
          (
            c,
            facts.revision,
            rw rows facts.read,
            is_active,
            resolve-current clock.today db'.revisions c facts.revision is_active facts.started
                facts.not_over current,
            ap (λ (q : Publication). q.configuration_revision_id) facts.is_new,
            ap (λ (q : Publication). q.snapshot) facts.is_new,
            ap (λ (q : Publication). q.snapshot_checksum) facts.is_new,
          )
    ]

-- No publication of the contract has a later version than the latest one.
latest_version-least :
    (contract_id : ℕ) (ps : List Publication) (p : Publication)
    → In p ps
    → p.contract_id ≡ contract_id
    → p.publication_version ≤ latest_version contract_id ps
unfolding latest_version
latest_version-least contract_id [] p m e = absurd m
latest_version-least contract_id (q ∷ ps) p m e = elim m [
  | inl same ↦ ground (arith, same)
  | inr r ↦ ground (arith, latest_version-least contract_id ps p r e)
]

-- Two publications of one contract with one version are the same.
abbrev pub HasUniqueVersions : List Publication → Type 0
HasUniqueVersions ps =
    (x y : Publication)
    → In x ps
    → In y ps
    → x.contract_id ≡ y.contract_id
    → x.publication_version ≡ y.publication_version
    → x ≡ y

added-HasUniqueVersions :
    (clock : Clock) (user : User) (db : Db) (c : Contract) (r : Revision)
    → HasUniqueVersions db.publications
    → HasUniqueVersions (db.publications ++ new_publication clock user db c r ∷ [])
unfolding new_publication
added-HasUniqueVersions clock user db c r unique x y mx my own e =
    let n = new_publication clock user db c r in
    let split = λ (z : Publication) (m : In z (db.publications ++ n ∷ [])).
      (In-append db.publications (n ∷ []) z).0 m in
    let newer = latest_version-least c.pk db.publications in
    elim (split x mx) [
      | inl qx ↦ elim (split y my) [
        | inl qy ↦ unique x y qx qy own e
        | inr qy ↦ elim qy [ inl py ↦ absurd (ground (arith, newer x qx, py)) | inr f ↦ absurd f ]
      ]
      | inr qx ↦ elim qx [
        | inl px ↦ elim (split y my) [
          | inl qy ↦ absurd (ground (arith, newer y qy, px))
          | inr qy ↦ elim qy [ inl py ↦ px ∙ sym py | inr f ↦ absurd f ]
        ]
        | inr f ↦ absurd f
      ]
    ]

-- Publishing keeps the versions of the publications of every contract distinct, whether it returns
-- or raises.
pub publish-HasUniqueVersions :
    (six_years_after : ℕ → ℕ) (clock : Clock) (user : User) (contract_id : ℕ) (db : Db)
    → HasUniqueVersions db.publications
    → HasUniqueVersions (publish_contract six_years_after clock user contract_id db).1.publications
unfolding publish_contract
publish-HasUniqueVersions six_years_after clock user contract_id db unique =
    elim (Result-cases (prepare_publish six_years_after clock user contract_id db)) [
      | inr (x, e) ↦ rw e unique
      | inl ((p, after_call), e) ↦
          let facts =
            prepare_publish-IsPublish six_years_after clock user contract_id db after_call p e in
          rw e (
            rw facts.added (
              rw facts.is_new
                (added-HasUniqueVersions clock user db facts.contract facts.revision unique)))
    ]
