-- ===== src/Ingest/Resolved.antt =====
-- What a resolved configuration is, and what cannot go wrong with a consistent database.
use rpsd_config.Common.{
  ℕ, String, ◌≡◌, refl, ◌∙◌, ap, Bool, true, Option, none, some, List, ok, count, ◌==◌, eq_iff,
  arith, Option-cases, Result-cases, inl, inr,
}
use rpsd_config.Json.{Json, obj}
use rpsd_config.Json.Access.{get}
use rpsd_config.Json.Checksum.{canonical_snapshot_checksum}
use rpsd_config.Models.{Contract, is_active_today, Revision}
use rpsd_config.Revisions.{current_revision, resolve_current_contract_revision}
use rpsd_config.Ingest.{
  Checks, require_mapping, text_is, on_same_day, is_intact, CurrentContractConfiguration,
  current_row, intact_snapshot, check_owner, checked_snapshot,
  resolve_current_contract_configuration,
}

current_row-eq-ok :
    (today : ℕ) (rows : List Revision) (c : Contract) (r : Revision)
    → current_row today rows c ≡ ok r
    → (is_active_today c today ≡ true)
      × (current_revision c.pk today rows ≡ some r)
      × ((count (on_same_day c.pk today r) rows == 1) ≡ true)
unfolding current_row
current_row-eq-ok today rows c r h = elim (Option-cases (current_revision c.pk today rows)) [
  | inl e ↦ absurd (ground (arith, e))
  | inr (q, e) ↦
      let same : q ≡ r = ground (arith, e) in
      (ground (arith, e), e ∙ ap some same, rw (← same) (ground (arith, e)))
]

-- What the checks of a snapshot say.
pub record IsVerified (hexdigest : Json → String) (c : Contract) (r : Revision) (snapshot : Json)
    : Type 0 where
  pub frozen : r.configuration_snapshot ≡ snapshot
  pub checksum : canonical_snapshot_checksum hexdigest snapshot ≡ ok r.snapshot_checksum
  pub of_contract :
      (metadata : Json) × (get "contract" snapshot ≡ some metadata)
      × (text_is c.contract_code (get "code" metadata) ≡ true)

pub require_mapping-eq-ok : (o : Option Json) (v : Json) → require_mapping o ≡ ok v → o ≡ some v
require_mapping-eq-ok (some (obj fs)) v h = ap some (ground arith)
require_mapping-eq-ok none v h = absurd (ground arith)
require_mapping-eq-ok (some _) v h = absurd (ground arith)

intact-checksum :
    (r : Revision) (snapshot : Json) (digest : String)
    → is_intact r snapshot digest ≡ true
    → digest ≡ r.snapshot_checksum
unfolding is_intact
intact-checksum r snapshot digest h = (eq_iff digest r.snapshot_checksum).0 (ground arith)

intact_snapshot-eq-ok :
    (hexdigest : Json → String) (r : Revision) (snapshot : Json)
    → intact_snapshot hexdigest r ≡ ok snapshot
    → (r.configuration_snapshot ≡ snapshot)
      × (canonical_snapshot_checksum hexdigest snapshot ≡ ok r.snapshot_checksum)
unfolding intact_snapshot
intact_snapshot-eq-ok hexdigest r snapshot h =
    elim (Result-cases (require_mapping (some r.configuration_snapshot))) [
      | inr (x, e) ↦ absurd (ground (arith, e))
      | inl (v, e) ↦ elim (Result-cases (canonical_snapshot_checksum hexdigest v)) [
        | inr (x, f) ↦ absurd (ground (arith, e, f))
        | inl (digest, f) ↦
            let same : v ≡ snapshot = ground (arith, e, f) in
            let intact : is_intact r v digest ≡ true = ground (arith, e, f) in
            (
              ap (λ (o : Option Json). elim o [ some u ↦ u | none ↦ v ])
                    (require_mapping-eq-ok (some r.configuration_snapshot) v e)
                  ∙ same,
              rw (← same) (f ∙ ap ok (intact-checksum r v digest intact)),
            )
      ]
    ]

check_owner-eq-ok :
    (c : Contract) (r : Revision) (snapshot : Json)
    → check_owner c r snapshot ≡ ok tt
    → (metadata : Json) × (get "contract" snapshot ≡ some metadata)
      × (text_is c.contract_code (get "code" metadata) ≡ true)
unfolding check_owner
check_owner-eq-ok c r snapshot h = elim (Result-cases (require_mapping (get "contract" snapshot))) [
  | inr (x, e) ↦ absurd (ground (arith, e))
  | inl (metadata, e) ↦ (metadata, require_mapping-eq-ok _ metadata e, ground (arith, e))
]

checked_snapshot-IsVerified :
    (checks : Checks) (allow_evaluations allow_formal : Bool) (c : Contract) (r : Revision)
    (snapshot : Json)
    → checked_snapshot checks allow_evaluations allow_formal c r ≡ ok snapshot
    → IsVerified checks.hexdigest c r snapshot
unfolding checked_snapshot
checked_snapshot-IsVerified checks ae af c r snapshot h =
    elim (Result-cases (intact_snapshot checks.hexdigest r)) [
      | inr (x, e) ↦ absurd (ground (arith, e))
      | inl (v, e) ↦
          let same : v ≡ snapshot = ground (arith, e) in
          let owned : check_owner c r v ≡ ok tt = ground (arith, e) in
          let (frozen, checksum) = intact_snapshot-eq-ok checks.hexdigest r v e in
          rw (← same) (record {
            frozen = frozen;
            checksum = checksum;
            of_contract = check_owner-eq-ok c r v owned;
          })
    ]

-- A configuration that is resolved is that of the revision which
-- `resolve_current_contract_revision` resolves. Its snapshot is the stored one, its checksum that of
-- the snapshot, and the snapshot names the contract.
pub resolve_configuration-resolve :
    (checks : Checks) (allow_evaluations allow_formal : Bool) (today : ℕ) (rows : List Revision)
    (c : Contract) (current : CurrentContractConfiguration)
    → resolve_current_contract_configuration checks allow_evaluations allow_formal today rows c
      ≡ ok current
    → (resolve_current_contract_revision today rows c ≡ ok current.revision)
      × IsVerified checks.hexdigest c current.revision current.snapshot
      × (current.snapshot_checksum ≡ current.revision.snapshot_checksum)
unfolding resolve_current_contract_configuration resolve_current_contract_revision
resolve_configuration-resolve checks ae af today rows c current h =
    elim (Result-cases (current_row today rows c)) [
      | inr (x, e) ↦ absurd (ground (arith, e))
      | inl (r, e) ↦ elim (Result-cases (checked_snapshot checks ae af c r)) [
        | inr (x, f) ↦ absurd (ground (arith, e, f))
        | inl (snapshot, f) ↦
            let (effective, found, once) = current_row-eq-ok today rows c r e in
            let made : (record {
              contract = c;
              revision = r;
              snapshot_schema_version = r.snapshot_schema_version;
              snapshot_checksum = r.snapshot_checksum;
              snapshot = snapshot;
            })
                ≡ current =
              ground (arith, e, f) in
            rw (← made) (
              rw effective (rw found refl),
              checked_snapshot-IsVerified checks ae af c r snapshot f,
              refl,
            )
      ]
    ]
