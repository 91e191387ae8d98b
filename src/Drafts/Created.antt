-- ===== src/Drafts/Created.antt =====
-- What a draft is that was created.
use rpsd_config.Common.{
  ℕ, ◌+◌, ◌≤◌, ◌<◌, ◌≡◌, sym, ◌∙◌, ap, true, some, List, [], ◌∷◌, ◌++◌, ok, Result-cases,
  Option-cases, In, find, ◌==◌, arith, Bool-cases, inl, inr,
}
use mathlib.Core.Path.{subst}
use rpsd_config.Models.{Db, Contract, Revision, is_published, Profile}
use rpsd_config.Rbac.{User}
use rpsd_config.Permissions.{can_prepare_contract_revision}
use rpsd_config.Profiles.{validate_processing_profile_for_publication}
use rpsd_config.Profiles.Checked.{IsPublishable, validate_profile-IsPublishable}
use rpsd_config.Lifecycle.{Runtime, get_contract}
use rpsd_config.Drafts.Supplied.{AreRows, IsSupplied, resolve_inputs-IsSupplied}
use rpsd_config.Drafts.Rows.{clean_revision}
use rpsd_config.Drafts.Create.{
  Library, DraftRequest, latest_number, new_revision, compose, check_draft, create_revision_draft,
  is_foreign, replaced_configurations, not_applicable,
}
use rpsd_config.Drafts.Composed.{IsNewDraft, proposed, clean_step, compose_step}

-- The number is greater than those of the contract.
latest_number-ge :
    (contract_id : ℕ) (rows : List Revision) (r : Revision)
    → In r rows
    → r.contract_id ≡ contract_id
    → r.revision_number ≤ latest_number contract_id rows
unfolding latest_number
latest_number-ge contract_id [] r m e = absurd m
latest_number-ge contract_id (x ∷ rows) r m e = elim m [
  | inl same ↦
      let own : x.contract_id ≡ contract_id = ap (λ (y : Revision). y.contract_id) (sym same) ∙ e in
      let equal : r.revision_number ≡ x.revision_number =
        ap (λ (y : Revision). y.revision_number) same in
      ground (arith, own, equal)
  | inr old ↦ ground (arith, latest_number-ge contract_id rows r old e)
]

-- What a creation that returns has checked, and the row that it appends.
pub record IsCreated (rt : Runtime) (lib : Library) (request : DraftRequest) (actor : User)
    (db : Db) (r : Revision) : Type 0 where
  pub contract : Contract
  pub stored : find (λ c. c.pk == request.contract_id) db.contracts ≡ some contract
  pub permitted : can_prepare_contract_revision rt.root db actor contract ≡ true
  pub profile : Profile
  pub published : is_published profile.status ≡ true
  pub publishable : IsPublishable lib.catalogue profile
  pub is_new : IsNewDraft request profile db.revisions r
  pub of_contract : r.contract_id ≡ contract.pk
  pub supplied :
      AreRows profile.input_flow_links profile.input_flow_links
      → IsSupplied lib.catalogue profile (proposed profile) r.inputs

not_applicable-eq-ok :
    (lib : Library) (profile : Profile)
    → not_applicable (validate_processing_profile_for_publication lib.catalogue profile) ≡ ok tt
    → validate_processing_profile_for_publication lib.catalogue profile ≡ ok tt
not_applicable-eq-ok lib profile e =
    elim (Result-cases (validate_processing_profile_for_publication lib.catalogue profile)) [
      | inl (done, h) ↦ h
      | inr (x, h) ↦ absurd (let e' = rw h at e in cc)
    ]

pub contract_step :
    (id : ℕ) (db : Db) (contract : Contract)
    → get_contract id db ≡ ok contract
    → find (λ c. c.pk == id) db.contracts ≡ some contract
unfolding get_contract
contract_step id db contract e = elim (Option-cases (find (λ c. c.pk == id) db.contracts)) [
  | inl h ↦ absurd (ground (arith, e, h))
  | inr (c, h) ↦ ground (arith, e, h)
]

draft_step :
    (rt : Runtime) (lib : Library) (request : DraftRequest) (actor : User) (db : Db) {r : Revision}
    → check_draft rt lib request actor db ≡ ok r
    → (contract : Contract) × (profile : Profile) × (revision : Revision) × (get_contract
          request.contract_id db
        ≡ ok contract)
      × (can_prepare_contract_revision rt.root db actor contract ≡ true)
      × (find (λ p. p.pk == request.profile_id) lib.profiles ≡ some profile)
      × (is_published profile.status ≡ true)
      × (not_applicable (validate_processing_profile_for_publication lib.catalogue profile) ≡ ok tt)
      × (clean_revision db.revisions (
            new_revision rt request contract profile actor
              (latest_number contract.pk db.revisions + 1))
          ≡ ok revision)
      × (compose lib profile
            (replaced_configurations request.replaces_revision db.revisions)
            revision
          ≡ ok r)
unfolding check_draft
draft_step rt lib request actor db {r} e =
    elim (Result-cases (get_contract request.contract_id db)) [
      | inr (x, h) ↦ absurd (ground (arith, e, h))
      | inl (contract, h) ↦
          elim (Bool-cases (can_prepare_contract_revision rt.root db actor contract)) [
            | inr refused ↦ absurd (ground (arith, e, h, refused))
            | inl can ↦ elim (Option-cases (find (λ p. p.pk == request.profile_id) lib.profiles)) [
              | inl f ↦ absurd (ground (arith, e, h, can, f))
              | inr (profile, f) ↦ elim (Bool-cases (is_published profile.status)) [
                | inr p ↦ absurd (ground (arith, e, h, can, f, p))
                | inl p ↦
                    elim (Result-cases (
                      not_applicable
                        (validate_processing_profile_for_publication lib.catalogue profile))) [
                          | inr (x, v) ↦ absurd (ground (arith, e, h, can, f, p, v))
                          | inl (done, v) ↦
                              elim (Bool-cases (is_foreign contract request.replaces_revision)) [
                                | inl g ↦ absurd (ground (arith, e, h, can, f, p, v, g))
                                | inr g ↦
                                    elim (Result-cases (
                                      clean_revision db.revisions (
                                        new_revision rt request contract profile actor
                                          (latest_number contract.pk db.revisions + 1)))) [
                                            | inr (x, c) ↦
                                                absurd (ground (arith, e, h, can, f, p, v, g, c))
                                            | inl (revision, c) ↦ (
                                              contract,
                                              profile,
                                              revision,
                                              h,
                                              can,
                                              f,
                                              p,
                                              v,
                                              c,
                                              ground (arith, e, h, can, f, p, v, g, c),
                                            )
                                          ]
                              ]
                        ]
              ]
            ]
          ]
    ]

pub check_draft-IsCreated :
    (rt : Runtime) (lib : Library) (request : DraftRequest) (actor : User) (db : Db) {r : Revision}
    → check_draft rt lib request actor db ≡ ok r
    → IsCreated rt lib request actor db r
check_draft-IsCreated rt lib request actor db {r} e =
    let (contract, profile, revision, got, can, f, p, v, c, composed) =
      draft_step rt lib request actor db e in
    let (fresh, own) = clean_step rt request contract profile actor db.revisions c in
    let (res, configurations, resolved, quiet, row) =
      compose_step lib profile _ revision composed in
    record {
      contract = contract;
      stored = contract_step request.contract_id db contract got;
      permitted = can;
      profile = profile;
      published = p;
      publishable =
          validate_profile-IsPublishable lib.catalogue profile (not_applicable-eq-ok lib profile v);
      is_new = record {
        key = ap (λ (x : Revision). x.pk) row ∙ fresh.key;
        drafted = ap (λ (x : Revision). x.status) row ∙ fresh.drafted;
        number =
            ap (λ (x : Revision). x.revision_number) row
            ∙ (fresh.number
                ∙ ap (λ (k : ℕ). latest_number k db.revisions + 1)
                    (sym (ap (λ (x : Revision). x.contract_id) row)));
        date = ap (λ (x : Revision). x.valid_from) row ∙ fresh.date;
        of_profile = ap (λ (x : Revision). x.processing_profile_version) row ∙ fresh.of_profile;
        snapshot = ap (λ (x : Revision). x.configuration_snapshot) row ∙ fresh.snapshot;
        checksum = ap (λ (x : Revision). x.snapshot_checksum) row ∙ fresh.checksum;
      };
      of_contract = ap (λ (x : Revision). x.contract_id) row ∙ own;
      supplied = λ rows.
          subst (IsSupplied lib.catalogue profile (proposed profile))
            (sym (ap (λ (x : Revision). x.inputs) row))
            (resolve_inputs-IsSupplied lib.catalogue profile (proposed profile) [] res
              (λ i j m. absurd m) rows resolved quiet);
    }

-- A creation that returns appends one draft, whose number is greater than those of the other revisions
-- of its contract. The caller may prepare revisions of the contract; the profile is published and still
-- passes the validation for publication; the inputs of the draft are inputs of the profile, and supply
-- all specifications in the closure of every proposed indicator (if keys are unique among the inputs of
-- the profile).
pub create_draft-IsCreated :
    (rt : Runtime) (lib : Library) (request : DraftRequest) (actor : User) (db db' : Db)
    (r : Revision)
    → create_revision_draft rt lib request actor db ≡ (ok r, db')
    → IsCreated rt lib request actor db r
      × (db' ≡ record db { revisions = db.revisions ++ r ∷ [] })
      × ((x : Revision)
          → In x db.revisions
          → x.contract_id ≡ r.contract_id
          → x.revision_number < r.revision_number)
unfolding create_revision_draft
create_draft-IsCreated rt lib request actor db db' r e =
    elim (Result-cases (check_draft rt lib request actor db)) [
      | inr (x, h) ↦ absurd (let e' = rw h at e in cc)
      | inl (row, h) ↦
          let e' = rw h at e in
          let same : row ≡ r = ground (arith, e') in
          let facts = check_draft-IsCreated rt lib request actor db (h ∙ ap ok same) in
          (
            facts,
            ground (arith, e', same),
            λ x m own.
                omega
                  (arith, facts.is_new.number, latest_number-ge r.contract_id db.revisions x m own),
          )
    ]
