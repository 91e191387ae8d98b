-- ===== src/Drafts/Replaced.antt =====
-- What the replacement of a draft's composition checks.
use rpsd_config.Common.{
  ◌≡◌, sym, ◌∙◌, ap, true, false, not, some, List, [], ok, Result-cases, Option-cases, is_nil, map,
  In, find, find-In, ◌==◌, ==_iff, arith, Bool-cases, inl, inr,
}
use mathlib.Core.Path.{subst}
use rpsd_config.Models.{
  Db, Contract, Revision, is_draft, Profile, ProfileInput, ProfileIndicator, Configuration,
}
use rpsd_config.Rbac.{User}
use rpsd_config.Permissions.{can_prepare_contract_revision}
use rpsd_config.Dependencies.Closure.{resolve_indicator_closure}
use rpsd_config.Lifecycle.{Runtime, get_contract}
use rpsd_config.Drafts.Inputs.{RevisionInputResolution, resolve_revision_inputs}
use rpsd_config.Drafts.Supplied.{AreRows, IsSupplied, resolve_inputs-IsSupplied}
use rpsd_config.Drafts.Rows.{clean_inputs}
use rpsd_config.Drafts.Create.{Library, save_all}
use rpsd_config.Drafts.Composed.{nil-of-is_nil}
use rpsd_config.Drafts.Created.{contract_step}
use rpsd_config.Drafts.Replace.{
  Chosen, IndicatorConfig, link_of, kept, Composition, resolve_selections, resolve_configs,
  recompose, check_replacement, with_composition, write_replacement, replace_draft_configuration,
}
use rpsd_config.Drafts.Saved.{saved-requested, requested-saved}

-- The configurations that a request asks for: `configs` is what its entries are resolved to, and the
-- stored ones are those under the same links.
pub record IsRequested (lib : Library) (profile : Profile) (items : List IndicatorConfig)
    (configurations : List Configuration) : Type 0 where
  pub configs : List Configuration
  pub resolved : resolve_configs lib profile.pk items [] ≡ ok configs
  pub requested :
      (x : Configuration)
      → In x configurations
      → (c : Configuration) × In c configs × ((link_of x).pk ≡ (link_of c).pk)
  pub saved :
      (c : Configuration)
      → In c configs
      → (x : Configuration) × In x configurations × ((link_of x).pk ≡ (link_of c).pk)

recompose_step :
    (lib : Library) (locked : Revision) (selections : List (Chosen ProfileInput))
    (items : List IndicatorConfig) {c : Composition}
    → recompose lib locked selections items ≡ ok c
    → (requested : List ProfileInput) × (configs : List Configuration)
      × (res : RevisionInputResolution) × (resolve_selections lib selections ≡ ok requested)
      × (resolve_configs lib locked.processing_profile_version.pk items [] ≡ ok configs)
      × (resolve_revision_inputs lib.catalogue locked.processing_profile_version
            (map link_of configs)
            requested
          ≡ ok res)
      × (res.issues ≡ [])
      × (save_all locked.processing_profile_version configs (kept configs locked.configurations)
          ≡ ok c.configurations)
      × (c.inputs ≡ res.selected_inputs)
unfolding recompose
recompose_step lib locked selections items {c} e =
    let profile = locked.processing_profile_version in
    elim (Result-cases (resolve_selections lib selections)) [
      | inr (x, h) ↦ absurd (ground (arith, e, h))
      | inl (requested, h) ↦ elim (Result-cases (resolve_configs lib profile.pk items [])) [
        | inr (x, g) ↦ absurd (ground (arith, e, h, g))
        | inl (configs, g) ↦
            elim (Result-cases
              (resolve_revision_inputs lib.catalogue profile (map link_of configs) requested)) [
                | inr (x, r) ↦ absurd (ground (arith, e, h, g, r))
                | inl (res, r) ↦ elim (Bool-cases (not (is_nil res.issues))) [
                  | inl bad ↦ absurd (ground (arith, e, h, g, r, bad))
                  | inr quiet ↦ elim (Result-cases (clean_inputs profile res.selected_inputs)) [
                    | inr (x, d) ↦ absurd (ground (arith, e, h, g, r, quiet, d))
                    | inl (done, d) ↦
                        elim (Result-cases
                          (save_all profile configs (kept configs locked.configurations))) [
                            | inr (x, s) ↦ absurd (ground (arith, e, h, g, r, quiet, d, s))
                            | inl (rows, s) ↦
                                elim (Result-cases (
                                  resolve_indicator_closure lib.catalogue
                                    (map (λ (l : ProfileIndicator). l.indicator_version.pk)
                                      (map link_of configs))
                                    false)) [
                                      | inr (x, q) ↦
                                          absurd (ground (arith, e, h, g, r, quiet, d, s, q))
                                      | inl (closure, q) ↦
                                          let same : c.configurations ≡ rows =
                                            ground (arith, e, h, g, r, quiet, d, s, q) in
                                          (
                                            requested,
                                            configs,
                                            res,
                                            h,
                                            g,
                                            r,
                                            nil-of-is_nil res.issues quiet,
                                            s ∙ ap ok (sym same),
                                            ground (arith, e, h, g, r, quiet, d, s, q),
                                          )
                                    ]
                          ]
                  ]
                ]
              ]
      ]
    ]

-- Requested inputs are rows, and keys are unique among the inputs of the profile.
pub record AreChosenRows (lib : Library) (selections : List (Chosen ProfileInput))
    (profile : Profile) : Type 0 where
  pub requested :
      (inputs : List ProfileInput)
      → resolve_selections lib selections ≡ ok inputs
      → AreRows inputs profile.input_flow_links
  pub unique : AreRows profile.input_flow_links profile.input_flow_links

recompose-IsRequested :
    (lib : Library) (locked : Revision) (selections : List (Chosen ProfileInput))
    (items : List IndicatorConfig) (c : Composition)
    → recompose lib locked selections items ≡ ok c
    → (asked : IsRequested lib locked.processing_profile_version items c.configurations)
      × (AreChosenRows lib selections locked.processing_profile_version
          → IsSupplied lib.catalogue locked.processing_profile_version
              (map link_of asked.configs)
              c.inputs)
recompose-IsRequested lib locked selections items c e =
    let profile = locked.processing_profile_version in
    let (requested, configs, res, h, g, r, quiet, saved, same) =
      recompose_step lib locked selections items e in
    (
      record {
        configs = configs;
        resolved = g;
        requested = λ x m. saved-requested profile configs locked.configurations x saved m;
        saved =
            λ d m. requested-saved profile configs (kept configs locked.configurations) d saved m;
      },
      λ rows. subst (IsSupplied lib.catalogue profile (map link_of configs)) (sym same) (
          resolve_inputs-IsSupplied lib.catalogue profile (map link_of configs) requested res
            (rows.requested requested h) rows.unique r quiet),
    )

-- What a replacement that returns has checked, and what it writes.
pub record IsReplaced (rt : Runtime) (lib : Library) (selections : List (Chosen ProfileInput))
    (items : List IndicatorConfig) (actor : User) (db : Db) (locked : Revision) (c : Composition)
    : Type 0 where
  pub stored : In locked db.revisions
  pub drafted : is_draft locked.status ≡ true
  pub contract : Contract
  pub of_contract : find (λ k. k.pk == locked.contract_id) db.contracts ≡ some contract
  pub permitted : can_prepare_contract_revision rt.root db actor contract ≡ true
  pub asked : IsRequested lib locked.processing_profile_version items c.configurations
  pub supplied :
      AreChosenRows lib selections locked.processing_profile_version
      → IsSupplied lib.catalogue locked.processing_profile_version
          (map link_of asked.configs)
          c.inputs

pub check_replacement-IsReplaced :
    (rt : Runtime) (lib : Library) (revision : Revision) (selections : List (Chosen ProfileInput))
    (items : List IndicatorConfig) (actor : User) (db : Db) (locked : Revision) (c : Composition)
    → check_replacement rt lib revision selections items actor db ≡ ok (locked, c)
    → IsReplaced rt lib selections items actor db locked c × (locked.pk ≡ revision.pk)
unfolding check_replacement
check_replacement-IsReplaced rt lib revision selections items actor db locked c e =
    elim (Option-cases (find (λ r. r.pk == revision.pk) db.revisions)) [
      | inl f ↦ absurd (ground (arith, e, f))
      | inr (row, f) ↦ elim (Result-cases (get_contract row.contract_id db)) [
        | inr (x, h) ↦ absurd (ground (arith, e, f, h))
        | inl (contract, h) ↦
            elim (Bool-cases (can_prepare_contract_revision rt.root db actor contract)) [
              | inr bad ↦ absurd (ground (arith, e, f, h, bad))
              | inl can ↦ elim (Bool-cases (is_draft row.status)) [
                | inr bad ↦ absurd (ground (arith, e, f, h, can, bad))
                | inl drafted ↦ elim (Result-cases (recompose lib row selections items)) [
                  | inr (x, r) ↦ absurd (ground (arith, e, f, h, can, drafted, r))
                  | inl (new, r) ↦
                      let same : row ≡ locked = ground (arith, e, f, h, can, drafted, r) in
                      let also : new ≡ c = ground (arith, e, f, h, can, drafted, r) in
                      let (present, key) = find-In (λ x. x.pk == revision.pk) db.revisions f in
                      let facts = recompose-IsRequested lib locked selections items c (
                        subst (λ (x : Revision). recompose lib x selections items ≡ ok c) same
                          (r ∙ ap ok also)) in
                      (
                        record {
                          stored = subst (λ (x : Revision). In x db.revisions) same present;
                          drafted = subst (λ (x : Revision). is_draft x.status ≡ true) same drafted;
                          contract = contract;
                          of_contract =
                              subst
                                (λ (x : Revision).
                                  find (λ k. k.pk == x.contract_id) db.contracts ≡ some contract)
                                same (contract_step row.contract_id db contract h);
                          permitted = can;
                          asked = facts.0;
                          supplied = facts.1;
                        },
                        ap (λ (x : Revision). x.pk) (sym same) ∙ (==_iff row.pk revision.pk).0 key,
                      )
                ]
              ]
            ]
      ]
    ]

-- A replacement that returns is of a stored draft, by a user who may prepare revisions of its contract,
-- and writes the composition to its row. The stored configurations are those under the links of the
-- request. If requested inputs are rows and keys are unique among the inputs of the profile, the stored
-- inputs are inputs of the profile, and they supply all specifications in the closure of the version of
-- every link of the request.
pub replace_draft-IsReplaced :
    (rt : Runtime) (lib : Library) (revision : Revision) (selections : List (Chosen ProfileInput))
    (items : List IndicatorConfig) (actor : User) (db db' : Db) (r : Revision)
    → replace_draft_configuration rt lib revision selections items actor db ≡ (ok r, db')
    → (locked : Revision) × (c : Composition) × IsReplaced rt lib selections items actor db locked c
      × (locked.pk ≡ revision.pk)
      × (r ≡ with_composition c locked)
      × (db' ≡ write_replacement locked c db)
unfolding replace_draft_configuration
replace_draft-IsReplaced rt lib revision selections items actor db db' r e =
    elim (Result-cases (check_replacement rt lib revision selections items actor db)) [
      | inr (x, h) ↦ absurd (let e' = rw h at e in cc)
      | inl ((locked, c), h) ↦
          let e' = rw h at e in
          let (facts, key) =
            check_replacement-IsReplaced rt lib revision selections items actor db locked c h in
          (locked, c, facts, key, ground (arith, e'), ground (arith, e'))
    ]
