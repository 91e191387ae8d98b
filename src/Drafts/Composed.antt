-- ===== src/Drafts/Composed.antt =====
-- The row of a new draft and its composition.
use rpsd_config.Common.{
  ◌+◌, ◌≡◌, refl, false, not, List, [], ◌∷◌, ok, Result-cases, is_nil, map, select, arith,
  Bool-cases, inl, inr,
}
use rpsd_config.Json.{obj, end}
use rpsd_config.Models.{Contract, Revision, draft, Profile, ProfileIndicator, Configuration}
use rpsd_config.Rbac.{User}
use rpsd_config.Lifecycle.{Runtime}
use rpsd_config.Drafts.Inputs.{RevisionInputResolution, resolve_revision_inputs}
use rpsd_config.Drafts.Rows.{clean_revision, clean_inputs}
use rpsd_config.Drafts.Create.{
  Library, DraftRequest, latest_number, new_revision, compose, save_all, carried_over,
  empty_configuration,
}

-- The parts of the row that a creation fixes.
pub record IsNewDraft (request : DraftRequest) (profile : Profile) (rows : List Revision)
    (r : Revision) : Type 0 where
  pub key : r.pk ≡ request.new_pk
  pub drafted : r.status ≡ draft
  pub number : r.revision_number ≡ latest_number r.contract_id rows + 1
  pub date : r.valid_from ≡ request.valid_from
  pub of_profile : r.processing_profile_version ≡ profile
  pub snapshot : r.configuration_snapshot ≡ obj end
  pub checksum : r.snapshot_checksum ≡ ""

abbrev pub proposed : Profile → List ProfileIndicator
proposed profile =
    select (λ (l : ProfileIndicator). l.proposed_by_default) profile.indicator_version_links

pub clean_step :
    (rt : Runtime) (request : DraftRequest) (contract : Contract) (profile : Profile) (actor : User)
    (rows : List Revision) {r : Revision}
    → clean_revision rows
        (new_revision rt request contract profile actor (latest_number contract.pk rows + 1))
      ≡ ok r
    → IsNewDraft request profile rows r × (r.contract_id ≡ contract.pk)
unfolding clean_revision new_revision
clean_step rt request contract profile actor rows {r} e = (
  record {
    key = ground (arith, e);
    drafted = ground (arith, e);
    number = ground (arith, e);
    date = ground (arith, e);
    of_profile = ground (arith, e);
    snapshot = ground (arith, e);
    checksum = ground (arith, e);
  },
  ground (arith, e),
)

pub nil-of-is_nil : {A : Type 0} (xs : List A) → not (is_nil xs) ≡ false → xs ≡ []
nil-of-is_nil [] e = refl
nil-of-is_nil (x ∷ xs) e = cc

pub compose_step :
    (lib : Library) (profile : Profile) (sources : List Configuration) (revision : Revision)
    {r : Revision}
    → compose lib profile sources revision ≡ ok r
    → (res : RevisionInputResolution) × (configurations : List Configuration)
      × (resolve_revision_inputs lib.catalogue profile (proposed profile) [] ≡ ok res)
      × (res.issues ≡ [])
      × (r ≡ record revision { inputs = res.selected_inputs; configurations = configurations })
unfolding compose
compose_step lib profile sources revision {r} e =
    let links = proposed profile in
    elim (Result-cases (resolve_revision_inputs lib.catalogue profile links [])) [
      | inr (x, h) ↦ absurd (ground (arith, e, h))
      | inl (res, h) ↦ elim (Bool-cases (not (is_nil res.issues))) [
        | inl bad ↦ absurd (ground (arith, e, h, bad))
        | inr quiet ↦ elim (Result-cases (clean_inputs profile res.selected_inputs)) [
          | inr (x, c) ↦ absurd (ground (arith, e, h, quiet, c))
          | inl (done, c) ↦
              elim (Result-cases (save_all profile (map empty_configuration links) [])) [
                | inr (x, s) ↦ absurd (ground (arith, e, h, quiet, c, s))
                | inl (first, s) ↦
                    elim (Result-cases (save_all profile (carried_over profile sources) first)) [
                      | inr (x, t) ↦ absurd (ground (arith, e, h, quiet, c, s, t))
                      | inl (all, t) ↦ (
                        res,
                        all,
                        h,
                        nil-of-is_nil res.issues quiet,
                        ground (arith, e, h, quiet, c, s, t),
                      )
                    ]
              ]
        ]
      ]
    ]
