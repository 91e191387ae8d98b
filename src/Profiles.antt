-- ===== src/Profiles.antt =====
-- exchange_agreement/services/processing_profiles.py: the validation of a processing profile and its
-- lifecycle, with `validate_profile_input_coverage` of services/validation_bindings.py.
pub mod Coverage
pub mod Links
pub mod Checked
pub mod Published
use rpsd_config.Common.Results.{◌>>=◌, ◌>>◌}
use rpsd_config.Common.{
  ℕ, String, Bool, true, false, not, ◌&&◌, ◌||◌, Option, none, some, List, [], ◌∷◌, ◌++◌, Result,
  ok, err, or_raise, raise_if, is_nil, select, find, map, exists_row, put_row, sort_by, update_rows,
  ◌==◌, if◌then◌else◌,
}
use rpsd_config.Texts.{strip, is_empty}
use rpsd_config.Models.{
  CatalogStatus, draft, published, deprecated, withdrawn, is_published, is_active,
  DatasetSpecification, IndicatorVersion, ProfileInput, ProfileIndicator, Profile,
}
use rpsd_config.Dependencies.Graph.{member}
use rpsd_config.Dependencies.Catalogue.{
  Catalogue, ClosureError, conflicting_dataset_versions, required_dataset_specifications,
}
use rpsd_config.Dependencies.Closure.{IndicatorClosure, resolve_indicator_closure}

pub data ProfileError : Type 0 where
  does_not_exist transition_not_allowed invalid_row : ProfileError
  flow_not_published no_inputs different_dataset dataset_not_active : ProfileError
  input_flow_not_published specification_not_published : ProfileError
  no_indicators multiple_versions version_not_published indicator_not_active : ProfileError
  closure_failed : ClosureError → ProfileError
  missing_profile_input : ProfileError

abbrev pub closure_or_raise {ℓ} : {A : Type ℓ} → Result ClosureError A → Result ProfileError A
closure_or_raise (ok a) = ok a
closure_or_raise (err e) = err (closure_failed e)

unfoldable pub check_input_link : ProfileInput → Result ProfileError (Unit {0})
check_input_link link = do
  let flow = link.input_flow_version
  let specification = flow.dataset_specification
  raise_if (not (link.dataset.pk == specification.dataset.pk)) different_dataset
  raise_if (not (is_active link.dataset.status)) dataset_not_active
  raise_if (not (is_published flow.status)) input_flow_not_published
  raise_if (not (is_published specification.status)) specification_not_published

unfoldable pub check_input_links : List ProfileInput → Result ProfileError (Unit {0})
check_input_links [] = ok tt
check_input_links (link ∷ links) = check_input_link link >> check_input_links links

-- `logical` has the indicators that were seen.
unfoldable pub check_indicator_links :
    List ProfileIndicator → List ℕ → Result ProfileError (Unit {0})
check_indicator_links [] logical = ok tt
check_indicator_links (link ∷ links) logical = do
  let version = link.indicator_version
  raise_if (member version.indicator.pk logical) multiple_versions
  raise_if (not (is_published version.status)) version_not_published
  raise_if (not (is_active version.indicator.status)) indicator_not_active
  check_indicator_links links (version.indicator.pk ∷ logical)

-- `required[spec.dataset_id] = spec`, unless another specification is there
unfoldable pub add_required :
    List DatasetSpecification
    → List DatasetSpecification
    → Result ClosureError (List DatasetSpecification)
add_required [] required = ok required
add_required (spec ∷ specs) required = do
  raise_if (exists_row (λ s. s.dataset.pk == spec.dataset.pk && not (s.pk == spec.pk)) required)
      conflicting_dataset_versions
  add_required specs (put_row (λ s. s.dataset.pk == spec.dataset.pk) spec required)

unfoldable pub required_of :
    Catalogue
    → List IndicatorVersion
    → List DatasetSpecification
    → Result ClosureError (List DatasetSpecification)
unfolding add_required
required_of cat [] required = ok required
required_of cat (version ∷ versions) required = do
  specs ← required_dataset_specifications cat version
  required ← add_required specs required
  required_of cat versions required

-- `supplied.get(spec.dataset_id)`: the specifications of the inputs of a dataset
abbrev pub supplied : List ProfileInput → ℕ → List ℕ
supplied links dataset_id =
    map (λ (l : ProfileInput). l.input_flow_version.dataset_specification.pk)
      (select (λ l. l.dataset.pk == dataset_id) links)

-- `ids == [pk]`
abbrev pub is_only : ℕ → List ℕ → Bool
is_only pk [] = false
is_only pk (k ∷ []) = k == pk
is_only pk (k ∷ j ∷ ks) = false

unfoldable pub check_supply :
    List ProfileInput → List DatasetSpecification → Result ProfileError (Unit {0})
check_supply links [] = ok tt
check_supply links (spec ∷ specs) = do
  raise_if (not (is_only spec.pk (supplied links spec.dataset.pk))) missing_profile_input
  check_supply links specs

unfoldable pub validate_profile_input_coverage :
    Catalogue → Profile → List IndicatorVersion → Result ProfileError (Unit {0})
unfolding required_of check_supply
validate_profile_input_coverage cat profile versions = do
  required ← closure_or_raise (required_of cat versions [])
  check_supply profile.input_flow_links required

-- The versions of the profile, as roots of the closure.
abbrev pub version_ids : Profile → List ℕ
version_ids profile =
    map (λ (l : ProfileIndicator). l.indicator_version.pk) profile.indicator_version_links

unfoldable pub validate_processing_profile_for_publication :
    Catalogue → Profile → Result ProfileError (Unit {0})
unfolding check_input_links check_input_link check_indicator_links validate_profile_input_coverage
validate_processing_profile_for_publication cat profile = do
  raise_if (not (is_published profile.orchestration_flow_version.status)) flow_not_published
  raise_if (is_nil profile.input_flow_links) no_inputs
  check_input_links
      (sort_by (λ a b. cat.precedes a.dataset.code b.dataset.code) profile.input_flow_links)
  raise_if (is_nil profile.indicator_version_links) no_indicators
  check_indicator_links profile.indicator_version_links []
  closure ← closure_or_raise (resolve_indicator_closure cat (version_ids profile) false)
  validate_profile_input_coverage cat profile closure.versions

-- `ALLOWED_TRANSITIONS`
unfoldable pub is_allowed : CatalogStatus → CatalogStatus → Bool
is_allowed draft published = true
is_allowed draft withdrawn = true
is_allowed published deprecated = true
is_allowed published withdrawn = true
is_allowed deprecated withdrawn = true
is_allowed _ _ = false

-- `ProcessingProfileVersionStatusEvent`
pub record ProfileStatusEvent : Type 0 where
  pub processing_profile_version_id : ℕ
  pub from_status : CatalogStatus
  pub to_status : CatalogStatus
  pub changed_by_id : Option ℕ
  pub changed_at : ℕ

pub record ProfileTables : Type 0 where
  pub profiles : List Profile
  pub events : List ProfileStatusEvent

-- `clean` of a stored row: its texts are not blank.
unfoldable pub is_clean_profile : Profile → Bool
is_clean_profile p = not (
    is_empty (strip p.code)
    || (is_empty (strip p.version) || (is_empty (strip p.name) || is_empty (strip p.description))))

-- `full_clean` and the validation, which only a publication makes.
unfoldable pub check_publication :
    Catalogue → CatalogStatus → Profile → Result ProfileError (Unit {0})
unfolding is_clean_profile
check_publication cat published locked = do
  raise_if (not (is_clean_profile locked)) invalid_row
  validate_processing_profile_for_publication cat locked
check_publication cat _ locked = ok tt

unfoldable pub check_transition :
    Catalogue → Profile → CatalogStatus → ProfileTables → Result ProfileError Profile
unfolding check_publication is_allowed
check_transition cat profile target tables = do
  locked ← or_raise (find (λ p. p.pk == profile.pk) tables.profiles) does_not_exist
  raise_if (not (is_allowed locked.status target)) transition_not_allowed
  check_publication cat target locked
  ok locked

-- The updated row. A publication also stores when and by whom.
unfoldable pub with_status : ℕ → CatalogStatus → Option ℕ → Profile → Profile
with_status now published actor_id p = record p {
  status = published;
  updated_at = now;
  published_at = some now;
  published_by_id = actor_id;
}
with_status now target actor_id p = record p { status = target; updated_at = now }

unfoldable pub write_transition :
    ℕ → Profile → CatalogStatus → Option ℕ → ProfileTables → ProfileTables
unfolding with_status
write_transition now locked target actor_id tables = record {
  profiles = update_rows (λ p. p.pk == locked.pk) (with_status now target actor_id) tables.profiles;
  events =
      tables.events
      ++ record {
        processing_profile_version_id = locked.pk;
        from_status = locked.status;
        to_status = target;
        changed_by_id = actor_id;
        changed_at = now;
      }
        ∷ [];
}

abbrev pub then_transition :
    ℕ
    → CatalogStatus
    → Option ℕ
    → ProfileTables
    → Result ProfileError Profile
    → Result ProfileError Profile × ProfileTables
then_transition now target actor_id tables (err e) = (err e, tables)
then_transition now target actor_id tables (ok locked) = (
  ok (with_status now target actor_id locked),
  write_transition now locked target actor_id tables,
)

unfoldable pub transition_processing_profile :
    Catalogue
    → ℕ
    → Profile
    → CatalogStatus
    → Option ℕ
    → ProfileTables
    → Result ProfileError Profile × ProfileTables
unfolding check_transition write_transition with_status
transition_processing_profile cat now profile target actor_id tables =
    then_transition now target actor_id tables (check_transition cat profile target tables)
