-- ===== src/Dependencies/Catalogue.antt =====
-- The rows that `resolve_indicator_closure` reads, and the checks of
-- exchange_agreement/services/validation_bindings.py on them.
use rpsd_config.Common.Results.{◌>>◌}
use rpsd_config.Common.{
  ℕ, String, Bool, not, ◌&&◌, ◌||◌, List, [], ◌∷◌, Result, ok, raise_if, select, exists_row,
  put_row, sort_by, ◌==◌, str_eq,
}
use rpsd_config.Json.Canonical.{text_lt}
use rpsd_config.Models.{IndicatorVersion, DatasetSpecification, CatalogStatus, is_published}

-- `IndicatorVersionDependency`
pub record Link : Type 0 where
  pub pk : ℕ
  pub dependent_id : ℕ
  pub dependent_code : String
  pub prerequisite : IndicatorVersion

-- `IndicatorVersionRule`
pub record RuleBinding : Type 0 where
  pub indicator_version_id : ℕ
  pub rule_version_id : ℕ
  pub rule_version_status : CatalogStatus
  pub dataset_specification : DatasetSpecification

-- `IndicatorVersionInput`
pub record DatasetInput : Type 0 where
  pub indicator_version_id : ℕ
  pub dataset_specification : DatasetSpecification

-- The tables, with the order that the database gives to codes (`order_by`), and the `clean` of a rule
-- binding and of an input (validation_models.py).
pub record Catalogue : Type 0 where
  pub versions : List IndicatorVersion
  pub links : List Link
  pub rule_bindings : List RuleBinding
  pub dataset_inputs : List DatasetInput
  pub precedes : String → String → Bool
  pub is_complete : RuleBinding → Bool
  pub is_clean : DatasetInput → Bool

-- The `code` of the `ValidationError`, and `out_of_fuel`, which is none of the program's.
pub data ClosureError : Type 0 where
  cyclic_indicator_dependency conflicting_indicator_versions : ClosureError
  conflicting_dataset_versions unpublished_prerequisite : ClosureError
  unpublished_binding invalid_binding out_of_fuel : ClosureError

abbrev pub links_of : Catalogue → ℕ → List Link
links_of cat version_id =
    sort_by (λ a b. cat.precedes a.prerequisite.code b.prerequisite.code)
      (select (λ l. l.dependent_id == version_id) cat.links)

abbrev pub bindings_of : Catalogue → ℕ → List RuleBinding
bindings_of cat version_id = select (λ b. b.indicator_version_id == version_id) cat.rule_bindings

abbrev pub inputs_of : Catalogue → ℕ → List DatasetInput
inputs_of cat version_id = select (λ i. i.indicator_version_id == version_id) cat.dataset_inputs

-- The first loop of `validate_indicator_bindings`.
unfoldable pub check_bindings : Catalogue → Bool → List RuleBinding → Result ClosureError (Unit {0})
check_bindings cat allow_drafts [] = ok tt
check_bindings cat allow_drafts (b ∷ bindings) = do
  raise_if
      (not allow_drafts
        && (not (is_published b.rule_version_status)
            || not (is_published b.dataset_specification.status)))
      unpublished_binding
  raise_if (not (cat.is_complete b)) invalid_binding
  check_bindings cat allow_drafts bindings

-- The second one.
unfoldable pub check_inputs : Catalogue → Bool → List DatasetInput → Result ClosureError (Unit {0})
check_inputs cat allow_drafts [] = ok tt
check_inputs cat allow_drafts (i ∷ inputs) = do
  raise_if (not allow_drafts && not (is_published i.dataset_specification.status))
      unpublished_binding
  raise_if (not (cat.is_clean i)) invalid_binding
  check_inputs cat allow_drafts inputs

unfoldable pub validate_indicator_bindings :
    Catalogue → Bool → IndicatorVersion → Result ClosureError (Unit {0})
unfolding check_bindings check_inputs
validate_indicator_bindings cat allow_drafts version = do
  check_bindings cat allow_drafts (bindings_of cat version.pk)
  check_inputs cat allow_drafts (inputs_of cat version.pk)

-- `specs[spec.pk] = spec` for each input, then for each rule binding
abbrev put_specification :
    DatasetSpecification → List DatasetSpecification → List DatasetSpecification
put_specification spec specs = put_row (λ s. s.pk == spec.pk) spec specs

unfoldable pub specifications_of_inputs :
    List DatasetInput → List DatasetSpecification → List DatasetSpecification
specifications_of_inputs [] specs = specs
specifications_of_inputs (i ∷ inputs) specs =
    specifications_of_inputs inputs (put_specification i.dataset_specification specs)

unfoldable pub specifications_of_bindings :
    List RuleBinding → List DatasetSpecification → List DatasetSpecification
specifications_of_bindings [] specs = specs
specifications_of_bindings (b ∷ bindings) specs =
    specifications_of_bindings bindings (put_specification b.dataset_specification specs)

-- `specs.get(spec.dataset.code)` is another specification
abbrev pub conflicts_with : DatasetSpecification → List DatasetSpecification → Bool
conflicts_with spec by_category =
    exists_row (λ s. str_eq s.dataset.code spec.dataset.code && not (s.pk == spec.pk)) by_category

-- A dictionary by `dataset.code` is the list of its values.
unfoldable pub add_specifications :
    List DatasetSpecification
    → List DatasetSpecification
    → Result ClosureError (List DatasetSpecification)
add_specifications [] by_category = ok by_category
add_specifications (spec ∷ specs) by_category = do
  raise_if (conflicts_with spec by_category) conflicting_dataset_versions
  add_specifications specs (put_row (λ s. str_eq s.dataset.code spec.dataset.code) spec by_category)

unfoldable pub required_dataset_specifications :
    Catalogue → IndicatorVersion → Result ClosureError (List DatasetSpecification)
unfolding specifications_of_inputs specifications_of_bindings add_specifications
required_dataset_specifications cat version = do
  let specs =
      specifications_of_bindings (bindings_of cat version.pk)
        (specifications_of_inputs (inputs_of cat version.pk) [])
  add_specifications specs []
  ok (sort_by (λ a b. text_lt a.code b.code) specs)
