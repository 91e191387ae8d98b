-- ===== src/Dependencies/Closure.antt =====
-- `resolve_indicator_closure` of exchange_agreement/services/indicator_dependencies.py: the depth first
-- visit of the prerequisites, on fuel for its depth.
pub mod Steps
pub mod Fuel
pub mod Order
pub mod Required
pub mod Conflicts
use rpsd_config.Common.Results.{◌>>=◌, ◌>>◌}
use rpsd_config.Common.{
  ℕ, zero, suc, ◌+◌, String, Bool, true, false, not, ◌&&◌, ◌||◌, List, [], ◌∷◌, ◌++◌, Result, ok,
  err, raise_if, length, exists_row, select, map, put_row, sort_by, ◌==◌, str_eq, if◌then◌else◌,
}
use rpsd_config.Json.Canonical.{text_lt}
use rpsd_config.Models.{IndicatorVersion, DatasetSpecification, CatalogStatus, is_published, draft}
use rpsd_config.Dependencies.Graph.{member}
use rpsd_config.Dependencies.Catalogue.{
  Link, Catalogue, ClosureError, cyclic_indicator_dependency, conflicting_indicator_versions,
  unpublished_prerequisite, out_of_fuel, links_of, validate_indicator_bindings, add_specifications,
  required_dataset_specifications,
}

-- What the visits write. `paths` has the paths of every version by its key, `logical` the version of
-- every indicator; the other dictionaries are the lists of their values.
pub record State : Type 0 where
  pub versions : List IndicatorVersion
  pub paths : List (ℕ × List (List String))
  pub edges : List Link
  pub logical : List (ℕ × ℕ)
  pub specs : List DatasetSpecification
  pub execution_order : List String

abbrev pub empty_state : State
empty_state = record {
  versions = [];
  paths = [];
  edges = [];
  logical = [];
  specs = [];
  execution_order = [];
}

abbrev pub is_draft_version : CatalogStatus → Bool
is_draft_version draft = true
is_draft_version _ = false

unfoldable pub same_path : List String → List String → Bool
same_path [] [] = true
same_path [] (y ∷ ys) = false
same_path (x ∷ xs) [] = false
same_path (x ∷ xs) (y ∷ ys) = str_eq x y && same_path xs ys

-- `if path not in paths.setdefault(pk, []): paths[pk].append(path)`
unfoldable pub add_path :
    ℕ → List String → List (ℕ × List (List String)) → List (ℕ × List (List String))
unfolding same_path
add_path pk path [] = (pk, path ∷ []) ∷ []
add_path pk path ((k, known) ∷ rest) =
    let later = add_path pk path rest in
    if k == pk
    then (k, (if exists_row (same_path path) known then known else known ++ path ∷ [])) ∷ rest
    else (k, known) ∷ later

-- Another version of the indicator was visited.
unfoldable pub is_other_version : IndicatorVersion → List (ℕ × ℕ) → Bool
is_other_version version logical =
    exists_row (λ e. e.0 == version.indicator.pk && not (e.1 == version.pk)) logical

unfoldable pub enter : IndicatorVersion → List String → State → State
unfolding add_path
enter version path st = record st {
  logical =
      put_row (λ e. e.0 == version.indicator.pk) (version.indicator.pk, version.pk) st.logical;
  paths = add_path version.pk path st.paths;
  versions = put_row (λ v. v.pk == version.pk) version st.versions;
}

abbrev pub add_edge : Link → State → State
add_edge link st = record st { edges = put_row (λ l. l.pk == link.pk) link st.edges }

unfoldable pub finish : IndicatorVersion → State → State
finish version st = record st {
  execution_order =
      (if exists_row (λ c. str_eq c version.code) st.execution_order
        then st.execution_order
        else st.execution_order ++ version.code ∷ []);
}

abbrev pub may_be_required : Bool → CatalogStatus → Bool
may_be_required allow_drafts status =
    is_published status || (allow_drafts && is_draft_version status)

-- The loop over the links of a version, where `visit` takes a prerequisite.
unfoldable pub visit_links :
    Bool
    → (IndicatorVersion → State → Result ClosureError State)
    → List Link
    → State
    → Result ClosureError State
visit_links allow_drafts visit [] st = ok st
visit_links allow_drafts visit (link ∷ links) st = do
  raise_if (not (may_be_required allow_drafts link.prerequisite.status)) unpublished_prerequisite
  st ← visit link.prerequisite (add_edge link st)
  visit_links allow_drafts visit links st

-- The checks and the writes of `visit` before its loop.
unfoldable pub arrive :
    Catalogue → Bool → List ℕ → IndicatorVersion → List String → State → Result ClosureError State
unfolding enter is_other_version
arrive cat allow_drafts active version path st = do
  raise_if (member version.pk active) cyclic_indicator_dependency
  raise_if (is_other_version version st.logical) conflicting_indicator_versions
  let entered = enter version path st
  validate_indicator_bindings cat allow_drafts version
  required ← required_dataset_specifications cat version
  specs ← add_specifications required entered.specs
  ok (record entered { specs = specs })

-- `active` has the versions whose visit has not ended, which the source adds before the loop and
-- removes after it.
unfoldable pub visit :
    Catalogue
    → Bool
    → ℕ
    → List ℕ
    → List String
    → IndicatorVersion
    → State
    → Result ClosureError State
unfolding visit_links arrive finish
visit cat allow_drafts zero active path version st = err out_of_fuel
visit cat allow_drafts (suc fuel) active path version st = do
  st ← arrive cat allow_drafts active version path st
  st ←
      visit_links allow_drafts
        (λ v. visit cat allow_drafts fuel (version.pk ∷ active) (path ++ v.code ∷ []) v)
        (links_of cat version.pk) st
  ok (finish version st)

unfoldable pub visit_roots :
    Catalogue → Bool → ℕ → List IndicatorVersion → State → Result ClosureError State
unfolding visit
visit_roots cat allow_drafts fuel [] st = ok st
visit_roots cat allow_drafts fuel (root ∷ roots) st = do
  st ← visit cat allow_drafts fuel [] (root.code ∷ []) root st
  visit_roots cat allow_drafts fuel roots st

-- What is returned.
pub record IndicatorClosure : Type 0 where
  pub versions : List IndicatorVersion
  pub paths : List (ℕ × List (List String))
  pub edges : List Link
  pub specifications : List DatasetSpecification
  pub root_ids : List ℕ
  pub execution_order : List String

abbrev pub edge_before : Link → Link → Bool
edge_before a b =
    text_lt a.dependent_code b.dependent_code
    || (str_eq a.dependent_code b.dependent_code && text_lt a.prerequisite.code b.prerequisite.code)

-- `IndicatorVersion.objects.filter(pk__in=root_ids).order_by("code")`
abbrev pub roots_of : Catalogue → List ℕ → List IndicatorVersion
roots_of cat root_ids =
    sort_by (λ a b. cat.precedes a.code b.code) (select (λ v. member v.pk root_ids) cat.versions)

abbrev pub enough : Catalogue → ℕ
enough cat = length cat.links + 2

-- The depth of a visit is at most the number of links, and one more.
unfoldable pub resolve_indicator_closure :
    Catalogue → List ℕ → Bool → Result ClosureError IndicatorClosure
unfolding visit_roots
resolve_indicator_closure cat root_ids allow_drafts = do
  let roots = roots_of cat root_ids
  st ← visit_roots cat allow_drafts (enough cat) roots empty_state
  ok (record {
    versions = sort_by (λ a b. text_lt a.code b.code) st.versions;
    paths = st.paths;
    edges = sort_by edge_before st.edges;
    specifications = sort_by (λ a b. text_lt a.code b.code) st.specs;
    root_ids = map (λ (v : IndicatorVersion). v.pk) roots;
    execution_order = st.execution_order;
  })
