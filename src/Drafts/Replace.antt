-- ===== src/Drafts/Replace.antt =====
-- `replace_draft_configuration`: the composition of a draft is replaced as a whole.
use rpsd_config.Common.Results.{◌>>=◌, ◌>>◌}
use rpsd_config.Common.{
  ℕ, Bool, false, not, ◌&&◌, Option, none, some, List, [], ◌∷◌, ◌++◌, Result, ok, err, Action,
  or_raise, raise_if, is_nil, select, find, map, update_rows, ◌==◌,
}
use rpsd_config.Json.{Json, obj, end}
use rpsd_config.Models.{
  Db, Revision, is_draft, Profile, ProfileInput, ProfileIndicator, Configuration, IndicatorVersion,
  DependencyConfiguration,
}
use rpsd_config.Rbac.{User}
use rpsd_config.Permissions.{can_prepare_contract_revision}
use rpsd_config.Revisions.{
  permission_denied, does_not_exist, validation, selection_not_in_profile,
  multiple_versions_for_indicator,
}
use rpsd_config.Dependencies.Graph.{member}
use rpsd_config.Dependencies.Closure.{IndicatorClosure, resolve_indicator_closure}
use rpsd_config.Lifecycle.{Runtime, get_contract}
use rpsd_config.Drafts.Inputs.{resolve_revision_inputs}
use rpsd_config.Drafts.Rows.{
  DraftError, raised, only_draft_replaceable, not_an_object, missing_key, unsupported_key, issue,
  revision_or_raise, closure_or_raise, clean_inputs,
}
use rpsd_config.Drafts.Create.{Library, save_all}

-- A row, or the key of one.
pub data Chosen (A : Type 0) : Type 0 where
  row : A → Chosen A
  key : ℕ → Chosen A

unfoldable pub all_inputs : List Profile → List ProfileInput
all_inputs [] = []
all_inputs (p ∷ profiles) = p.input_flow_links ++ all_inputs profiles

unfoldable pub all_indicators : List Profile → List ProfileIndicator
all_indicators [] = []
all_indicators (p ∷ profiles) = p.indicator_version_links ++ all_indicators profiles

unfoldable pub resolve_profile_input :
    Library → Chosen ProfileInput → Result DraftError ProfileInput
unfolding all_inputs
resolve_profile_input lib (row i) = ok i
resolve_profile_input lib (key k) =
    or_raise (find (λ i. i.pk == k) (all_inputs lib.profiles)) (raised does_not_exist)

unfoldable pub resolve_profile_indicator :
    Library → Chosen ProfileIndicator → Result DraftError ProfileIndicator
unfolding all_indicators
resolve_profile_indicator lib (row l) = ok l
resolve_profile_indicator lib (key k) =
    or_raise (find (λ l. l.pk == k) (all_indicators lib.profiles)) (raised does_not_exist)

unfoldable pub resolve_selections :
    Library → List (Chosen ProfileInput) → Result DraftError (List ProfileInput)
unfolding resolve_profile_input
resolve_selections lib [] = ok []
resolve_selections lib (s ∷ selections) = do
  i ← resolve_profile_input lib s
  rest ← resolve_selections lib selections
  ok (i ∷ rest)

-- An entry of `indicator_configs`: its keys, of which `contract_indicator` is refused.
pub record Entry : Type 0 where
  pub profile_indicator : Option (Chosen ProfileIndicator)
  pub has_contract_indicator : Bool
  pub thresholds : Option Json
  pub aggregation : Option Json
  pub penalties : Option Json
  pub parameters : Option Json

pub data IndicatorConfig : Type 0 where
  no_object : IndicatorConfig
  object : Entry → IndicatorConfig

-- `item.get(key, {})`
abbrev pub or_empty : Option Json → Json
or_empty none = obj end
or_empty (some v) = v

abbrev pub entry_of : Entry → ProfileIndicator → Configuration
entry_of item link = record {
  processing_profile_indicator_version = link;
  thresholds = or_empty item.thresholds;
  aggregation = or_empty item.aggregation;
  penalties = or_empty item.penalties;
  parameters = or_empty item.parameters;
}

-- The loop over the entries; `logical` has the indicators that were selected.
unfoldable pub resolve_configs :
    Library → ℕ → List IndicatorConfig → List ℕ → Result DraftError (List Configuration)
unfolding resolve_profile_indicator
resolve_configs lib profile_id [] logical = ok []
resolve_configs lib profile_id (no_object ∷ items) logical = err not_an_object
resolve_configs lib profile_id (object item ∷ items) logical = do
  chosen ← or_raise item.profile_indicator missing_key
  link ← resolve_profile_indicator lib chosen
  let indicator_id = link.indicator_version.indicator.pk
  raise_if (not (link.processing_profile_version_id == profile_id)) (issue selection_not_in_profile)
  raise_if (member indicator_id logical) (issue multiple_versions_for_indicator)
  raise_if item.has_contract_indicator unsupported_key
  rest ← resolve_configs lib profile_id items (indicator_id ∷ logical)
  ok (entry_of item link ∷ rest)

abbrev pub link_of : Configuration → ProfileIndicator
link_of c = c.processing_profile_indicator_version

-- The configurations that stay, before they are saved.
abbrev pub kept : List Configuration → List Configuration → List Configuration
kept configs rows =
    select (λ c. member (link_of c).pk (map (λ (x : Configuration). (link_of x).pk) configs)) rows

-- What a replacement writes.
pub record Composition : Type 0 where
  pub inputs : List ProfileInput
  pub configurations : List Configuration
  pub implicit_ids : List ℕ

-- `{v.pk for v in closure["versions"]} - closure["root_ids"]`
abbrev pub implicit_of : IndicatorClosure → List ℕ
implicit_of c =
    map (λ (v : IndicatorVersion). v.pk) (select (λ v. not (member v.pk c.root_ids)) c.versions)

unfoldable pub recompose :
    Library
    → Revision
    → List (Chosen ProfileInput)
    → List IndicatorConfig
    → Result DraftError Composition
unfolding resolve_selections resolve_configs clean_inputs save_all
recompose lib locked selections items = do
  let profile = locked.processing_profile_version
  requested ← resolve_selections lib selections
  configs ← resolve_configs lib profile.pk items []
  let links = map link_of configs
  r ← closure_or_raise (resolve_revision_inputs lib.catalogue profile links requested)
  raise_if (not (is_nil r.issues)) (raised (validation r.issues))
  clean_inputs profile r.selected_inputs
  configurations ← save_all profile configs (kept configs locked.configurations)
  closure ← closure_or_raise (
      resolve_indicator_closure lib.catalogue
        (map (λ (l : ProfileIndicator). l.indicator_version.pk) links) false)
  ok (record {
    inputs = r.selected_inputs;
    configurations = configurations;
    implicit_ids = implicit_of closure;
  })

unfoldable pub check_replacement :
    Runtime
    → Library
    → Revision
    → List (Chosen ProfileInput)
    → List IndicatorConfig
    → User
    → Db
    → Result DraftError (Revision × Composition)
unfolding recompose
check_replacement rt lib revision selections items actor db = do
  locked ← or_raise (find (λ r. r.pk == revision.pk) db.revisions) (raised does_not_exist)
  contract ← revision_or_raise (get_contract locked.contract_id db)
  raise_if (not (can_prepare_contract_revision rt.root db actor contract))
      (raised permission_denied)
  raise_if (not (is_draft locked.status)) only_draft_replaceable
  composition ← recompose lib locked selections items
  ok (locked, composition)

abbrev pub with_composition : Composition → Revision → Revision
with_composition c r = record r { inputs = c.inputs; configurations = c.configurations }

-- A configuration of a dependency stays if it is of another revision or still implicit.
abbrev pub stays : Revision → Composition → DependencyConfiguration → Bool
stays locked c d =
    not (d.revision_id == locked.pk && not (member d.indicator_version_id c.implicit_ids))

unfoldable pub write_replacement : Revision → Composition → Db → Db
write_replacement locked c db = record db {
  revisions = update_rows (λ r. r.pk == locked.pk) (with_composition c) db.revisions;
  dependency_configurations = select (stays locked c) db.dependency_configurations;
}

abbrev pub then_replace :
    Db → Result DraftError (Revision × Composition) → Result DraftError Revision × Db
then_replace db (err e) = (err e, db)
then_replace db (ok (locked, c)) = (ok (with_composition c locked), write_replacement locked c db)

unfoldable pub replace_draft_configuration :
    Runtime
    → Library
    → Revision
    → List (Chosen ProfileInput)
    → List IndicatorConfig
    → User
    → Action DraftError Db Revision
unfolding check_replacement write_replacement
replace_draft_configuration rt lib revision selections items actor db =
    then_replace db (check_replacement rt lib revision selections items actor db)
