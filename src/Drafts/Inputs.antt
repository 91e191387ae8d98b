-- ===== src/Drafts/Inputs.antt =====
-- `resolve_revision_inputs`: the inputs that the chosen indicators need.
use rpsd_config.Common.Results.{◌>>=◌}
use rpsd_config.Common.{
  ℕ, String, Bool, true, false, not, ◌&&◌, ◌||◌, List, [], ◌∷◌, ◌++◌, Result, ok, select,
  exists_row, put_row, sort_by, ltb, ◌==◌, str_eq, if◌then◌else◌,
}
use rpsd_config.Json.Canonical.{text_lt}
use rpsd_config.Models.{DatasetSpecification, ProfileInput, ProfileIndicator, Profile}
use rpsd_config.Revisions.{
  Issue, selection_not_in_profile, multiple_versions_for_indicator,
  required_input_not_available_in_profile, ambiguous_input_flow,
}
use rpsd_config.Dependencies.Graph.{member}
use rpsd_config.Dependencies.Catalogue.{Catalogue, ClosureError}
use rpsd_config.Dependencies.Closure.{IndicatorClosure, resolve_indicator_closure}

-- The specification that a profile input serves.
abbrev pub serves : ProfileInput → ℕ
serves i = i.input_flow_version.dataset_specification.pk

-- A set of keys, which the source sorts, is a sorted list.
unfoldable pub add_id : ℕ → List ℕ → List ℕ
add_id k [] = k ∷ []
add_id k (j ∷ js) = if ltb j k then j ∷ add_id k js else if j == k then j ∷ js else k ∷ j ∷ js

unfoldable pub add_ids : List DatasetSpecification → List ℕ → List ℕ
unfolding add_id
add_ids [] ids = ids
add_ids (s ∷ specs) ids = add_ids specs (add_id s.pk ids)

-- What the loop over the indicators leaves: the required specifications and the issues so far.
pub record Required : Type 0 where
  pub specification_ids : List ℕ
  pub issues : List Issue

abbrev pub with_issue : Issue → Required → Required
with_issue issue r = record r { issues = r.issues ++ issue ∷ [] }

abbrev pub with_closure : IndicatorClosure → Required → Required
with_closure c r = record r { specification_ids = add_ids c.specifications r.specification_ids }

-- The first loop; `logical` has the indicators that were seen.
unfoldable pub require_inputs :
    Catalogue → Profile → List ProfileIndicator → List ℕ → Required → Result ClosureError Required
require_inputs cat profile [] logical r = ok r
require_inputs cat profile (link ∷ links) logical r =
    let indicator_id = link.indicator_version.indicator.pk in
    elim (link.processing_profile_version_id == profile.pk) [
      | false ↦ require_inputs cat profile links logical (with_issue selection_not_in_profile r)
      | true ↦ elim (member indicator_id logical) [
        | true ↦
            require_inputs cat profile links logical (with_issue multiple_versions_for_indicator r)
        | false ↦ resolve_indicator_closure cat (link.indicator_version.pk ∷ []) false >>= λ c.
            require_inputs cat profile links (indicator_id ∷ logical) (with_closure c r)
      ]
    ]

-- `order_by("dataset__code", "input_flow_version__code")`
abbrev pub input_precedes : (String → String → Bool) → ProfileInput → ProfileInput → Bool
input_precedes before a b =
    before a.dataset.code b.dataset.code
    || (not (before b.dataset.code a.dataset.code)
        && before a.input_flow_version.code b.input_flow_version.code)

abbrev pub profile_inputs : Catalogue → Profile → List ProfileInput
profile_inputs cat profile = sort_by (input_precedes cat.precedes) profile.input_flow_links

-- What the second loop leaves.
pub record Mandatory : Type 0 where
  pub inputs : List ProfileInput
  pub issues : List Issue

-- One round: exactly one input of the profile has to serve the specification.
abbrev pub choose_input : List ProfileInput → Mandatory → Mandatory
choose_input [] m = record m { issues = required_input_not_available_in_profile ∷ m.issues }
choose_input (i ∷ []) m = record m { inputs = i ∷ m.inputs }
choose_input (i ∷ j ∷ is) m = record m { issues = ambiguous_input_flow ∷ m.issues }

unfoldable pub choose_inputs : List ProfileInput → List ℕ → Mandatory
choose_inputs inputs [] = record { inputs = []; issues = [] }
choose_inputs inputs (k ∷ ids) =
    choose_input (select (λ i. serves i == k) inputs) (choose_inputs inputs ids)

abbrev pub has_input : ℕ → List ProfileInput → Bool
has_input k inputs = exists_row (λ i. i.pk == k) inputs

abbrev pub put_input : ProfileInput → List ProfileInput → List ProfileInput
put_input i inputs = put_row (λ j. j.pk == i.pk) i inputs

-- The requested inputs that the profile has, as a dictionary by key.
unfoldable pub requested_of :
    List ProfileInput → List ProfileInput → List ProfileInput → List ProfileInput
requested_of inputs [] chosen = chosen
requested_of inputs (i ∷ requested) chosen =
    requested_of inputs requested (if has_input i.pk inputs then put_input i chosen else chosen)

unfoldable pub foreign_issues : List ProfileInput → List ProfileInput → List Issue
foreign_issues inputs [] = []
foreign_issues inputs (i ∷ requested) =
    let rest = foreign_issues inputs requested in
    if has_input i.pk inputs then rest else selection_not_in_profile ∷ rest

-- `dict.update`
unfoldable pub update_inputs : List ProfileInput → List ProfileInput → List ProfileInput
update_inputs [] chosen = chosen
update_inputs (i ∷ inputs) chosen = update_inputs inputs (put_input i chosen)

pub record RevisionInputResolution : Type 0 where
  pub mandatory_inputs : List ProfileInput
  pub optional_inputs : List ProfileInput
  pub selected_inputs : List ProfileInput
  pub issues : List Issue

abbrev pub input_before : ProfileInput → ProfileInput → Bool
input_before a b =
    text_lt a.dataset.code b.dataset.code
    || (str_eq a.dataset.code b.dataset.code
        && text_lt a.input_flow_version.code b.input_flow_version.code)

-- What is returned, from what the loops leave.
unfoldable pub resolution :
    List ProfileInput → List ProfileInput → Required → RevisionInputResolution
unfolding choose_inputs requested_of foreign_issues update_inputs
resolution inputs requested required =
    let m = choose_inputs inputs required.specification_ids in
    record {
      mandatory_inputs = m.inputs;
      optional_inputs = select (λ i. not (has_input i.pk m.inputs)) inputs;
      selected_inputs =
          sort_by input_before
            (update_inputs (requested_of inputs requested []) (update_inputs m.inputs []));
      issues = required.issues ++ (m.issues ++ foreign_issues inputs requested);
    }

unfoldable pub resolve_revision_inputs :
    Catalogue
    → Profile
    → List ProfileIndicator
    → List ProfileInput
    → Result ClosureError RevisionInputResolution
unfolding require_inputs resolution
resolve_revision_inputs cat profile links requested = do
  required ← require_inputs cat profile links [] (record { specification_ids = []; issues = [] })
  ok (resolution (profile_inputs cat profile) requested required)
