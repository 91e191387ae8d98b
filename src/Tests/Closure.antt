-- ===== src/Tests/Closure.antt =====
-- A catalogue in which one version needs two others, which both need a fourth one, and one with a cycle.
use rpsd_config.Common.{
  ℕ, ◌+◌, ◌<◌, String, ◌≡◌, ◌≢◌, refl, sym, ◌∙◌, ap, str_eq, if◌then◌else◌, true, false, none, some,
  List, [], ◌∷◌, ok, err, In, inl, inr, arith,
}
use mathlib.Core.Path.{subst}
use rpsd_config.Json.Canonical.{text_lt}
use rpsd_config.Models
use rpsd_config.Models.{IndicatorVersion, Indicator, DatasetSpecification, Dataset}
use rpsd_config.Dependencies.Catalogue.{
  Link, RuleBinding, DatasetInput, Catalogue, cyclic_indicator_dependency, out_of_fuel,
}
use rpsd_config.Dependencies.Closure.{IndicatorClosure, resolve_indicator_closure}
use rpsd_config.Dependencies.Closure.Fuel.{Ends, resolve_closure-Ends}
use rpsd_config.Dependencies.Closure.Order.{IsCatalogue, IsExecutable, resolve_closure-IsExecutable}
use rpsd_config.Dependencies.Closure.Conflicts.{
  IsConsistentClosure, resolve_closure-IsConsistentClosure,
}

abbrev pub version : ℕ → String → IndicatorVersion
version pk code = record {
  pk = pk;
  code = code;
  version = "1";
  status = Models.Catalogs.published;
  indicator = record { pk = 100 + pk; code = code; status = Models.Catalogs.active };
  execution_engine = "dbt";
  execution_reference = "model";
  artifact_identifier = "sha";
}

abbrev link : ℕ → IndicatorVersion → IndicatorVersion → Link
link pk dependent prerequisite = record {
  pk = pk;
  dependent_id = dependent.pk;
  dependent_code = dependent.code;
  prerequisite = prerequisite;
}

abbrev pub a : IndicatorVersion
a = version 1 "a"

abbrev pub b : IndicatorVersion
b = version 2 "b"

abbrev pub c : IndicatorVersion
c = version 3 "c"

abbrev pub d : IndicatorVersion
d = version 4 "d"

abbrev pub specification : DatasetSpecification
specification = record {
  pk = 1;
  code = "S";
  version = "1";
  status = Models.Catalogs.published;
  dataset = record { pk = 1; code = "D"; status = Models.Catalogs.active };
}

abbrev pub catalogue : List Link → Catalogue
catalogue links = record {
  versions = a ∷ b ∷ c ∷ d ∷ [];
  links = links;
  rule_bindings =
      record {
        indicator_version_id = 4;
        rule_version_id = 1;
        rule_version_status = Models.Catalogs.published;
        dataset_specification = specification;
      }
      ∷ [];
  dataset_inputs = record { indicator_version_id = 2; dataset_specification = specification } ∷ [];
  precedes = text_lt;
  is_complete = λ _. true;
  is_clean = λ _. true;
}

abbrev diamond : Catalogue
diamond = catalogue (link 1 a c ∷ link 2 a b ∷ link 3 b d ∷ link 4 c d ∷ [])

abbrev cycle : Catalogue
cycle = catalogue (link 1 a b ∷ link 2 b c ∷ link 3 c b ∷ [])

abbrev closed : IndicatorClosure
closed = record {
  versions = a ∷ b ∷ c ∷ d ∷ [];
  paths =
      (1, ("a" ∷ []) ∷ [])
      ∷ (2, ("a" ∷ "b" ∷ []) ∷ [])
      ∷ (4, ("a" ∷ "b" ∷ "d" ∷ []) ∷ ("a" ∷ "c" ∷ "d" ∷ []) ∷ [])
      ∷ (3, ("a" ∷ "c" ∷ []) ∷ [])
      ∷ [];
  edges = link 2 a b ∷ link 1 a c ∷ link 3 b d ∷ link 4 c d ∷ [];
  specifications = specification ∷ [];
  root_ids = 1 ∷ [];
  execution_order = "d" ∷ "b" ∷ "c" ∷ "a" ∷ [];
}

diamond_closed : resolve_indicator_closure diamond (1 ∷ []) false ≡ ok closed
unfolding resolve_indicator_closure rpsd_config.Common.sort_by rpsd_config.Common.put_row
    rpsd_config.Dependencies.Catalogue.validate_indicator_bindings
    rpsd_config.Dependencies.Catalogue.required_dataset_specifications text_lt
diamond_closed = refl

cycle_refused : resolve_indicator_closure cycle (1 ∷ []) false ≡ err cyclic_indicator_dependency
unfolding resolve_indicator_closure rpsd_config.Common.sort_by rpsd_config.Common.put_row
    rpsd_config.Dependencies.Catalogue.validate_indicator_bindings
    rpsd_config.Dependencies.Catalogue.required_dataset_specifications text_lt
cycle_refused = refl

abbrev key_of : String → ℕ
key_of code =
    if str_eq code "a" then 1 else if str_eq code "b" then 2 else if str_eq code "c" then 3 else 4

key_of_version : (v : IndicatorVersion) → In v diamond.versions → v.pk ≡ key_of v.code
key_of_version v m =
    let at = λ (x : IndicatorVersion) (h : x.pk ≡ key_of x.code) (e : v ≡ x).
      subst (λ (y : IndicatorVersion). y.pk ≡ key_of y.code) (sym e) h in
    elim m [
      | inl e ↦ at a refl e
      | inr m ↦ elim m [
        | inl e ↦ at b refl e
        | inr m ↦ elim m [
          | inl e ↦ at c refl e
          | inr m ↦ elim m [ inl e ↦ at d refl e | inr r ↦ absurd r ]
        ]
      ]
    ]

diamond-IsCatalogue : IsCatalogue diamond
diamond-IsCatalogue = record {
  linked = λ l m. elim m [
    | inl e ↦ inr (inr (inl (ap (λ (x : Link). x.prerequisite) e)))
    | inr m ↦ elim m [
      | inl e ↦ inr (inl (ap (λ (x : Link). x.prerequisite) e))
      | inr m ↦ elim m [
        | inl e ↦ inr (inr (inr (inl (ap (λ (x : Link). x.prerequisite) e))))
        | inr m ↦ elim m [
          | inl e ↦ inr (inr (inr (inl (ap (λ (x : Link). x.prerequisite) e))))
          | inr r ↦ absurd r
        ]
      ]
    ]
  ];
  unique = λ v w mv mw e. key_of_version v mv ∙ (ap key_of e ∙ sym (key_of_version w mw));
}

resolve_closure-Ends_example : Ends (resolve_indicator_closure cycle (1 ∷ []) false)
resolve_closure-Ends_example = resolve_closure-Ends cycle (1 ∷ []) false

resolve_closure-IsExecutable_example : IsExecutable diamond (1 ∷ []) closed
resolve_closure-IsExecutable_example =
    resolve_closure-IsExecutable diamond (1 ∷ []) false closed diamond-IsCatalogue diamond_closed

resolve_closure-IsConsistentClosure_example : IsConsistentClosure diamond closed
resolve_closure-IsConsistentClosure_example =
    resolve_closure-IsConsistentClosure diamond (1 ∷ []) false closed diamond_closed
