-- ===== src/Tests/Drafts.antt =====
-- A profile with a proposed indicator that needs nothing and one that needs an input, and drafts of it.
use rpsd_config.Common.{
  ℕ, ◌+◌, ◌<◌, String, ◌≡◌, ◌≢◌, refl, sym, ◌∙◌, ap, true, false, none, some, Option, List, [], ◌∷◌,
  ◌++◌, ok, err, In, inl, inr, ◌⊎◌, arith,
}
use rpsd_config.Models
use rpsd_config.Models.{
  Db, Revision, Profile, ProfileInput, ProfileIndicator, Configuration, IndicatorVersion,
  CatalogStatus,
}
use rpsd_config.Dependencies.Catalogue.{Catalogue}
use rpsd_config.Profiles
use rpsd_config.Profiles.{ProfileTables, with_status, transition_processing_profile}
use rpsd_config.Profiles.Published.{
  HasUniqueKeys, IsTransition, transition_processing_profile-Changes,
}
use rpsd_config.Drafts.Inputs.{RevisionInputResolution, resolve_revision_inputs}
use rpsd_config.Drafts.Supplied.{AreRows, IsSupplied, resolve_inputs-IsSupplied}
use rpsd_config.Drafts.Create
use rpsd_config.Drafts.Create.{Library, DraftRequest, empty_configuration, create_revision_draft}
use rpsd_config.Drafts.Created.{IsCreated, create_draft-IsCreated}
use rpsd_config.Drafts.Replace.{
  key, IndicatorConfig, object, Composition, with_composition, write_replacement,
  replace_draft_configuration,
}
use rpsd_config.Drafts.Replaced.{IsReplaced, replace_draft-IsReplaced}
use rpsd_config.Tests.Closure.{a, b, catalogue}
use rpsd_config.Tests.Samples
use rpsd_config.Tests.Samples.{input, user, runtime_at, first, second, db_of}

abbrev link : ℕ → IndicatorVersion → ProfileIndicator
link pk version = record {
  pk = pk;
  processing_profile_version_id = 1;
  indicator_version = version;
  proposed_by_default = true;
}

abbrev optional : ProfileIndicator
optional = record (link 12 b) { proposed_by_default = false }

abbrev profile : CatalogStatus → Profile
profile status = record Samples.profile {
  status = status;
  indicator_version_links = link 11 a ∷ optional ∷ [];
}

abbrev lib : Library
lib = record { catalogue = catalogue []; profiles = profile Models.Catalogs.published ∷ [] }

-- The second indicator needs the input.
abbrev resolved : RevisionInputResolution
resolved = record {
  mandatory_inputs = input ∷ [];
  optional_inputs = [];
  selected_inputs = input ∷ [];
  issues = [];
}

resolves :
    resolve_revision_inputs
      (catalogue [])
      (profile Models.Catalogs.published)
      (link 11 a ∷ optional ∷ [])
      []
    ≡ ok resolved
unfolding resolve_revision_inputs rpsd_config.Dependencies.Closure.resolve_indicator_closure
    rpsd_config.Common.sort_by rpsd_config.Dependencies.Catalogue.validate_indicator_bindings
    rpsd_config.Common.put_row rpsd_config.Dependencies.Catalogue.required_dataset_specifications
    rpsd_config.Drafts.Inputs.add_ids
resolves = refl

-- The revision that is replaced has the optional indicator.
abbrev replaced : Revision
replaced = record first { configurations = empty_configuration optional ∷ [] }

abbrev request : Option Revision → DraftRequest
request replaces = record {
  new_pk = 5;
  contract_id = 7;
  profile_id = 1;
  valid_from = some 300;
  code = none;
  change_reason = none;
  replaces_revision = replaces;
}

abbrev db : Db
db = db_of (replaced ∷ second ∷ [])

abbrev created : Option Revision → List Configuration → Revision
created replaces configurations = record second {
  pk = 5;
  revision_number = 3;
  code = "C-r003";
  processing_profile_version = profile Models.Catalogs.published;
  valid_from = some 300;
  change_reason = "Draft created from processing profile P.";
  replaces_revision_id = Create.pk_of replaces;
  snapshot_schema_version = "canonical-json-v1";
  snapshot_checksum = "";
  created_by_id = some 9;
  updated_at = 1000;
  inputs = [];
  configurations = configurations;
}

-- The optional indicator is taken over, without the input that it needs.
creates : create_revision_draft (runtime_at 150) lib (request (some replaced)) user db ≡ (
  ok (
      created
        (some replaced)
        (empty_configuration (link 11 a) ∷ empty_configuration optional ∷ [])),
  record db {
    revisions =
        db.revisions
        ++ created
            (some replaced)
            (empty_configuration (link 11 a) ∷ empty_configuration optional ∷ [])
          ∷ [];
  },
)
unfolding create_revision_draft rpsd_config.Lifecycle.get_contract
    rpsd_config.Permissions.can_prepare_contract_revision rpsd_config.Rbac.match_group
    Profiles.validate_processing_profile_for_publication rpsd_config.Common.sort_by
    rpsd_config.Dependencies.Closure.resolve_indicator_closure rpsd_config.Json.Canonical.text_lt
    rpsd_config.Dependencies.Catalogue.validate_indicator_bindings
    rpsd_config.Dependencies.Catalogue.required_dataset_specifications rpsd_config.Common.put_row
    rpsd_config.Texts.strip resolve_revision_inputs rpsd_config.Drafts.Inputs.add_ids
    rpsd_config.Business.validate_business_configuration
creates = refl

input_unique : AreRows (input ∷ []) (input ∷ [])
input_unique i j mi mj e = elim mi [
  | inl p ↦ elim mj [ inl q ↦ p ∙ sym q | inr r ↦ absurd r ]
  | inr r ↦ absurd r
]

resolve_inputs-IsSupplied_example :
    IsSupplied
      (catalogue [])
      (profile Models.Catalogs.published)
      (link 11 a ∷ optional ∷ [])
      (input ∷ [])
resolve_inputs-IsSupplied_example =
    resolve_inputs-IsSupplied (catalogue []) (profile Models.Catalogs.published)
      (link 11 a ∷ optional ∷ []) [] resolved (λ i j m. absurd m) input_unique resolves refl

abbrev draft : Revision
draft =
    created (some replaced) (empty_configuration (link 11 a) ∷ empty_configuration optional ∷ [])

abbrev db_created : Db
db_created = record db { revisions = db.revisions ++ draft ∷ [] }

create_draft-IsCreated_example :
    IsCreated (runtime_at 150) lib (request (some replaced)) user db draft
    × (db_created ≡ record db { revisions = db.revisions ++ draft ∷ [] })
    × ((x : Revision)
        → In x db.revisions
        → x.contract_id ≡ draft.contract_id
        → x.revision_number < draft.revision_number)
create_draft-IsCreated_example =
    create_draft-IsCreated (runtime_at 150) lib (request (some replaced)) user db db_created draft
      creates

-- The composition is replaced by the optional indicator and its input.
abbrev items : List IndicatorConfig
items =
    object (record {
      profile_indicator = some (key 12);
      has_contract_indicator = false;
      thresholds = none;
      aggregation = none;
      penalties = none;
      parameters = none;
    })
    ∷ []

abbrev composition : Composition
composition = record {
  inputs = input ∷ [];
  configurations = empty_configuration optional ∷ [];
  implicit_ids = [];
}

replaces :
    replace_draft_configuration (runtime_at 150) lib draft [] items user db_created
    ≡ (ok (with_composition composition draft), write_replacement draft composition db_created)
unfolding replace_draft_configuration rpsd_config.Lifecycle.get_contract
    rpsd_config.Permissions.can_prepare_contract_revision rpsd_config.Rbac.match_group
    Profiles.validate_processing_profile_for_publication rpsd_config.Common.sort_by
    rpsd_config.Dependencies.Closure.resolve_indicator_closure rpsd_config.Json.Canonical.text_lt
    rpsd_config.Dependencies.Catalogue.validate_indicator_bindings
    rpsd_config.Dependencies.Catalogue.required_dataset_specifications rpsd_config.Common.put_row
    rpsd_config.Texts.strip resolve_revision_inputs rpsd_config.Drafts.Inputs.add_ids
    rpsd_config.Business.validate_business_configuration
replaces = refl

replace_draft-IsReplaced_example :
    (locked : Revision) × (c : Composition) × IsReplaced
      (runtime_at 150)
      lib
      []
      items
      user
      db_created
      locked
      c
    × (locked.pk ≡ draft.pk)
    × (with_composition composition draft ≡ with_composition c locked)
    × (write_replacement draft composition db_created ≡ write_replacement locked c db_created)
replace_draft-IsReplaced_example =
    replace_draft-IsReplaced (runtime_at 150) lib draft [] items user db_created
      (write_replacement draft composition db_created) (with_composition composition draft) replaces

abbrev tables : ProfileTables
tables = record { profiles = profile Models.Catalogs.draft ∷ []; events = [] }

published_profile : Profile
published_profile =
    with_status 2000 Models.Catalogs.published (some 9) (profile Models.Catalogs.draft)

publishes :
    In published_profile
      (transition_processing_profile
        (catalogue [])
        2000
        (profile Models.Catalogs.draft)
        Models.Catalogs.published
        (some 9)
        tables).1.profiles
unfolding transition_processing_profile published_profile
    Profiles.validate_processing_profile_for_publication rpsd_config.Common.sort_by
    rpsd_config.Texts.strip rpsd_config.Dependencies.Closure.resolve_indicator_closure
    rpsd_config.Json.Canonical.text_lt
    rpsd_config.Dependencies.Catalogue.validate_indicator_bindings rpsd_config.Common.put_row
    rpsd_config.Dependencies.Catalogue.required_dataset_specifications
publishes = inl refl

one_profile : HasUniqueKeys tables.profiles
one_profile p q mp mq e = elim mp [
  | inl x ↦ elim mq [ inl y ↦ x ∙ sym y | inr r ↦ absurd r ]
  | inr r ↦ absurd r
]

transition_processing_profile-Changes_example :
    In published_profile tables.profiles
    ⊎ ((p : Profile) × In p tables.profiles
        × IsTransition (catalogue []) 2000 Models.Catalogs.published (some 9) p published_profile)
transition_processing_profile-Changes_example =
    transition_processing_profile-Changes (catalogue []) 2000 (profile Models.Catalogs.draft)
      Models.Catalogs.published (some 9) tables published_profile one_profile publishes
