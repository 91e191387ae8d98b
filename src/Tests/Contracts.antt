-- ===== src/Tests/Contracts.antt =====
-- Saving and publishing the sample contracts.
use rpsd_config.Common.{
  ℕ, ◌+◌, ◌≡◌, ◌≢◌, refl, sym, ◌∙◌, ap, true, Option, none, some, List, [], ◌∷◌, ◌++◌, In, inl, inr,
  ◌⊎◌, Result, ok, find, ◌==◌, arith,
}
use rpsd_config.Models
use rpsd_config.Models.{
  Clock, Contract, ContractStatus, is_closed_status, is_active_status, Db, Publication, Revision,
}
use rpsd_config.Rbac.{User}
use rpsd_config.Revisions.{resolve_current_contract_revision, current_revision, candidate, later}
use rpsd_config.Contracts
use rpsd_config.Contracts.{save_contract, create_contract}
use rpsd_config.Contracts.Schedule.{IsSchedule, save_contract-IsSchedule}
use rpsd_config.Contracts.Closed.{IsUnchanged, save_contract-IsUnchanged}
use rpsd_config.Publications
use rpsd_config.Publications.{publish_contract, new_publication, latest_version, activated}
use rpsd_config.Publications.Published.{
  publish-resolve, HasUniqueVersions, publish-HasUniqueVersions,
}
use rpsd_config.Tests.Samples.{contract_with, revision_of, stored_snapshot}

abbrev six_years : ℕ → ℕ
six_years d = d + 2192

abbrev first_contract : Contract
first_contract = contract_with 7 100 Models.Contracts.draft

abbrev later_contract : Contract
later_contract = record (contract_with 8 600 Models.Contracts.draft) { contract_code = "C2" }

abbrev closed_contract : Contract
closed_contract = record (contract_with 7 100 Models.Contracts.closed) {
  closed_at = some 5;
  closed_reason = "end";
}

one-IsSchedule : IsSchedule (first_contract ∷ [])
one-IsSchedule = record {
  disjoint = λ x y mx my ne lot. elim mx [
    | inl e ↦ elim my [
      | inl f ↦ absurd (ne (ap (λ (c : Contract). c.pk) (e ∙ sym f)))
      | inr r ↦ absurd r
    ]
    | inr r ↦ absurd r
  ];
  versions = λ x y mx my ne pair. elim mx [
    | inl e ↦ elim my [
      | inl f ↦ absurd (ne (ap (λ (c : Contract). c.pk) (e ∙ sym f)))
      | inr r ↦ absurd r
    ]
    | inr r ↦ absurd r
  ];
}

abbrev created_contract : Contract
created_contract = record later_contract {
  version = 1;
  contract_type = Models.Contracts.renewal;
  updated_at = 9;
}

-- The second contract of the pair starts after the first one and gets version 1.
creates :
    create_contract six_years 9 later_contract (first_contract ∷ [])
    ≡ (ok created_contract, first_contract ∷ created_contract ∷ [])
unfolding create_contract Contracts.check_new Contracts.full_clean Contracts.clean_issues
    Contracts.closing_issues Contracts.overlaps Contracts.with_version rpsd_config.Common.first_by
creates = refl

save_contract-IsSchedule_example :
    IsSchedule (save_contract six_years 9 first_contract (first_contract ∷ [])).1
save_contract-IsSchedule_example =
    save_contract-IsSchedule six_years 9 first_contract (first_contract ∷ []) one-IsSchedule

one_key :
    (a b : Contract)
    → In a (closed_contract ∷ [])
    → In b (closed_contract ∷ [])
    → a.pk ≡ b.pk
    → a ≡ b
one_key a b ma mb e = elim ma [
  | inl p ↦ elim mb [ inl q ↦ p ∙ sym q | inr r ↦ absurd r ]
  | inr r ↦ absurd r
]

save_contract-IsUnchanged_example :
    (y : Contract) × In y (save_contract six_years 9 first_contract (closed_contract ∷ [])).1
    × IsUnchanged closed_contract y
save_contract-IsUnchanged_example =
    save_contract-IsUnchanged six_years 9 first_contract (closed_contract ∷ []) closed_contract
      one_key (inl refl) refl

abbrev user : User
user = record { pk = 1; is_authenticated = true; is_superuser = true; groups = [] }

abbrev checksum : rpsd_config.Common.String
checksum = "sha256:0123456789abcdef0123456789abcdef0123456789abcdef0123456789abcdef"

abbrev stored_revision : Revision
stored_revision = record (revision_of 1 1 100 Models.RevisionRows.approved stored_snapshot) {
  snapshot_checksum = checksum;
}

abbrev clock : Clock
clock = record { today = 150; now = 9 }

abbrev db : Db
db = record {
  contracts = first_contract ∷ [];
  revisions = stored_revision ∷ [];
  dependency_configurations = [];
  revision_events = [];
  publications = [];
  agency_memberships = [];
  contract_memberships = [];
}

abbrev publication : Publication
publication = new_publication clock user db first_contract stored_revision

abbrev db_published : Db
db_published = record db {
  contracts = activated 9 7 (first_contract ∷ []);
  publications = publication ∷ [];
}

-- A draft contract that has started is published and active afterwards.
publishes : publish_contract six_years clock user 7 db ≡ (ok publication, db_published)
unfolding publish_contract Publications.prepare_publish Publications.check_publish
    Publications.require_publish_permission Publications.new_publication Publications.latest_version
    Publications.publication_issues Publications.is_checksum Publications.hex_digits
    Publications.activate rpsd_config.Rbac.after Contracts.check_save Contracts.full_clean
    Contracts.clean_issues Contracts.closing_issues Contracts.overlaps Contracts.same_protected
    rpsd_config.Common.first_by current_revision candidate later
publishes = refl

publish-resolve_example :
    (c : Contract) × (r : Revision) × (find (λ o. o.pk == 7) db_published.contracts ≡ some c)
    × (is_active_status c.status ≡ true)
    × (resolve_current_contract_revision 150 db_published.revisions c ≡ ok r)
    × (publication.configuration_revision_id ≡ r.pk)
    × (publication.snapshot ≡ r.configuration_snapshot)
    × (publication.snapshot_checksum ≡ r.snapshot_checksum)
publish-resolve_example =
    publish-resolve six_years clock user 7 db db_published publication publishes

publish-HasUniqueVersions_example :
    HasUniqueVersions (publish_contract six_years clock user 7 db).1.publications
publish-HasUniqueVersions_example =
    publish-HasUniqueVersions six_years clock user 7 db (λ x y mx my own e. absurd mx)
