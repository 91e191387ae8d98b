-- ===== src/Lib.antt =====
-- Models of rpsd-config, the registry of public transport contracts and of their technical
-- configuration, with the properties that its services keep. The paths are those of
-- src/rpsd_config/ in the repository.
--
-- A contract (exchange_agreement/models.py) has configuration revisions. A revision is prepared as
-- a draft, approved with a start date, and may be withdrawn before that date; approving it freezes
-- its configuration as canonical JSON with a checksum. Which revision is current on a day follows
-- from the approved start dates alone. Publishing a contract copies the frozen configuration of its
-- current revision and activates the contract; ingestion reads the frozen configuration after
-- checking its integrity, and machine clients need a grant for the contract. Permissions of users
-- come from memberships and from the groups of the identity provider. Indicator versions depend on
-- each other, and a dependency may not close a cycle.
--
-- Common: results and actions of calls that raise, tables as lists of rows, Boolean tests.
-- Json: the values that `_canonical_value` tells apart, its result and the checksum
--   (exchange_agreement/services/contract_revisions.py).
-- Texts: `strip`, `lower` of ASCII text, and comparison after `lower`.
-- Models: the rows of exchange_agreement/models.py that the services read and write. `Db` is the
--   database; dates are ordinals.
-- Rbac: agency groups, roles and scopes (exchange_agreement/rbac.py).
-- Permissions: exchange_agreement/services/contract_revision_permissions.py.
-- Business: `validate_business_configuration`
--   (exchange_agreement/services/revision_registry.py).
-- Revisions: `resolve_current_contract_revision`, `revision_effective_period` and
--   `revision_temporal_state` (exchange_agreement/services/contract_revisions.py).
-- Approval: `validate_revision_for_approval` of the same file.
-- Lifecycle: `approve_contract_revision` and `withdraw_contract_revision` of the same file, from a
--   database to a result and the database after the call.
-- Contracts: `Contract.save` and what it calls (exchange_agreement/models.py).
-- Publications: `publish_contract` (exchange_agreement/services/publication.py) with the `clean` of
--   a new publication.
-- Ingest: the configuration that ingestion reads from the approved snapshot
--   (exchange_agreement/services/ingest_resolution.py).
-- Grants: what machine clients may ingest (exchange_agreement/services/m2m_grants.py).
-- Invitations: the rejection of agency invitations
--   (exchange_agreement/services/invitation_rejections.py) and their acceptance, which assigns a
--   membership (exchange_agreement/services/agency_invitations.py).
-- Memberships: `sync_agency_memberships_from_groups`, and the assignment, change and revocation of a
--   membership (exchange_agreement/services/agency_memberships.py), with the identity provider as an
--   interface (`Memberships.Provider`).
-- Dependencies: `would_create_cycle` and `resolve_indicator_closure` of
--   exchange_agreement/services/indicator_dependencies.py, with the checks and required
--   specifications of exchange_agreement/services/validation_bindings.py.
-- Profiles: `validate_processing_profile_for_publication` and `transition_processing_profile`
--   (exchange_agreement/services/processing_profiles.py), with the coverage of inputs
--   (exchange_agreement/services/validation_bindings.py).
-- Drafts: `resolve_revision_inputs`, `create_revision_draft`, `replace_draft_configuration` and
--   `available_processing_profiles` (exchange_agreement/services/contract_revisions.py), with the
--   `clean` of the rows that they save.
-- Tests: runs on sample data.
--
-- Bounds and fuel: the search of `would_create_cycle` has one round for each dependency row and two
-- more, which is enough since every row is followed once. The fuel of `resolve_indicator_closure`
-- bounds the depth of its visits: one more than the links suffices, since the versions being visited
-- are the ends of different links. All else is structural recursion.
--
-- Parameters: the hash of a canonical value, `build_revision_snapshot` with the validation
-- snapshot, the clock and the group root of the settings (`Lifecycle.Runtime`); the date six years
-- after a date (`_add_years_safe`), since dates are ordinals; the checks of evaluations and of
-- formal metadata in a snapshot (`Ingest.Checks`); the date of an instant; the rows of versions and
-- the checks of their rules and inputs, and the order in which the database sorts codes
-- (`Dependencies.Catalogue`); the key that it gives to a new row; the
-- identity provider and its client, and the identifier of a social account. Row locks are taken as
-- given: a call runs without another transaction between its reads and its writes.
--
-- Not modelled: messages of errors, the bytes that `json.dumps` writes, the length limits of text
-- columns, the evaluations of indicators and their copies in a new draft (`clone_evaluations`), the
-- HTTP views, forms and admin pages, the requests of the client of the identity
-- provider (server/keycloak_admin.py), the seeds and migrations.
pub mod Common
pub mod Json
pub mod Texts
pub mod Models
pub mod Rbac
pub mod Permissions
pub mod Business
pub mod Revisions
pub mod Approval
pub mod Lifecycle
pub mod Contracts
pub mod Dependencies
pub mod Drafts
pub mod Grants
pub mod Ingest
pub mod Invitations
pub mod Memberships
pub mod Profiles
pub mod Publications
pub mod Tests
