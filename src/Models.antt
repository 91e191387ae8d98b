-- ===== src/Models.antt =====
-- The tables of exchange_agreement/models.py that the services read and write. A foreign key that a
-- service follows (`revision.processing_profile_version`) is the row that it points to.
pub mod Contracts
pub mod Catalogs
pub mod RevisionRows
pub mod Memberships
unfoldable pub use Contracts.*
pub use Catalogs.*
pub use RevisionRows.*
unfoldable pub use Memberships.*
use rpsd_config.Common.{ℕ, List}

-- `timezone.localdate()` and `timezone.now()`: a date is its ordinal, an instant a number.
pub record Clock : Type 0 where
  pub today : ℕ
  pub now : ℕ

pub record Db : Type 0 where
  pub contracts : List Contract
  pub revisions : List Revision
  pub dependency_configurations : List DependencyConfiguration
  pub revision_events : List RevisionStatusEvent
  pub publications : List Publication
  pub agency_memberships : List AgencyMembership
  pub contract_memberships : List ContractMembership
