-- ===== src/Models/Memberships.antt =====
-- `AgencyMembership` and `ContractMembership` of exchange_agreement/models.py.
use rpsd_config.Common.{ℕ, String, Bool, true, false, Option}

pub data AgencyRole : Type 0 where
  agency_admin agency_editor agency_reader : AgencyRole

-- `AgencyMembership.role_rank`. (A value outside the choices, which ranks -1, is no `AgencyRole`.)
unfoldable pub role_rank : AgencyRole → ℕ
role_rank agency_reader = 0
role_rank agency_editor = 1
role_rank agency_admin = 2

pub data MembershipStatus : Type 0 where
  active revoked sync_error : MembershipStatus

abbrev pub is_active_membership : MembershipStatus → Bool
is_active_membership active = true
is_active_membership _ = false

pub data MembershipSource : Type 0 where
  invitation bootstrap keycloak_sync admin_action manual_migration : MembershipSource

pub record AgencyMembership : Type 0 where
  pub agency_id : ℕ
  pub user_id : ℕ
  pub role : AgencyRole
  pub status : MembershipStatus
  pub source : MembershipSource
  pub keycloak_group_path : String
  pub keycloak_user_id : String
  pub last_synced_at : Option ℕ
  pub last_sync_error : String
  pub created_by_id : Option ℕ
  pub updated_by_id : Option ℕ
  pub revoked_by_id : Option ℕ
  pub revoked_at : Option ℕ
  pub updated_at : ℕ

pub data ContractRole : Type 0 where
  contract_admin contract_editor contract_reader : ContractRole

pub record ContractMembership : Type 0 where
  pub contract_id : ℕ
  pub user_id : ℕ
  pub role : ContractRole
