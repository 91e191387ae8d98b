-- ===== src/Permissions.antt =====
-- exchange_agreement/services/contract_revision_permissions.py: who may prepare, approve and withdraw
-- revisions. The first argument of the policies is the value of `group_root_path()`.
pub mod Policy
use rpsd_config.Common.{ℕ, String, Bool, true, false, ◌&&◌, ◌||◌, exists_row, ◌==◌, if◌then◌else◌}
use rpsd_config.Models.{
  Db, Contract, AgencyMembership, AgencyRole, agency_admin, agency_reader, is_active_membership,
  ContractMembership, ContractRole, contract_admin, contract_reader,
}
use rpsd_config.Rbac.{User, contains, resolve_user_agency_scope}

abbrev pub is_agency_admin : AgencyRole → Bool
is_agency_admin agency_admin = true
is_agency_admin _ = false

abbrev pub is_agency_preparer : AgencyRole → Bool
is_agency_preparer agency_reader = false
is_agency_preparer _ = true

abbrev pub is_contract_admin : ContractRole → Bool
is_contract_admin contract_admin = true
is_contract_admin _ = false

abbrev pub is_contract_preparer : ContractRole → Bool
is_contract_preparer contract_reader = false
is_contract_preparer _ = true

-- `AgencyMembership.objects.filter(agency_id=…, user=…, status=ACTIVE, role__in=…)`
abbrev pub agency_row : (AgencyRole → Bool) → ℕ → User → AgencyMembership → Bool
agency_row allowed agency_id user m =
    m.agency_id == agency_id
    && (m.user_id == user.pk && (is_active_membership m.status && allowed m.role))

-- `ContractMembership.objects.filter(contract=…, user=…, role__in=…)`
abbrev pub contract_row : (ContractRole → Bool) → Contract → User → ContractMembership → Bool
contract_row allowed contract user m =
    m.contract_id == contract.pk && (m.user_id == user.pk && allowed m.role)

-- What the policies share: memberships of the agency, and of the contract, in an allowed role.
abbrev pub has_membership :
    (AgencyRole → Bool) → (ContractRole → Bool) → Db → User → Contract → Bool
has_membership agency_allowed contract_allowed db user contract =
    exists_row (agency_row agency_allowed contract.client_agency.pk user) db.agency_memberships
    || exists_row (contract_row contract_allowed contract user) db.contract_memberships

unfoldable pub can_prepare_contract_revision : String → Db → User → Contract → Bool
unfolding resolve_user_agency_scope contains
can_prepare_contract_revision root db user contract =
    let scope = resolve_user_agency_scope root user in
    let key = contract.client_agency.agency_key in
    if user.is_authenticated
    then user.is_superuser
      || (contains key scope.admin_agency_keys
          || contains key scope.editor_agency_keys
          || has_membership is_agency_preparer is_contract_preparer db user contract)
    else false

unfoldable pub can_approve_contract_revision : String → Db → User → Contract → Bool
unfolding resolve_user_agency_scope contains
can_approve_contract_revision root db user contract =
    let scope = resolve_user_agency_scope root user in
    if user.is_authenticated
    then user.is_superuser
      || (contains contract.client_agency.agency_key scope.admin_agency_keys
          || has_membership is_agency_admin is_contract_admin db user contract)
    else false

unfoldable pub can_withdraw_contract_revision : String → Db → User → Contract → Bool
unfolding can_approve_contract_revision
can_withdraw_contract_revision = can_approve_contract_revision
