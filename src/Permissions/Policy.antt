-- ===== src/Permissions/Policy.antt =====
-- How the policies for revisions relate.
use rpsd_config.Common.{String, ◌≡◌, Bool, true, List, [], ◌∷◌, exists_row, arith}
use rpsd_config.Models.{Db, Contract}
use rpsd_config.Rbac.{User}
use rpsd_config.Permissions.{
  is_agency_admin, is_agency_preparer, is_contract_admin, is_contract_preparer, agency_row,
  contract_row, has_membership, can_prepare_contract_revision, can_approve_contract_revision,
}

-- A weaker test finds a row where a stronger one does.
exists_row_mono :
    {A : Type 0} (p q : A → Bool) (xs : List A)
    → ((x : A) → p x ≡ true → q x ≡ true)
    → exists_row p xs ≡ true
    → exists_row q xs ≡ true
exists_row_mono p q [] h e = cc
exists_row_mono p q (x ∷ xs) h e = ground (arith, h x, exists_row_mono p q xs h)

has_membership_mono :
    (db : Db) (user : User) (contract : Contract)
    → has_membership is_agency_admin is_contract_admin db user contract ≡ true
    → has_membership is_agency_preparer is_contract_preparer db user contract ≡ true
has_membership_mono db user contract h = ground (
  arith,
  exists_row_mono (agency_row is_agency_admin contract.client_agency.pk user)
      (agency_row is_agency_preparer contract.client_agency.pk user) db.agency_memberships
      (λ m e. ground arith),
  exists_row_mono (contract_row is_contract_admin contract user)
      (contract_row is_contract_preparer contract user) db.contract_memberships
      (λ m e. ground arith),
)

-- Whoever may approve the revisions of a contract may also prepare them.
pub can_approve-can_prepare :
    (root : String) (db : Db) (user : User) (contract : Contract)
    → can_approve_contract_revision root db user contract ≡ true
    → can_prepare_contract_revision root db user contract ≡ true
unfolding can_prepare_contract_revision can_approve_contract_revision
can_approve-can_prepare root db user contract h =
    ground (arith, has_membership_mono db user contract)
