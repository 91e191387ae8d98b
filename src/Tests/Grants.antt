-- ===== src/Tests/Grants.antt =====
-- A machine client and its grant for the sample contract.
use rpsd_config.Common.{
  ℕ, String, ◌≡◌, ◌↔◌, refl, true, false, Bool, Option, some, none, List, [], ◌∷◌, ◌++◌, In, Result,
  ok, err, find, str_eq, exists_row, ◌&&◌, ◌==◌,
}
use rpsd_config.Models.{Contract, is_active_today}
use rpsd_config.Texts.{lower, strip, strip_left, strip_right}
use rpsd_config.Grants
use rpsd_config.Grants.{
  Tables, Principal, is_active_principal, is_principal, Grant, enabled, disabled,
  IntegrationGrantDecision, grant_active, grant_missing, can_client_ingest_for_contract,
  is_accessible, accessible_contracts_for_principal,
}
use rpsd_config.Grants.Decisions.{IsAllowed, can_client_lem, can_client-accessible}
use rpsd_config.Grants.Access.{
  require_m2m_contract_access, ensure_default_contract_ingest_grant,
  default_active_principal_for_company, neutral_grant, new_grant,
}
use rpsd_config.Grants.Ensured.{access-IsAllowed, ensure-idempotent}
use rpsd_config.Tests.Samples.{contract}

abbrev principal : Principal
principal = record {
  pk = 4;
  company_id = 3;
  environment = "prod";
  keycloak_client_id = "m2m";
  status = Grants.active;
}

abbrev grant : Grant
grant = new_grant 1 none principal contract

abbrev tables : Tables
tables = record { principals = principal ∷ []; contracts = contract ∷ []; grants = grant ∷ [] }

abbrev no_grants : Tables
no_grants = record tables { grants = [] }

ensures :
    ensure_default_contract_ingest_grant no_grants 1 contract none "prod"
    ≡ (ok (some grant), grant ∷ [])
unfolding ensure_default_contract_ingest_grant default_active_principal_for_company neutral_grant
    new_grant Grants.environment_of lower strip strip_left strip_right rpsd_config.Common.first_by
ensures = refl

ensure-idempotent_example :
    ensure_default_contract_ingest_grant
      (record no_grants { grants = grant ∷ [] })
      2
      contract
      (some 9)
      "prod"
    ≡ (ok (some grant), grant ∷ [])
ensure-idempotent_example =
    ensure-idempotent no_grants 1 2 contract none (some 9) "prod" (some grant) (grant ∷ []) ensures

allows :
    (can_client_ingest_for_contract tables 150 150 "m2m" "C" "netex" "prod" "ingest:write").allowed
    ≡ true
unfolding can_client_ingest_for_contract Grants.contract_decision Grants.contract_reason
    Grants.usable Grants.fits_category Grants.grant_decision Grants.grant_before new_grant
    Grants.environment_of lower strip strip_left strip_right is_active_today
    rpsd_config.Common.first_by
allows = refl

can_client_lem_example :
    ((can_client_ingest_for_contract tables 150 150 "m2m" "C" "netex" "prod" "ingest:write").allowed
      ≡ true)
    ↔ ((p : Principal) × (c : Contract) × (g : Grant) × (find
            (is_principal "m2m" "prod")
            tables.principals
          ≡ some p)
        × (is_active_principal p.status ≡ true)
        × (find (λ o. str_eq o.contract_code "C") tables.contracts ≡ some c)
        × IsAllowed tables 150 150 "netex" "ingest:write" p c g)
can_client_lem_example = can_client_lem tables 150 150 "m2m" "C" "netex" "prod" "ingest:write"

can_client-accessible_example :
    (p : Principal) × (c : Contract) × (find (is_principal "m2m" "prod") tables.principals ≡ some p)
    × (find (λ o. str_eq o.contract_code "C") tables.contracts ≡ some c)
    × In c (accessible_contracts_for_principal tables (λ at. at) p "ingest:write" 150)
can_client-accessible_example =
    can_client-accessible tables (λ at. at) 150 "m2m" "C" "netex" "prod" "ingest:write" allows

accesses :
    require_m2m_contract_access tables 150 150 (some principal) "C" "ingest:write" "netex"
    ≡ ok (principal, contract, some grant)
unfolding require_m2m_contract_access can_client_ingest_for_contract Grants.contract_decision
    Grants.contract_reason Grants.usable Grants.fits_category Grants.grant_decision
    Grants.grant_before new_grant Grants.environment_of lower strip strip_left strip_right
    is_active_today rpsd_config.Common.first_by
accesses = refl

access-IsAllowed_example :
    (some principal ≡ some principal)
    × (find (λ o. str_eq o.contract_code "C") tables.contracts ≡ some contract)
    × ((q : Principal) × (g : Grant) × (find (is_principal "m2m" "prod") tables.principals ≡ some q)
        × (is_active_principal q.status ≡ true)
        × IsAllowed tables 150 150 "netex" "ingest:write" q contract g)
access-IsAllowed_example =
    access-IsAllowed tables 150 150 (some principal) "C" "ingest:write" "netex" principal contract
      (some grant) accesses

-- The own grant of the principal is disabled, and another principal has an active one.
abbrev mixed : Tables
mixed = record tables {
  grants = record grant { status = disabled } ∷ record grant { pk = 2; principal_id = 5 } ∷ [];
}

-- Its contract is listed as accessible, though the client may not ingest for it.
listed_without_grant :
    (is_accessible mixed (λ at. at) principal "ingest:write" 150 contract ≡ true)
    × ((can_client_ingest_for_contract mixed 150 150 "m2m" "C" "netex" "prod"
          "ingest:write").allowed
        ≡ false)
unfolding is_accessible Grants.active_grants_filter can_client_ingest_for_contract
    Grants.contract_decision Grants.contract_reason Grants.usable Grants.fits_category
    Grants.grant_decision Grants.grant_before new_grant Grants.environment_of lower strip strip_left
    strip_right is_active_today rpsd_config.Common.first_by
listed_without_grant = (refl, refl)

-- The default grant is there but disabled: the call returns it as it is.
abbrev switched_off : Tables
switched_off = record tables { grants = record grant { status = disabled } ∷ [] }

ensures_disabled :
    ensure_default_contract_ingest_grant switched_off 2 contract none "prod"
    ≡ (ok (some (record grant { status = disabled })), switched_off.grants)
unfolding ensure_default_contract_ingest_grant default_active_principal_for_company neutral_grant
    new_grant Grants.environment_of lower strip strip_left strip_right rpsd_config.Common.first_by
ensures_disabled = refl
