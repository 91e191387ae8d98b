-- ===== src/Grants/Access.antt =====
-- `require_m2m_contract_access`, and `ensure_default_contract_ingest_grant` of
-- exchange_agreement/services/m2m_grants.py.
use rpsd_config.Common.Results.{◌>>=◌, ◌>>◌}
use rpsd_config.Common.{
  ℕ, String, Bool, true, false, not, ◌&&◌, Option, none, some, List, [], ◌∷◌, ◌++◌, Result, ok, err,
  or_raise, raise_if, select, find, first_by, ltb, ◌==◌, str_eq, if◌then◌else◌,
}
use rpsd_config.Models.{Contract}
use rpsd_config.Grants.{
  Tables, Principal, is_active_principal, Grant, enabled, Reason, contract_not_found,
  principal_company_mismatch, environment_of, grant_of, can_client_ingest_for_contract,
}

pub data AccessError : Type 0 where
  authentication_required contract_not_found_error : AccessError
  access_denied : Reason → AccessError

abbrev pub hides_contract : Reason → Bool
hides_contract contract_not_found = true
hides_contract principal_company_mismatch = true
hides_contract _ = false

abbrev pub access_error : Reason → AccessError
access_error reason =
    if hides_contract reason then contract_not_found_error else access_denied reason

-- `principal` is `request.integration_principal`.
unfoldable pub require_m2m_contract_access :
    Tables
    → ℕ
    → ℕ
    → Option Principal
    → String
    → String
    → String
    → Result AccessError (Principal × Contract × Option Grant)
require_m2m_contract_access tables today at principal contract_code action data_category = do
  p ← or_raise principal authentication_required
  let decision =
      can_client_ingest_for_contract tables today at p.keycloak_client_id contract_code
        data_category p.environment action
  raise_if (not decision.allowed) (access_error decision.reason)
  contract ←
      or_raise (find (λ c. str_eq c.contract_code contract_code) tables.contracts)
        contract_not_found_error
  ok (p, contract, decision.grant)

-- `.filter(company_id=…, environment=…, status=ACTIVE).order_by("id").first()`
unfoldable pub default_active_principal_for_company : Tables → ℕ → String → Option Principal
default_active_principal_for_company tables company_id environment =
    first_by (λ x y. ltb x.pk y.pk)
      (select
        (λ p.
          p.company_id == company_id
          && (str_eq p.environment (environment_of environment) && is_active_principal p.status))
        tables.principals)

abbrev pub is_neutral : Option String → Bool
is_neutral none = true
is_neutral (some c) = false

-- The rows that `get_or_create` looks for.
unfoldable pub neutral_grant : Principal → Contract → Grant → Bool
neutral_grant principal contract g =
    grant_of principal contract "ingest:write" g && is_neutral g.data_category

unfoldable pub new_grant : ℕ → Option ℕ → Principal → Contract → Grant
new_grant pk actor_id principal contract = record {
  pk = pk;
  principal_id = principal.pk;
  contract_id = contract.pk;
  action = "ingest:write";
  data_category = none;
  valid_from = none;
  valid_to = none;
  status = enabled;
  created_by_id = actor_id;
}

pub data GrantError : Type 0 where
  multiple_objects_returned : GrantError

-- `get_or_create`: the rows that match, read to none, one or more.
abbrev pub get_or_create : List Grant → Grant → List Grant → Result GrantError Grant × List Grant
get_or_create [] created grants = (ok created, grants ++ created ∷ [])
get_or_create (g ∷ []) created grants = (ok g, grants)
get_or_create (g ∷ (h ∷ gs)) created grants = (err multiple_objects_returned, grants)

abbrev pub some_grant :
    Result GrantError Grant × List Grant → Result GrantError (Option Grant) × List Grant
some_grant (ok g, grants) = (ok (some g), grants)
some_grant (err e, grants) = (err e, grants)

abbrev pub ensure_for :
    ℕ
    → Option ℕ
    → Contract
    → List Grant
    → Option Principal
    → Result GrantError (Option Grant) × List Grant
ensure_for pk actor_id contract grants none = (ok none, grants)
ensure_for pk actor_id contract grants (some p) = some_grant (
    get_or_create (select (neutral_grant p contract) grants) (new_grant pk actor_id p contract)
      grants)

-- The grants after the call; `pk` is the key that the database would give a new grant.
unfoldable pub ensure_default_contract_ingest_grant :
    Tables → ℕ → Contract → Option ℕ → String → Result GrantError (Option Grant) × List Grant
ensure_default_contract_ingest_grant tables pk contract actor_id environment =
    ensure_for pk actor_id contract tables.grants
      (default_active_principal_for_company tables contract.contractor_company_id environment)
