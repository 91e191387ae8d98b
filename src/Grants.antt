-- ===== src/Grants.antt =====
-- exchange_agreement/services/m2m_grants.py: which machine clients may ingest data for which
-- contracts. An instant is a number; `date_of` is `checked_at.date()`.
pub mod Decisions
pub mod Access
pub mod Ensured
use rpsd_config.Common.{
  ℕ, ◌+◌, String, Bool, true, false, not, ◌&&◌, ◌||◌, Option, none, some, List, [], ◌∷◌, ◌++◌,
  Result, ok, err, Action, select, exists_row, find, first_by, ltb, leb, ◌==◌, str_eq,
  if◌then◌else◌,
}
use rpsd_config.Json.Canonical.{text_lt}
use rpsd_config.Texts.{strip, lower, is_empty}
use rpsd_config.Models.{Contract, is_active_today, is_active_status, not_ended}

pub data PrincipalStatus : Type 0 where
  active suspended revoked : PrincipalStatus

abbrev pub is_active_principal : PrincipalStatus → Bool
is_active_principal active = true
is_active_principal _ = false

-- `IntegrationPrincipal`
pub record Principal : Type 0 where
  pub pk : ℕ
  pub company_id : ℕ
  pub environment : String
  pub keycloak_client_id : String
  pub status : PrincipalStatus

pub data GrantStatus : Type 0 where
  enabled disabled : GrantStatus

abbrev pub is_enabled : GrantStatus → Bool
is_enabled enabled = true
is_enabled disabled = false

-- `IntegrationGrant`; `enabled` is the status `active`.
pub record Grant : Type 0 where
  pub pk : ℕ
  pub principal_id : ℕ
  pub contract_id : ℕ
  pub action : String
  pub data_category : Option String
  pub valid_from : Option ℕ
  pub valid_to : Option ℕ
  pub status : GrantStatus
  pub created_by_id : Option ℕ

pub record Tables : Type 0 where
  pub principals : List Principal
  pub contracts : List Contract
  pub grants : List Grant

abbrev pub begun : Option ℕ → ℕ → Bool
begun none at = true
begun (some d) at = leb d at

-- The window of validity. (`not_ended` is `valid_to is null or valid_to >= at`.)
abbrev pub in_window : ℕ → Grant → Bool
in_window at g = begun g.valid_from at && not_ended g.valid_to at

unfoldable pub active_grants_filter : ℕ → Grant → Bool
active_grants_filter at g = is_enabled g.status && in_window at g

abbrev pub grant_of : Principal → Contract → String → Grant → Bool
grant_of principal contract action g =
    g.contract_id == contract.pk && (g.principal_id == principal.pk && str_eq g.action action)

-- `accessible_contracts_for_principal`. Every `.filter` on `integration_grants__…` is a join of its
-- own: the grant that is active need not be the grant of the principal and the action.
unfoldable pub is_accessible : Tables → (ℕ → ℕ) → Principal → String → ℕ → Contract → Bool
unfolding active_grants_filter
is_accessible tables date_of principal action at c =
    is_active_status c.status
    && (leb c.start_date (date_of at)
        && (c.contractor_company_id == principal.company_id
            && (exists_row (grant_of principal c action) tables.grants
                && (not_ended c.end_date (date_of at)
                    && exists_row (λ g. g.contract_id == c.pk && active_grants_filter at g)
                        tables.grants))))

unfoldable pub accessible_contracts_for_principal :
    Tables → (ℕ → ℕ) → Principal → String → ℕ → List Contract
accessible_contracts_for_principal tables date_of principal action at =
    select (is_accessible tables date_of principal action at) tables.contracts

pub data Reason : Type 0 where
  principal_not_found principal_suspended principal_revoked : Reason
  contract_not_found principal_company_mismatch contract_inactive unsupported_action : Reason
  grant_active grant_not_in_validity_window grant_missing : Reason

pub record IntegrationGrantDecision : Type 0 where
  pub allowed : Bool
  pub reason : Reason
  pub principal : Option Principal
  pub grant : Option Grant

abbrev pub refused : Reason → Option Principal → IntegrationGrantDecision
refused reason principal = record {
  allowed = false;
  reason = reason;
  principal = principal;
  grant = none;
}

-- `(environment or "prod").strip().lower()`
unfoldable pub environment_of : String → String
environment_of s = lower (strip (if is_empty s then "prod" else s))

abbrev pub is_principal : String → String → Principal → Bool
is_principal client_id environment p =
    str_eq p.keycloak_client_id client_id && str_eq p.environment (environment_of environment)

abbrev pub status_reason : PrincipalStatus → Option Reason
status_reason active = none
status_reason suspended = some principal_suspended
status_reason revoked = some principal_revoked

-- The refusals that depend on the contract and the action.
unfoldable pub contract_reason : ℕ → String → Principal → Contract → Option Reason
contract_reason today action principal c =
    if not (c.contractor_company_id == principal.company_id)
    then some principal_company_mismatch
    else if not (is_active_today c today)
    then some contract_inactive
    else if not (str_eq action "ingest:write")
    then some unsupported_action
    else none

-- `Q(data_category__isnull=True)`, and the category if one is given
unfoldable pub fits_category : String → Option String → Bool
fits_category data_category none = true
fits_category data_category (some c) =
    let category = lower (strip data_category) in not (is_empty category) && str_eq c category

-- The rows of `qs`.
unfoldable pub usable : Principal → Contract → String → String → Grant → Bool
usable principal contract action data_category g =
    grant_of principal contract action g
    && (is_enabled g.status && fits_category data_category g.data_category)

-- `order_by("-data_category", "id")`, where PostgreSQL puts missing categories first
unfoldable pub grant_before : Grant → Grant → Bool
grant_before x y = elim x.data_category [
  | none ↦ elim y.data_category [ none ↦ ltb x.pk y.pk | some b ↦ true ]
  | some a ↦ elim y.data_category [
    | none ↦ false
    | some b ↦ if text_lt b a then true else if text_lt a b then false else ltb x.pk y.pk
  ]
]

abbrev pub is_none_left : {A : Type 0} → List A → Bool
is_none_left [] = true
is_none_left (x ∷ xs) = false

unfoldable pub grant_decision : ℕ → Principal → List Grant → IntegrationGrantDecision
unfolding grant_before
grant_decision at principal qs = elim (first_by grant_before (select (in_window at) qs)) [
  | some g ↦ record {
    allowed = true;
    reason = grant_active;
    principal = some principal;
    grant = some g;
  }
  | none ↦
      refused (if is_none_left qs then grant_missing else grant_not_in_validity_window)
        (some principal)
]

-- The part of the decision that follows when the principal is active.
unfoldable pub contract_decision :
    Tables → ℕ → ℕ → String → String → String → Principal → IntegrationGrantDecision
unfolding contract_reason usable grant_decision
contract_decision tables today at contract_code data_category action p =
    elim (find (λ c. str_eq c.contract_code contract_code) tables.contracts) [
      | none ↦ refused contract_not_found (some p)
      | some c ↦ elim (contract_reason today action p c) [
        | some reason ↦ refused reason (some p)
        | none ↦ grant_decision at p (select (usable p c action data_category) tables.grants)
      ]
    ]

-- `today` is `date.today()`, `at` the instant that is checked.
unfoldable pub can_client_ingest_for_contract :
    Tables → ℕ → ℕ → String → String → String → String → String → IntegrationGrantDecision
unfolding contract_decision environment_of
can_client_ingest_for_contract tables today at client_id contract_code data_category environment
      action =
    elim (find (is_principal client_id environment) tables.principals) [
      | none ↦ refused principal_not_found none
      | some p ↦ elim (status_reason p.status) [
        | some reason ↦ refused reason (some p)
        | none ↦ contract_decision tables today at contract_code data_category action p
      ]
    ]
