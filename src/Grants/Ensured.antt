-- ===== src/Grants/Ensured.antt =====
-- What a granted access says, and what the default grant gives.
use rpsd_config.Common.{
  select-append, ℕ, String, ◌≡◌, refl, sym, ◌∙◌, ap, true, Option, none, some, List, [], ◌∷◌, ◌++◌,
  Result, ok, err, select, find, str_eq, arith, Option-cases, inl, inr,
}
use rpsd_config.Models.{Contract}
use rpsd_config.Grants.{
  Tables, Principal, is_active_principal, Grant, is_principal, can_client_ingest_for_contract,
}
use rpsd_config.Grants.Decisions.{IsAllowed, can_client_lem}
use rpsd_config.Grants.Access.{
  require_m2m_contract_access, default_active_principal_for_company, neutral_grant, new_grant,
  GrantError, get_or_create, some_grant, ensure_for, ensure_default_contract_ingest_grant,
}

-- Access that is granted is for the contract of the code, which the decision allows to the stored
-- principal of the client.
pub access-IsAllowed :
    (tables : Tables) (today at : ℕ) (principal : Option Principal)
    (code action data_category : String) (p : Principal) (c : Contract) (grant : Option Grant)
    → require_m2m_contract_access tables today at principal code action data_category
      ≡ ok (p, c, grant)
    → (principal ≡ some p)
      × (find (λ o. str_eq o.contract_code code) tables.contracts ≡ some c)
      × ((q : Principal) × (g : Grant) × (find
              (is_principal p.keycloak_client_id p.environment)
              tables.principals
            ≡ some q)
          × (is_active_principal q.status ≡ true)
          × IsAllowed tables today at data_category action q c g)
unfolding require_m2m_contract_access
access-IsAllowed tables today at none code action data_category p c grant h = absurd (ground arith)
access-IsAllowed tables today at (some r) code action data_category p c grant h =
    let hit = λ (o : Contract). str_eq o.contract_code code in
    let decision =
      can_client_ingest_for_contract tables today at r.keycloak_client_id code data_category
        r.environment action in
    elim (Option-cases (find hit tables.contracts)) [
      | inl e ↦ absurd (ground (arith, e))
      | inr (o, e) ↦
          let same : o ≡ c = ground (arith, e) in
          let caller : r ≡ p = ground (arith, e) in
          let allowed : decision.allowed ≡ true = ground (arith, e) in
          let (q, o', g, found, a, there, facts) =
            (can_client_lem tables today at r.keycloak_client_id code data_category r.environment
                action).0
              allowed in
          let one : some o' ≡ some o = sym there ∙ e in
          let same' : o' ≡ c = ground (arith, one, same) in
          (ap some caller, e ∙ ap some same, rw (← caller) (q, g, found, a, rw (← same') facts))
    ]

new_grant-neutral_grant :
    (pk : ℕ) (actor_id : Option ℕ) (p : Principal) (c : Contract)
    → neutral_grant p c (new_grant pk actor_id p c) ≡ true
unfolding neutral_grant new_grant
new_grant-neutral_grant pk actor_id p c = ground arith

-- What `get_or_create` returns is the only neutral grant afterwards.
get_or_create-alone :
    (p : Principal) (c : Contract) (grants grants' : List Grant) (created g : Grant)
    → neutral_grant p c created ≡ true
    → get_or_create (select (neutral_grant p c) grants) created grants ≡ (ok g, grants')
    → select (neutral_grant p c) grants' ≡ g ∷ []
get_or_create-alone p c grants grants' created g neutral h =
    go (select (neutral_grant p c) grants) refl h
  where
    go :
        (found : List Grant)
        → select (neutral_grant p c) grants ≡ found
        → get_or_create found created grants ≡ (ok g, grants')
        → select (neutral_grant p c) grants' ≡ g ∷ []
    go [] e q =
        let same : created ≡ g = ground arith in
        let left : grants ++ created ∷ [] ≡ grants' = ground arith in
        rw (← left) (
          select-append (neutral_grant p c) grants (created ∷ [])
          ∙ rw e (rw neutral (ap (λ (x : Grant). x ∷ []) same)))
    go (x ∷ []) e q =
        let same : x ≡ g = ground arith in
        let left : grants ≡ grants' = ground arith in
        rw (← left) (e ∙ ap (λ (y : Grant). y ∷ []) same)
    go (x ∷ (y ∷ ys)) e q = absurd (ground arith)

some_grant-eq-ok :
    (r : Result GrantError Grant × List Grant) (grant : Option Grant) (gs : List Grant)
    → some_grant r ≡ (ok grant, gs)
    → (g : Grant) × (grant ≡ some g) × (r ≡ (ok g, gs))
some_grant-eq-ok (ok g, grants) grant gs h = (g, ground arith, ground arith)
some_grant-eq-ok (err e, grants) grant gs h = absurd (ground arith)

ensure_for-idempotent :
    (pk pk' : ℕ) (actor_id actor_id' : Option ℕ) (c : Contract) (grants : List Grant)
    (o : Option Principal) (grant : Option Grant) (grants' : List Grant)
    → ensure_for pk actor_id c grants o ≡ (ok grant, grants')
    → ensure_for pk' actor_id' c grants' o ≡ (ok grant, grants')
ensure_for-idempotent pk pk' actor_id actor_id' c grants none grant grants' h = ground arith
ensure_for-idempotent pk pk' actor_id actor_id' c grants (some p) grant grants' h =
    let (g, e, q) =
      some_grant-eq-ok
        (get_or_create (select (neutral_grant p c) grants) (new_grant pk actor_id p c) grants) grant
        grants' h in
    let alone =
      get_or_create-alone p c grants grants' (new_grant pk actor_id p c) g
        (new_grant-neutral_grant pk actor_id p c) q in
    rw alone (rw e refl)

-- A second call, with whatever key and actor, returns the same grant and changes nothing.
pub ensure-idempotent :
    (tables : Tables) (pk pk' : ℕ) (c : Contract) (actor_id actor_id' : Option ℕ)
    (environment : String) (grant : Option Grant) (grants' : List Grant)
    → ensure_default_contract_ingest_grant tables pk c actor_id environment ≡ (ok grant, grants')
    → ensure_default_contract_ingest_grant
        (record tables { grants = grants' })
        pk'
        c
        actor_id'
        environment
      ≡ (ok grant, grants')
unfolding ensure_default_contract_ingest_grant default_active_principal_for_company
ensure-idempotent tables pk pk' c actor_id actor_id' environment grant grants' h =
    ensure_for-idempotent pk pk' actor_id actor_id' c tables.grants
      (default_active_principal_for_company tables c.contractor_company_id environment) grant
      grants' h
