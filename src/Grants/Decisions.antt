-- ===== src/Grants/Decisions.antt =====
-- When a machine client may ingest, and that such contracts are listed as accessible.
use rpsd_config.Common.{
  In-exists_row, ℕ, String, ◌≡◌, ◌↔◌, refl, true, ◌&&◌, none, some, List, [], In, In-select,
  select-In, select, find, find-In, first_by, first_by-In, first_by-eq-none, ◌==◌, str_eq, arith,
  Option-cases, inl, inr,
}
use rpsd_config.Models.{Contract, is_active_today}
use rpsd_config.Grants.{
  Tables, Principal, is_active_principal, Grant, in_window, active_grants_filter, grant_of,
  is_accessible, accessible_contracts_for_principal, is_principal, status_reason, contract_reason,
  usable, grant_before, grant_decision, contract_decision, can_client_ingest_for_contract,
}

-- The principal is active, the contract is effective and of its company, the action is known, and
-- a grant of the principal for the contract, the action and the category is active now.
pub record IsAllowed (tables : Tables) (today at : ℕ) (data_category action : String)
    (p : Principal) (c : Contract) (g : Grant) : Type 0 where
  pub company : c.contractor_company_id ≡ p.company_id
  pub effective : is_active_today c today ≡ true
  pub supported : str_eq action "ingest:write" ≡ true
  pub stored : In g tables.grants
  pub fits : usable p c action data_category g ≡ true
  pub valid : in_window at g ≡ true

contract_reason-eq-none :
    (today : ℕ) (action : String) (p : Principal) (c : Contract)
    → (contract_reason today action p c ≡ none) ↔ (
        (c.contractor_company_id ≡ p.company_id)
        × (is_active_today c today ≡ true)
        × (str_eq action "ingest:write" ≡ true))
unfolding contract_reason
contract_reason-eq-none today action p c = (λ h. ground arith, λ h. ground arith)

-- A grant that the query finds in the window is what allows.
grant_decision-allowed :
    (at : ℕ) (p : Principal) (qs : List Grant)
    → (grant_decision at p qs).allowed ≡ true
    → (g : Grant) × In g qs × (in_window at g ≡ true) × ((grant_decision at p qs).grant ≡ some g)
unfolding grant_decision
grant_decision-allowed at p qs h =
    let rows = select (in_window at) qs in
    elim (Option-cases (first_by grant_before rows)) [
      | inl e ↦ absurd (ground (arith, e))
      | inr (g, e) ↦
          let (m, w) = In-select (in_window at) qs g (first_by-In grant_before rows e) in
          (g, m, w, rw (e, grant_decision) refl)
    ]

allowed-grant_decision :
    (at : ℕ) (p : Principal) (qs : List Grant) (g : Grant)
    → In g qs
    → in_window at g ≡ true
    → (grant_decision at p qs).allowed ≡ true
unfolding grant_decision
allowed-grant_decision at p qs g m w =
    let rows = select (in_window at) qs in
    elim (Option-cases (first_by grant_before rows)) [
      | inl e ↦
          let empty : rows ≡ [] = first_by-eq-none grant_before rows e in
          absurd (rw empty at (select-In (in_window at) qs g m w))
      | inr (x, e) ↦ rw (e, grant_decision) refl
    ]

is_active-status_reason :
    (p : Principal) → (status_reason p.status ≡ none) ↔ (is_active_principal p.status ≡ true)
is_active-status_reason p = (λ h. ground arith, λ h. ground arith)

contract_decision-IsAllowed :
    (tables : Tables) (today at : ℕ) (code data_category action : String) (p : Principal)
    → (contract_decision tables today at code data_category action p).allowed ≡ true
    → (c : Contract) × (g : Grant) × (find (λ o. str_eq o.contract_code code) tables.contracts
        ≡ some c)
      × IsAllowed tables today at data_category action p c g
unfolding contract_decision
contract_decision-IsAllowed tables today at code data_category action p h =
    let hit = λ (o : Contract). str_eq o.contract_code code in
    elim (Option-cases (find hit tables.contracts)) [
      | inl e ↦ absurd (ground (arith, e))
      | inr (c, e) ↦ elim (Option-cases (contract_reason today action p c)) [
        | inr (x, f) ↦ absurd (ground (arith, e, f))
        | inl f ↦
            let qs = select (usable p c action data_category) tables.grants in
            let decided : (grant_decision at p qs).allowed ≡ true = ground (arith, e, f) in
            let (g, m, w, _) = grant_decision-allowed at p qs decided in
            let (stored, fits) = In-select (usable p c action data_category) tables.grants g m in
            let (company, effective, supported) = (contract_reason-eq-none today action p c).0 f in
            (
              c,
              g,
              e,
              record {
                company = company;
                effective = effective;
                supported = supported;
                stored = stored;
                fits = fits;
                valid = w;
              },
            )
      ]
    ]

IsAllowed-contract_decision :
    (tables : Tables) (today at : ℕ) (code data_category action : String) (p : Principal)
    (c : Contract) (g : Grant)
    → find (λ o. str_eq o.contract_code code) tables.contracts ≡ some c
    → IsAllowed tables today at data_category action p c g
    → (contract_decision tables today at code data_category action p).allowed ≡ true
unfolding contract_decision
IsAllowed-contract_decision tables today at code data_category action p c g e h =
    let free : contract_reason today action p c ≡ none =
      (contract_reason-eq-none today action p c).1 (h.company, h.effective, h.supported) in
    let qs = select (usable p c action data_category) tables.grants in
    let m = select-In (usable p c action data_category) tables.grants g h.stored h.fits in
    let decided = allowed-grant_decision at p qs g m h.valid in
    rw (e, contract_decision) (rw free decided)

-- A client may ingest exactly when its principal is active, the contract is effective today and of
-- the principal's company, the action is known, and a grant of the principal for the contract, the
-- action and the category is active.
pub can_client_lem :
    (tables : Tables) (today at : ℕ) (client_id code data_category environment action : String)
    → ((can_client_ingest_for_contract tables today at client_id code data_category environment
          action).allowed
        ≡ true)
      ↔ ((p : Principal) × (c : Contract) × (g : Grant) × (find
              (is_principal client_id environment)
              tables.principals
            ≡ some p)
          × (is_active_principal p.status ≡ true)
          × (find (λ o. str_eq o.contract_code code) tables.contracts ≡ some c)
          × IsAllowed tables today at data_category action p c g)
unfolding can_client_ingest_for_contract
can_client_lem tables today at client_id code data_category environment action = (
  λ h. elim (Option-cases (find (is_principal client_id environment) tables.principals)) [
    | inl e ↦ absurd (ground (arith, e))
    | inr (p, e) ↦ elim (Option-cases (status_reason p.status)) [
      | inr (x, f) ↦ absurd (ground (arith, e, f))
      | inl f ↦
          let decided : (contract_decision tables today at code data_category action p).allowed
              ≡ true =
            ground (arith, e, f) in
          let (c, g, found, facts) =
            contract_decision-IsAllowed tables today at code data_category action p decided in
          (p, c, g, e, (is_active-status_reason p).0 f, found, facts)
    ]
  ],
  λ (p, c, g, e, a, found, facts).
      let f : status_reason p.status ≡ none = (is_active-status_reason p).1 a in
      rw (e, can_client_ingest_for_contract)
        (rw f (
          IsAllowed-contract_decision tables today at code data_category action p c g found facts)),
)

allowed-is_accessible :
    (tables : Tables) (date_of : ℕ → ℕ) (at : ℕ) (data_category action : String) (p : Principal)
    (c : Contract) (g : Grant)
    → IsAllowed tables (date_of at) at data_category action p c g
    → is_accessible tables date_of p action at c ≡ true
unfolding is_accessible usable is_active_today
allowed-is_accessible tables date_of at data_category action p c g h =
    let own : grant_of p c action g ≡ true = ground (arith, h.fits) in
    let granted = In-exists_row (grant_of p c action) tables.grants g h.stored own in
    let active_now =
      In-exists_row (λ (o : Grant). o.contract_id == c.pk && active_grants_filter at o)
        tables.grants g h.stored (ground (arith, h.fits, h.valid)) in
    ground (arith, granted, active_now, h.company, h.effective)

-- A contract that a client may ingest for is listed among the accessible contracts of its
-- principal, if the day of the call is that of the instant that is checked.
pub can_client-accessible :
    (tables : Tables) (date_of : ℕ → ℕ) (at : ℕ)
    (client_id code data_category environment action : String)
    → (can_client_ingest_for_contract tables
        (date_of at)
        at
        client_id
        code
        data_category
        environment
        action).allowed
      ≡ true
    → (p : Principal) × (c : Contract) × (find
          (is_principal client_id environment)
          tables.principals
        ≡ some p)
      × (find (λ o. str_eq o.contract_code code) tables.contracts ≡ some c)
      × In c (accessible_contracts_for_principal tables date_of p action at)
unfolding accessible_contracts_for_principal
can_client-accessible tables date_of at client_id code data_category environment action h =
    let (p, c, g, e, _, found, facts) =
      (can_client_lem tables (date_of at) at client_id code data_category environment action).0 h in
    (
      p,
      c,
      e,
      found,
      select-In (is_accessible tables date_of p action at) tables.contracts c
          (find-In (λ (o : Contract). str_eq o.contract_code code) tables.contracts found).0
          (allowed-is_accessible tables date_of at data_category action p c g facts),
    )
