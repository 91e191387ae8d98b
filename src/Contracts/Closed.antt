-- ===== src/Contracts/Closed.antt =====
-- A closed contract stays as it is.
use rpsd_config.Common.{
  ℕ, String, ◌≡◌, refl, sym, ◌∙◌, ap, true, Option, none, some, List, In, update_rows-In, ◌==◌,
  str_eq, eq_iff, arith, Bool-cases, Result-cases, &&-eq-true, inl, inr,
}
use rpsd_config.Models.Contracts.{Contract, ContractStatus, ContractType, is_closed_status}
use rpsd_config.Contracts.{
  same_id, same_status, same_type, same_terms, same_state, same_protected, check_save,
  save_contract,
}
use rpsd_config.Contracts.Checks.{check_save-IsSave}

-- No field differs that a save protects.
pub record HasSameTerms (x y : Contract) : Type 0 where
  pub code : y.contract_code ≡ x.contract_code
  pub agency : y.client_agency.pk ≡ x.client_agency.pk
  pub company : y.contractor_company_id ≡ x.contractor_company_id
  pub authority : y.governing_authority_id ≡ x.governing_authority_id
  pub starts : y.start_date ≡ x.start_date
  pub ends : y.end_date ≡ x.end_date
  pub tender : y.tender_id ≡ x.tender_id

pub record HasSameState (x y : Contract) : Type 0 where
  pub kind : y.contract_type ≡ x.contract_type
  pub version : y.version ≡ x.version
  pub program : y.contract_program_file ≡ x.contract_program_file
  pub lot : y.lot.pk ≡ x.lot.pk
  pub status : y.status ≡ x.status
  pub closed_at : y.closed_at ≡ x.closed_at
  pub closed_reason : y.closed_reason ≡ x.closed_reason
  pub replaced_by : y.replaced_by_id ≡ x.replaced_by_id

pub record IsUnchanged (x y : Contract) : Type 0 where
  pub pk : y.pk ≡ x.pk
  pub terms : HasSameTerms x y
  pub state : HasSameState x y

same_id-eq : (a b : Option ℕ) → same_id a b ≡ true → a ≡ b
same_id-eq none none h = refl
same_id-eq none (some b) h = cc
same_id-eq (some a) none h = cc
same_id-eq (some a) (some b) h = ap some (ground arith)

same_status-eq : (a b : ContractStatus) → same_status a b ≡ true → a ≡ b
same_status-eq a b h = ground arith

same_type-eq : (a b : ContractType) → same_type a b ≡ true → a ≡ b
same_type-eq a b h = ground arith

str_eq-eq : (a b : String) → str_eq a b ≡ true → a ≡ b
str_eq-eq a b h = (eq_iff a b).0 h

same_terms-HasSameTerms : (x y : Contract) → same_terms y x ≡ true → HasSameTerms x y
unfolding same_terms
same_terms-HasSameTerms x y h = record {
  code = str_eq-eq _ _ (ground arith);
  agency = ground arith;
  company = ground arith;
  authority = same_id-eq _ _ (ground arith);
  starts = ground arith;
  ends = same_id-eq _ _ (ground arith);
  tender = str_eq-eq _ _ (ground arith);
}

same_state-HasSameState : (x y : Contract) → same_state y x ≡ true → HasSameState x y
unfolding same_state
same_state-HasSameState x y h = record {
  kind = same_type-eq _ _ (ground arith);
  version = ground arith;
  program = str_eq-eq _ _ (ground arith);
  lot = ground arith;
  status = same_status-eq _ _ (ground arith);
  closed_at = same_id-eq _ _ (ground arith);
  closed_reason = str_eq-eq _ _ (ground arith);
  replaced_by = same_id-eq _ _ (ground arith);
}

same_protected-IsUnchanged :
    (x y : Contract) → y.pk ≡ x.pk → same_protected y x ≡ true → IsUnchanged x y
unfolding same_protected
same_protected-IsUnchanged x y key h =
    let (terms, state) = (&&-eq-true (same_terms y x) (same_state y x)).0 h in
    record {
      pk = key;
      terms = same_terms-HasSameTerms x y terms;
      state = same_state-HasSameState x y state;
    }

IsUnchanged-refl : (x : Contract) → IsUnchanged x x
IsUnchanged-refl x = record {
  pk = refl;
  terms = record {
    code = refl;
    agency = refl;
    company = refl;
    authority = refl;
    starts = refl;
    ends = refl;
    tender = refl;
  };
  state = record {
    kind = refl;
    version = refl;
    program = refl;
    lot = refl;
    status = refl;
    closed_at = refl;
    closed_reason = refl;
    replaced_by = refl;
  };
}

IsUnchanged-touched :
    (x y : Contract) (now : ℕ) → IsUnchanged x y → IsUnchanged x (record y { updated_at = now })
IsUnchanged-touched x y now h = record {
  pk = h.pk;
  terms = record {
    code = h.terms.code;
    agency = h.terms.agency;
    company = h.terms.company;
    authority = h.terms.authority;
    starts = h.terms.starts;
    ends = h.terms.ends;
    tender = h.terms.tender;
  };
  state = record {
    kind = h.state.kind;
    version = h.state.version;
    program = h.state.program;
    lot = h.state.lot;
    status = h.state.status;
    closed_at = h.state.closed_at;
    closed_reason = h.state.closed_reason;
    replaced_by = h.state.replaced_by;
  };
}

-- Whatever instance is saved, a closed contract that is stored is still there afterwards with every
-- protected field as it was, when primary keys are unique.
pub save_contract-IsUnchanged :
    (six_years_after : ℕ → ℕ) (now : ℕ) (c : Contract) (rows : List Contract) (x : Contract)
    → ((a b : Contract) → In a rows → In b rows → a.pk ≡ b.pk → a ≡ b)
    → In x rows
    → is_closed_status x.status ≡ true
    → (y : Contract) × In y (save_contract six_years_after now c rows).1 × IsUnchanged x y
unfolding save_contract
save_contract-IsUnchanged six_years_after now c rows x unique m closed =
    elim (Result-cases (check_save six_years_after rows c)) [
      | inr (e, q) ↦ rw q (x, m, IsUnchanged-refl x)
      | inl (filled, q) ↦
          let facts = check_save-IsSave six_years_after rows c filled q in
          let saved = record filled { updated_at = now } in
          let key : filled.pk ≡ c.pk = ap (λ (o : Contract). o.pk) facts.is_filled in
          let hit = λ (o : Contract). o.pk == filled.pk in
          let there = update_rows-In hit (λ _. saved) rows x m in
          elim (Bool-cases (hit x)) [
            | inr p ↦ rw q (x, rw p at there, IsUnchanged-refl x)
            | inl p ↦
                let same_key : x.pk ≡ filled.pk = ground arith in
                let same : facts.original ≡ x =
                  unique facts.original x facts.stored m
                    (facts.same_pk ∙ (sym key ∙ sym same_key)) in
                let kept : same_protected filled x ≡ true =
                  rw same at (facts.closed (rw same closed)) in
                rw q (
                  saved,
                  rw p at there,
                  IsUnchanged-touched x filled now
                      (same_protected-IsUnchanged x filled (sym same_key) kept),
                )
          ]
    ]
