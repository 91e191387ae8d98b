-- ===== src/Contracts.antt =====
-- `Contract.save` of exchange_agreement/models.py with what it calls: the version of a new contract,
-- the fields that may not change, and `clean`. The argument `six_years_after` is
-- `_add_years_safe(…, 6)` on ordinals. What Django checks of single fields is not modelled.
pub mod Checks
pub mod Schedule
pub mod Closed
use rpsd_config.Common.Results.{◌>>=◌, ◌>>◌}
use rpsd_config.Common.{
  ℕ, ◌+◌, String, Bool, true, false, not, ◌&&◌, ◌||◌, Option, none, some, List, [], ◌∷◌, ◌++◌,
  Result, ok, err, or_raise, raise_if, Action, select, exists_row, find, update_rows, first_by, ltb,
  leb, ◌==◌, str_eq, if◌then◌else◌, issue_if, is_nil,
}
use rpsd_config.Texts.{is_empty}
use rpsd_config.Models.Contracts.{
  Contract, ContractStatus, is_closed_status, ContractType, start, renewal, not_ended,
}
use rpsd_config.Models.Contracts

-- The messages of `errors`, at most one for each field.
pub data ContractIssue : Type 0 where
  end_before_start closed_at_required closed_reason_required : ContractIssue
  closed_at_not_allowed closed_reason_not_allowed replacement_not_allowed : ContractIssue
  replaces_itself lot_of_another_agency lot_overlap : ContractIssue

pub data ContractError : Type 0 where
  invalid : List ContractIssue → ContractError
  contract_missing version_edited contract_type_edited closed_immutable : ContractError
  code_taken version_taken : ContractError

abbrev pub same_id : Option ℕ → Option ℕ → Bool
same_id none none = true
same_id none (some b) = false
same_id (some a) none = false
same_id (some a) (some b) = a == b

abbrev pub is_some : Option ℕ → Bool
is_some none = false
is_some (some a) = true

abbrev pub same_status : ContractStatus → ContractStatus → Bool
same_status Contracts.draft Contracts.draft = true
same_status Contracts.active Contracts.active = true
same_status Contracts.closed Contracts.closed = true
same_status _ _ = false

abbrev pub same_type : ContractType → ContractType → Bool
same_type start start = true
same_type renewal renewal = true
same_type _ _ = false

-- The rows of the lot that overlap a period, without the row of the key.
unfoldable pub overlaps : ℕ → ℕ → ℕ → Option ℕ → Contract → Bool
overlaps lot_id start_date end_date own_pk other =
    other.lot.pk == lot_id
    && (leb other.start_date end_date
        && (not_ended other.end_date start_date && not (same_id (some other.pk) own_pk)))

abbrev pub end_of : (ℕ → ℕ) → Contract → ℕ
end_of six_years_after c = elim c.end_date [ none ↦ six_years_after c.start_date | some d ↦ d ]

-- The checks that depend on whether the contract is closed.
unfoldable pub closing_issues : Contract → List ContractIssue → List ContractIssue
closing_issues c rest =
    if is_closed_status c.status
    then issue_if (not (is_some c.closed_at)) closed_at_required
        (issue_if (is_empty c.closed_reason) closed_reason_required rest)
    else issue_if (is_some c.closed_at) closed_at_not_allowed (
        issue_if (not (is_empty c.closed_reason)) closed_reason_not_allowed
          (issue_if (is_some c.replaced_by_id) replacement_not_allowed rest))

abbrev pub other_agency : Option ℕ → ℕ → Bool
other_agency none client_agency_id = false
other_agency (some agency_id) client_agency_id = not (agency_id == client_agency_id)

-- `clean`; the key is `none` for a contract that is not stored yet.
unfoldable pub clean_issues : (ℕ → ℕ) → List Contract → Option ℕ → Contract → List ContractIssue
clean_issues six_years_after rows own_pk c =
    let end_date = end_of six_years_after c in
    issue_if (ltb end_date c.start_date) end_before_start (
      closing_issues c (
        issue_if (is_some c.replaced_by_id && same_id c.replaced_by_id own_pk) replaces_itself (
          issue_if (other_agency c.lot.agency_id c.client_agency.pk) lot_of_another_agency (
            issue_if (exists_row (overlaps c.lot.pk c.start_date end_date own_pk) rows) lot_overlap
              []))))

-- The fields of `unique_contract_version_per_lot_pair` but the version.
abbrev pub same_pair : Contract → Contract → Bool
same_pair c other =
    other.lot.pk == c.lot.pk
    && (other.client_agency.pk == c.client_agency.pk
        && other.contractor_company_id == c.contractor_company_id)

abbrev pub other_row : Option ℕ → Contract → Bool
other_row own_pk other = not (same_id (some other.pk) own_pk)

-- `full_clean`: `clean`, then the unique fields.
unfoldable pub full_clean :
    (ℕ → ℕ) → List Contract → Option ℕ → Contract → Result ContractError (Unit {0})
full_clean six_years_after rows own_pk c = do
  let issues = clean_issues six_years_after rows own_pk c
  raise_if (not (is_nil issues)) (invalid issues)
  raise_if (exists_row (λ o. other_row own_pk o && str_eq o.contract_code c.contract_code) rows)
      code_taken
  raise_if (exists_row (λ o. other_row own_pk o && (same_pair c o && o.version == c.version)) rows)
      version_taken

abbrev pub with_end_date : (ℕ → ℕ) → Contract → Contract
with_end_date six_years_after c = record c { end_date = some (end_of six_years_after c) }

-- No protected field differs: the parties and the period, and the rest of them.
unfoldable pub same_terms : Contract → Contract → Bool
same_terms c o =
    str_eq c.contract_code o.contract_code
    && (c.client_agency.pk == o.client_agency.pk
        && (c.contractor_company_id == o.contractor_company_id
            && (same_id c.governing_authority_id o.governing_authority_id
                && (c.start_date == o.start_date
                    && (same_id c.end_date o.end_date && str_eq c.tender_id o.tender_id)))))

unfoldable pub same_state : Contract → Contract → Bool
same_state c o =
    same_type c.contract_type o.contract_type
    && (c.version == o.version
        && (str_eq c.contract_program_file o.contract_program_file
            && (c.lot.pk == o.lot.pk
                && (same_status c.status o.status
                    && (same_id c.closed_at o.closed_at
                        && (str_eq c.closed_reason o.closed_reason
                            && same_id c.replaced_by_id o.replaced_by_id))))))

unfoldable pub same_protected : Contract → Contract → Bool
unfolding same_terms same_state
same_protected c o = same_terms c o && same_state c o

-- What the save of a stored contract checks; the result is the instance with its end date.
unfoldable pub check_save : (ℕ → ℕ) → List Contract → Contract → Result ContractError Contract
check_save six_years_after rows c = do
  let filled = with_end_date six_years_after c
  original ← or_raise (find (λ o. o.pk == c.pk) rows) contract_missing
  raise_if (not (filled.version == original.version)) version_edited
  raise_if (not (same_type filled.contract_type original.contract_type)) contract_type_edited
  raise_if (is_closed_status original.status && not (same_protected filled original))
      closed_immutable
  full_clean six_years_after rows (some c.pk) filled
  ok filled

abbrev pub then_save :
    ℕ
    → List Contract
    → Result ContractError Contract
    → Result ContractError Contract × List Contract
then_save now rows (err e) = (err e, rows)
then_save now rows (ok filled) =
    let saved = record filled { updated_at = now } in
    (ok saved, update_rows (λ o. o.pk == filled.pk) (λ _. saved) rows)

unfoldable pub save_contract :
    (ℕ → ℕ) → ℕ → Contract → Action ContractError (List Contract) Contract
save_contract six_years_after now c rows = then_save now rows (check_save six_years_after rows c)

-- `_set_auto_version_and_type_for_new_contract`
unfoldable pub with_version : List Contract → Contract → Contract
with_version rows c = elim (first_by (λ x y. ltb y.version x.version) (select (same_pair c) rows)) [
  | none ↦ record c { version = 0; contract_type = start }
  | some latest ↦ record c { version = latest.version + 1; contract_type = renewal }
]

unfoldable pub check_new : (ℕ → ℕ) → List Contract → Contract → Result ContractError Contract
check_new six_years_after rows c = do
  let filled = with_end_date six_years_after (with_version rows c)
  full_clean six_years_after rows none filled
  ok filled

abbrev pub then_create :
    ℕ
    → List Contract
    → Result ContractError Contract
    → Result ContractError Contract × List Contract
then_create now rows (err e) = (err e, rows)
then_create now rows (ok filled) =
    let saved = record filled { updated_at = now } in (ok saved, rows ++ saved ∷ [])

-- The save of a new contract; `c.pk` is the key that the database gives it.
unfoldable pub create_contract :
    (ℕ → ℕ) → ℕ → Contract → Action ContractError (List Contract) Contract
create_contract six_years_after now c rows = then_create now rows (check_new six_years_after rows c)
