-- ===== src/Models/Contracts.antt =====
-- `Contract`, `Agency` and `Lot` of exchange_agreement/models.py. Dates are ordinals.
use rpsd_config.Common.{ℕ, String, Bool, true, false, ◌&&◌, Option, none, some, leb}

pub data ContractStatus : Type 0 where
  draft active closed : ContractStatus

abbrev pub is_active_status : ContractStatus → Bool
is_active_status active = true
is_active_status _ = false

abbrev pub is_closed_status : ContractStatus → Bool
is_closed_status closed = true
is_closed_status _ = false

abbrev pub is_draft_contract : ContractStatus → Bool
is_draft_contract draft = true
is_draft_contract _ = false

pub record Agency : Type 0 where
  pub pk : ℕ
  pub agency_key : String

pub record Lot : Type 0 where
  pub pk : ℕ
  pub agency_id : Option ℕ

pub data ContractType : Type 0 where
  start renewal : ContractType

pub record Contract : Type 0 where
  pub pk : ℕ
  pub contract_code : String
  pub client_agency : Agency
  pub contractor_company_id : ℕ
  pub governing_authority_id : Option ℕ
  pub start_date : ℕ
  pub end_date : Option ℕ
  pub tender_id : String
  pub contract_type : ContractType
  pub version : ℕ
  pub contract_program_file : String
  pub lot : Lot
  pub status : ContractStatus
  pub closed_at : Option ℕ
  pub closed_reason : String
  pub replaced_by_id : Option ℕ
  pub updated_at : ℕ

-- `end_date is None or end_date >= day`
abbrev pub not_ended : Option ℕ → ℕ → Bool
not_ended none day = true
not_ended (some e) day = leb day e

-- `Contract.is_active_today` on a given day.
unfoldable pub is_active_today : Contract → ℕ → Bool
is_active_today c t = is_active_status c.status && (leb c.start_date t && not_ended c.end_date t)
