-- ===== src/Drafts/Rows.antt =====
-- The rows of a draft: `ContractConfigurationRevision`, `ContractInputSelection` and
-- `ContractRevisionIndicator` of exchange_agreement/models.py, with their `clean`. (The length limits of
-- the text columns are left out.)
use Prim.Native.Nat.{◌/◌, ◌%◌}
use Prim.Native.Char.{Char}
use Prim.Native.String
use rpsd_config.Common.Results.{◌>>=◌, ◌>>◌}
use rpsd_config.Common.{
  ℕ, zero, suc, String, Bool, true, not, ◌&&◌, ◌||◌, Option, none, some, List, [], ◌∷◌, Result, ok,
  err, raise_if, exists_row, put_row, ltb, ◌==◌, str_eq, if◌then◌else◌,
}
use rpsd_config.Texts.{strip, is_empty}
use rpsd_config.Json.{Json}
use rpsd_config.Business.{BusinessError, validate_business_configuration}
use rpsd_config.Models.{Contract, Profile, ProfileInput, ProfileIndicator, Configuration, Revision}
use rpsd_config.Revisions.{RevisionError, Issue, validation}
use rpsd_config.Dependencies.Catalogue.{ClosureError}

-- What the services raise besides `RevisionError`: the `ValidationError` of a closure, and that of a row.
pub data DraftError : Type 0 where
  raised : RevisionError → DraftError
  closure_failed : ClosureError → DraftError
  invalid_row only_draft_replaceable not_an_object missing_key unsupported_key : DraftError

abbrev pub revision_or_raise {ℓ} : {A : Type ℓ} → Result RevisionError A → Result DraftError A
revision_or_raise (ok a) = ok a
revision_or_raise (err e) = err (raised e)

abbrev pub closure_or_raise {ℓ} : {A : Type ℓ} → Result ClosureError A → Result DraftError A
closure_or_raise (ok a) = ok a
closure_or_raise (err e) = err (closure_failed e)

abbrev pub issue : Issue → DraftError
issue i = raised (validation (i ∷ []))

-- The decimal digits of a number, on fuel for their count.
abbrev pub digit : ℕ → Char
digit d = String.char_at "0123456789" d

unfoldable pub digits : ℕ → ℕ → String
digits zero n = ""
digits (suc fuel) n =
    let more = digits fuel (n / 10) in
    if ltb n 10 then String.◌∷◌ (digit n) "" else String.◌++◌ more (String.◌∷◌ (digit (n % 10)) "")

-- `f"{n:03d}"`
unfoldable pub three_digits : ℕ → String
unfolding digits
three_digits n =
    String.◌++◌ (if ltb n 10 then "00" else if ltb n 100 then "0" else "") (digits (suc n) n)

-- `code or f"{contract_code}-r{revision_number:03d}"`
unfoldable pub code_or_default : Option String → Contract → ℕ → String
unfolding three_digits
code_or_default (some (String.◌∷◌ c s)) contract number = String.◌∷◌ c s
code_or_default _ contract number =
    String.◌++◌ contract.contract_code (String.◌++◌ "-r" (three_digits number))

unfoldable pub reason_or_default : Option String → Profile → String
reason_or_default (some (String.◌∷◌ c s)) profile = String.◌∷◌ c s
reason_or_default _ profile =
    String.◌++◌ "Draft created from processing profile " (String.◌++◌ profile.code ".")

-- The row of the revision that is replaced, if there is one.
abbrev pub is_stored : Option ℕ → List Revision → Bool
is_stored none rows = true
is_stored (some k) rows = exists_row (λ x. x.pk == k) rows

-- The full clean of a new revision, whose texts are stripped; codes are unique, and so are the
-- numbers of a contract.
unfoldable pub clean_revision : List Revision → Revision → Result DraftError Revision
clean_revision rows r = do
  let code = strip r.code
  let change_reason = strip r.change_reason
  raise_if (is_empty code || is_empty change_reason) invalid_row
  raise_if (exists_row (λ x. str_eq x.code code) rows) invalid_row
  raise_if
      (exists_row (λ x. x.contract_id == r.contract_id && x.revision_number == r.revision_number)
        rows)
      invalid_row
  raise_if (not (is_stored r.replaces_revision_id rows)) invalid_row
  ok (record r { code = code; change_reason = change_reason })

-- The inputs that are selected have to be of the profile of the revision.
unfoldable pub clean_inputs : Profile → List ProfileInput → Result DraftError (Unit {0})
clean_inputs profile inputs =
    raise_if (exists_row (λ i. not (i.processing_profile_version_id == profile.pk)) inputs)
      invalid_row

abbrev pub business_or_raise : Result BusinessError Json → Result DraftError Json
business_or_raise (ok v) = ok v
business_or_raise (err e) = err invalid_row

abbrev pub of_link : ProfileIndicator → Configuration → Bool
of_link link c = c.processing_profile_indicator_version.pk == link.pk

-- Another configuration of the same logical indicator.
abbrev pub of_same_indicator : ProfileIndicator → Configuration → Bool
of_same_indicator link c =
    c.processing_profile_indicator_version.indicator_version.indicator.pk
      == link.indicator_version.indicator.pk
    && not (of_link link c)

-- The four values as the clean of a configuration normalises them.
unfoldable pub normalized : Configuration → Result DraftError Configuration
normalized c = do
  thresholds ← business_or_raise (validate_business_configuration c.thresholds)
  aggregation ← business_or_raise (validate_business_configuration c.aggregation)
  penalties ← business_or_raise (validate_business_configuration c.penalties)
  parameters ← business_or_raise (validate_business_configuration c.parameters)
  ok (record c {
    thresholds = thresholds;
    aggregation = aggregation;
    penalties = penalties;
    parameters = parameters;
  })

-- `config.save()`. A configuration of the link that is there is replaced.
unfoldable pub save_configuration :
    Profile → Configuration → List Configuration → Result DraftError (List Configuration)
unfolding normalized
save_configuration profile c rows = do
  let link = c.processing_profile_indicator_version
  stored ← normalized c
  raise_if (not (link.processing_profile_version_id == profile.pk)) invalid_row
  raise_if (exists_row (of_same_indicator link) rows) invalid_row
  ok (put_row (of_link link) stored rows)
