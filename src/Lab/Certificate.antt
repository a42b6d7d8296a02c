-- ===== src/Lab/Certificate.antt =====
-- `buildCertificateRows` and `canIssueCertificate` of packages/domain/src/lab.ts. The time that
-- `new Date(t).toISOString()` gives is the parameter `iso`; it is `none` for a text that is no time,
-- where the program throws a RangeError.
pub mod Laws
use newport_ms.Base.{
  ℕ, String, Bool, true, false, not, ◌&&◌, Option, none, some, List, [], ◌∷◌, str_eq, find, is_some,
  ◌==◌, ltb, if◌then◌else◌,
}
use newport_ms.Lab.Numbers.{Numbers}
use newport_ms.Lab.Spec.{SpecBounds, SpecVerdict, evaluate_spec}

-- `a ?? b`
abbrev pub or_else {ℓ} : {A : Type ℓ} → Option A → Option A → Option A
or_else none b = b
or_else (some a) b = some a

pub data CertificateVerdict : Type 0 where
  pass fail : CertificateVerdict

-- `CertificateResultRow['parameter']`
pub record Parameter : Type 0 where
  pub code : String
  pub name_ar : String
  pub unit : Option String

module _ (n : Numbers) (iso : String → Option String) where
  open n use {Number, parse, show}

  -- A value that was measured, or its text.
  pub data ResultValue : Type 0 where
    number : Number → ResultValue
    text : String → ResultValue

  -- `CertificateResultRow`, without the remarks, which nothing reads.
  pub record CertificateResultRow : Type 0 where
    pub value : ResultValue
    pub parameter_id : String
    pub result_unit : Option String
    pub is_out_of_spec : Bool
    pub method : Option String
    pub result_verified_at : Option String
    pub parameter : Parameter

  -- `CertificateSpecRow`
  pub record CertificateSpecRow : Type 0 where
    pub spec_parameter_id : String
    pub spec_bounds : SpecBounds n

  -- `CertificateRow`
  pub record CertificateRow : Type 0 where
    pub parameter_code : String
    pub row_name_ar : String
    pub row_unit : Option String
    pub row_value : String
    pub row_min : Option Number
    pub row_max : Option Number
    pub verdict : CertificateVerdict
    pub row_method : Option String
    pub verified_at : Option String

  abbrev pub numeric : ResultValue → Number
  numeric (number x) = x
  numeric (text s) = parse s

  abbrev pub shown_value : ResultValue → String
  shown_value (number x) = show x
  shown_value (text s) = s

  -- `r.verifiedAt ? new Date(r.verifiedAt).toISOString() : null`; the outer `none` is the exception.
  abbrev pub verified_time : Option String → Option (Option String)
  verified_time none = some none
  verified_time (some t) = if str_eq t "" then some none else time_or_throw (iso t)
    where
      time_or_throw : Option String → Option (Option String)
      time_or_throw none = none
      time_or_throw (some t) = some (some t)

  abbrev pub bounds_of : Option CertificateSpecRow → Option (SpecBounds n)
  bounds_of none = none
  bounds_of (some s) = some s.spec_bounds

  abbrev pub min_of : Option (SpecBounds n) → Option Number
  min_of none = none
  min_of (some b) = b.min_val

  abbrev pub max_of : Option (SpecBounds n) → Option Number
  max_of none = none
  max_of (some b) = b.max_val

  module _ (specs : List CertificateSpecRow) where
    -- The specification that holds for a result.
    abbrev pub bounds_for : CertificateResultRow → Option (SpecBounds n)
    bounds_for r = bounds_of (find (λ s. str_eq s.spec_parameter_id r.parameter_id) specs)

    -- The row that is pushed for a result.
    abbrev pub certificate_row : CertificateResultRow → Option String → CertificateRow
    certificate_row r verified_at = record {
      parameter_code = r.parameter.code;
      row_name_ar = r.parameter.name_ar;
      row_unit = or_else r.result_unit r.parameter.unit;
      row_value = shown_value r.value;
      row_min = min_of (bounds_for r);
      row_max = max_of (bounds_for r);
      verdict =
          if (evaluate_spec n (numeric r.value) (bounds_for r)).in_spec && not r.is_out_of_spec
          then pass
          else fail;
      row_method = r.method;
      verified_at = verified_at;
    }

    abbrev pub push_row :
        Bool
        → CertificateResultRow
        → Option (Option String)
        → Option (List CertificateRow)
        → Option (List CertificateRow)
    push_row include_unverified r none rows = none
    push_row include_unverified r (some t) none = none
    push_row include_unverified r (some t) (some rows) =
        if not include_unverified && not (is_some t)
        then some rows
        else some (certificate_row r t ∷ rows)

    -- `buildCertificateRows(results, specs, { includeUnverified })`
    unfoldable pub build_certificate_rows :
        Bool → List CertificateResultRow → Option (List CertificateRow)
    build_certificate_rows include_unverified [] = some []
    build_certificate_rows include_unverified (r ∷ results) =
        push_row include_unverified r (verified_time r.result_verified_at)
          (build_certificate_rows include_unverified results)

pub data Refusal : Type 0 where
  not_verified no_results open_cases : Refusal

-- `canIssueCertificate({ sampleStatus, verifiedCount, openOosCount })`; `none` is `ok`.
unfoldable pub can_issue_certificate :
    (sample_status : String) (verified_count open_oos_count : ℕ) → Option Refusal
can_issue_certificate sample_status verified_count open_oos_count =
    if not (str_eq sample_status "VERIFIED")
    then some not_verified
    else if verified_count == 0
    then some no_results
    else if ltb 0 open_oos_count
    then some open_cases
    else none
