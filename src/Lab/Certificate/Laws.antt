-- ===== src/Lab/Certificate/Laws.antt =====
-- What a certificate shows, and when one is issued.
use newport_ms.Base.{ap}
use newport_ms.Base.{Bool-cases}
use newport_ms.Base.{inr}
use newport_ms.Base.{inl}
use newport_ms.Base.{◌++◌}
use newport_ms.Base.{find}
use newport_ms.Base.{◌⊎◌}
use newport_ms.Base.{str_eq}
use newport_ms.Lab.Certificate.{bounds_of}
use newport_ms.Base.{
  All, ℕ, ◌≡◌, ◌<◌, refl, String, Bool, true, false, not, ◌&&◌, ◌||◌, Option, none, some, List, [],
  ◌∷◌, arith, is_some, eq_iff, if◌then◌else◌, ◌↔◌,
}
use newport_ms.Lab.Numbers.{Numbers}
use newport_ms.Lab.Spec.{SpecBounds, evaluate_spec, finite_bound, is_below, is_above}
use newport_ms.Lab.Certificate.{
  pass, fail, CertificateResultRow, CertificateSpecRow, CertificateRow, numeric, shown_value,
  verified_time, bounds_for, min_of, max_of, certificate_row, push_row, build_certificate_rows,
  can_issue_certificate,
}

module _ (n : Numbers) (iso : String → Option String) where
  open n use {Number, less, is_finite}

  -- The value breaks no bound: it is no finite number, or every finite bound is kept.
  abbrev pub within : Number → (min max : Option Number) → Bool
  within x min max =
      not (is_finite x)
      || not (is_below n x (finite_bound n min) || is_above n x (finite_bound n max))

  in_spec-within :
      (x : Number) (b : Option (SpecBounds n))
      → (evaluate_spec n x b).in_spec ≡ within x (min_of n iso b) (max_of n iso b)
  unfolding evaluate_spec
  in_spec-within x none = ground arith
  in_spec-within x (some b) = ground arith

  -- A search finds nothing, or the first specification of the parameter.
  find-first :
      (id : String) (ss : List (CertificateSpecRow n iso))
      → (All (λ s. str_eq s.spec_parameter_id id ≡ false) ss
          × (find (λ s. str_eq s.spec_parameter_id id) ss ≡ none))
        ⊎ ((before after : List (CertificateSpecRow n iso)) × (s : CertificateSpecRow n iso) × (ss
              ≡ before ++ s ∷ after)
            × All (λ s. str_eq s.spec_parameter_id id ≡ false) before
            × (s.spec_parameter_id ≡ id)
            × (find (λ s. str_eq s.spec_parameter_id id) ss ≡ some s))
  find-first id [] = inl (tt, refl)
  find-first id (s ∷ ss) = elim (Bool-cases (str_eq s.spec_parameter_id id)) [
    | inl t ↦ inr ([], ss, s, refl, tt, (eq_iff s.spec_parameter_id id).0 t, simp (t))
    | inr t ↦ elim (find-first id ss) [
      | inl (a, e) ↦ inl ((t, a), ground (arith, t, e))
      | inr (before, after, x, e, a, f, g) ↦
          inr (s ∷ before, after, x, ap (◌∷◌ s) e, (t, a), f, ground (arith, t, g))
    ]
  ]

  module _ (specs : List (CertificateSpecRow n iso)) where
    -- The bounds that hold for a parameter: those of its first specification, or none if it has none.
    abbrev pub HasBounds : String → (min max : Option Number) → Type 0
    HasBounds id min max =
        (All (λ s. str_eq s.spec_parameter_id id ≡ false) specs × (min ≡ none) × (max ≡ none))
        ⊎ ((before after : List (CertificateSpecRow n iso)) × (s : CertificateSpecRow n iso)
            × (specs ≡ before ++ s ∷ after)
            × All (λ s. str_eq s.spec_parameter_id id ≡ false) before
            × (s.spec_parameter_id ≡ id)
            × (min ≡ s.spec_bounds.min_val)
            × (max ≡ s.spec_bounds.max_val))

    -- The row of a result: its value as it was given, the time it was verified at, the bounds of its
    -- parameter, and PASS exactly if it breaks none of them and was not marked out of specification.
    pub record RowOf (r : CertificateResultRow n iso) (row : CertificateRow n iso) : Type 0 where
      pub of_parameter : row.parameter_code ≡ r.parameter.code
      pub of_value : row.row_value ≡ shown_value n iso r.value
      pub of_time : verified_time n iso r.result_verified_at ≡ some row.verified_at
      pub is_verified : is_some row.verified_at ≡ true
      pub of_bounds : HasBounds r.parameter_id row.row_min row.row_max
      pub of_verdict : row.verdict ≡ (
          if within (numeric n iso r.value) row.row_min row.row_max && not r.is_out_of_spec
          then pass
          else fail)

    -- The rows, one for each result that was verified, in their order.
    pub data RowsOf : List (CertificateResultRow n iso) → List (CertificateRow n iso) → Type 0 where
      no_rows : RowsOf [] []
      skipped :
          {r : CertificateResultRow n iso} {rs : List (CertificateResultRow n iso)}
          {rows : List (CertificateRow n iso)}
          → verified_time n iso r.result_verified_at ≡ some none
          → RowsOf rs rows
          → RowsOf (r ∷ rs) rows
      shown :
          {r : CertificateResultRow n iso} {rs : List (CertificateResultRow n iso)}
          {row : CertificateRow n iso} {rows : List (CertificateRow n iso)}
          → RowOf r row
          → RowsOf rs rows
          → RowsOf (r ∷ rs) (row ∷ rows)

    found-HasBounds :
        (id : String)
        → HasBounds id
            (min_of n iso (bounds_of n iso (find (λ s. str_eq s.spec_parameter_id id) specs)))
            (max_of n iso (bounds_of n iso (find (λ s. str_eq s.spec_parameter_id id) specs)))
    found-HasBounds id = elim (find-first id specs) [
      | inl (a, e) ↦ inl (a, rw e refl, rw e refl)
      | inr (before, after, s, e, a, f, g) ↦ inr (before, after, s, e, a, f, rw g refl, rw g refl)
    ]

    -- What `row` the certificate has for a verified result.
    certificate_row-RowOf :
        (r : CertificateResultRow n iso) (t : String)
        → verified_time n iso r.result_verified_at ≡ some (some t)
        → RowOf r (certificate_row n iso specs r (some t))
    certificate_row-RowOf r t e = record {
      of_parameter = refl;
      of_value = refl;
      of_time = e;
      is_verified = refl;
      of_bounds = found-HasBounds r.parameter_id;
      of_verdict = rw (in_spec-within (numeric n iso r.value) (bounds_for n iso specs r)) refl;
    }

    -- The result was verified at no time, or at one that can be told.
    abbrev pub has_time : CertificateResultRow n iso → Bool
    has_time r = is_some (verified_time n iso r.result_verified_at)

    build-RowsOf :
        (r : CertificateResultRow n iso) (results : List (CertificateResultRow n iso))
        (t : Option (Option String)) (rows : List (CertificateRow n iso))
        → verified_time n iso r.result_verified_at ≡ t
        → is_some t ≡ true
        → RowsOf results rows
        → (all_rows : List (CertificateRow n iso)) × (push_row n iso specs false r t (some rows)
            ≡ some all_rows)
          × RowsOf (r ∷ results) all_rows
    build-RowsOf r results none rows h k s = absurd cc
    build-RowsOf r results (some none) rows h k s = (rows, refl, skipped h s)
    build-RowsOf r results (some (some t)) rows h k s =
        (certificate_row n iso specs r (some t) ∷ rows, refl, shown (certificate_row-RowOf r t h) s)

    -- If no result was verified at a time that cannot be told, a certificate is built. It has a row for
    -- each verified result and for no other, in their order. A row shows the bounds of the parameter's
    -- first specification, or none if it has none; and its verdict is FAIL exactly if the value is a
    -- finite number that breaks one of them which is finite, or was marked out of specification (so
    -- that a text that is no number passes).
    pub build_certificate_rows_lem :
        (results : List (CertificateResultRow n iso))
        → All (λ r. has_time r ≡ true) results
        → (rows : List (CertificateRow n iso)) × (build_certificate_rows n iso specs false results
            ≡ some rows)
          × RowsOf results rows
    unfolding build_certificate_rows
    build_certificate_rows_lem [] h = ([], refl, no_rows)
    build_certificate_rows_lem (r ∷ results) h =
        let (rows, built, s) = build_certificate_rows_lem results h.1 in
        rw built (build-RowsOf r results (verified_time n iso r.result_verified_at) rows refl h.0 s)

-- A certificate is issued exactly for a verified sample with a verified result and no open case.
can_issue_certificate_iff :
    (sample_status : String) (verified_count open_oos_count : ℕ)
    → can_issue_certificate sample_status verified_count open_oos_count ≡ none
      ↔ ((sample_status ≡ "VERIFIED") × (0 < verified_count) × (open_oos_count ≡ 0))
unfolding can_issue_certificate
can_issue_certificate_iff s v o = ground (arith, eq_iff s "VERIFIED")
