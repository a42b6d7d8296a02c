-- ===== src/Lab/Spec/Laws.antt =====
-- When a value is within its specification, and what the deviation measures.
use newport_ms.Base.{◌≡◌, refl, Bool, true, not, ◌||◌, none, some, arith, if◌then◌else◌}
use newport_ms.Lab.Numbers.{Numbers}
use newport_ms.Lab.Spec.{
  low, high, SpecBounds, finite_bound, is_below, is_above, evaluate_spec, severity_for_verdict,
}

module _ (n : Numbers) where
  open n use {Number, less, is_finite}

  -- A finite value is out of specification exactly when it lies below the lower bound or above the
  -- upper one, where that bound is there and finite; a breach is then named, LOW before HIGH, and
  -- with it the bound that was broken. A verdict within specification names neither.
  evaluate_spec_lem :
      (value : Number) (spec : SpecBounds n)
      → is_finite value ≡ true
      → let min = finite_bound n spec.min_val in
        let max = finite_bound n spec.max_val in
        let verdict = evaluate_spec n value (some spec) in
        (verdict.in_spec ≡ not (is_below n value min || is_above n value max))
        × (verdict.breach ≡ (
            if is_below n value min
            then some low
            else if is_above n value max
            then some high
            else none))
        × (verdict.limit
            ≡ (if is_below n value min then min else if is_above n value max then max else none))
  unfolding evaluate_spec
  evaluate_spec_lem value spec f = ground arith

  -- The deviation does not depend on the value: any two finite values below the lower bound have
  -- one verdict, and so one severity, however far out they lie.
  deviation_ignores_value :
      (x y : Number) (spec : SpecBounds n) (is_safety_critical : Bool)
      → is_finite x ≡ true
      → is_finite y ≡ true
      → is_below n x (finite_bound n spec.min_val) ≡ true
      → is_below n y (finite_bound n spec.min_val) ≡ true
      → (evaluate_spec n x (some spec) ≡ evaluate_spec n y (some spec))
        × (severity_for_verdict n (evaluate_spec n x (some spec)) is_safety_critical
            ≡ severity_for_verdict n (evaluate_spec n y (some spec)) is_safety_critical)
  unfolding evaluate_spec
  deviation_ignores_value x y spec c fx fy bx by =
      (rw (fx, fy, bx, by) refl, rw (fx, fy, bx, by) refl)
