-- ===== src/Lab/Spec.antt =====
-- `evaluateSpec` and `severityForVerdict` of packages/domain/src/lab.ts.
pub mod Laws
use newport_ms.Base.{ℕ, Bool, true, false, not, ◌&&◌, ◌||◌, Option, none, some, if◌then◌else◌}
use newport_ms.Lab.Numbers.{Numbers}

pub data Breach : Type 0 where
  low high : Breach

pub data OosSeverity : Type 0 where
  minor major critical : OosSeverity

module _ (n : Numbers) where
  open n use {Number, less, is_finite, minus, abs, is_zero, percent, at_least}

  -- `SpecBounds`: an absent bound and a null one are both `none`.
  pub record SpecBounds : Type 0 where
    pub min_val : Option Number
    pub max_val : Option Number

  pub record SpecVerdict : Type 0 where
    pub in_spec : Bool
    pub breach : Option Breach
    pub deviation_pct : Option Number
    pub limit : Option Number

  -- A bound that is a finite number.
  abbrev pub finite_bound : Option Number → Option Number
  finite_bound none = none
  finite_bound (some b) = if is_finite b then some b else none

  -- `span`: the width of a closed range, and else the size of the limit.
  abbrev pub span : Number → (max min : Option Number) → Number
  span limit (some max) (some min) = if less min max then minus max min else abs limit
  span limit _ _ = abs limit

  -- `pctDeviation(limit, max, min)`
  unfoldable pub pct_deviation : Number → (max min : Option Number) → Option Number
  pct_deviation limit max min =
      let s = span limit max min in
      if is_zero s || not (is_finite s) then none else some (percent (abs limit) s)

  abbrev pub is_below : Number → Option Number → Bool
  is_below value none = false
  is_below value (some min) = less value min

  abbrev pub is_above : Number → Option Number → Bool
  is_above value none = false
  is_above value (some max) = less max value

  abbrev pub conforming : SpecVerdict
  conforming = record { in_spec = true; breach = none; deviation_pct = none; limit = none }

  abbrev pub deviation : Option Number → (max min : Option Number) → Option Number
  deviation none max min = none
  deviation (some limit) max min = pct_deviation limit max min

  abbrev pub breach_of : Breach → Option Number → (max min : Option Number) → SpecVerdict
  breach_of b limit max min = record {
    in_spec = false;
    breach = some b;
    deviation_pct = deviation limit max min;
    limit = limit;
  }

  abbrev pub judge : Number → (min max : Option Number) → SpecVerdict
  judge value min max =
      if is_below value min
      then breach_of low min max min
      else if is_above value max
      then breach_of high max max min
      else conforming

  -- `evaluateSpec(value, spec)`
  unfoldable pub evaluate_spec : Number → Option SpecBounds → SpecVerdict
  evaluate_spec value none = conforming
  evaluate_spec value (some spec) =
      if is_finite value
      then judge value (finite_bound spec.min_val) (finite_bound spec.max_val)
      else conforming

  abbrev pub by_deviation : Option Number → OosSeverity
  by_deviation none = major
  by_deviation (some d) = if at_least d 25 then critical else if at_least d 5 then major else minor

  -- `severityForVerdict(verdict, { isSafetyCritical })`
  unfoldable pub severity_for_verdict : SpecVerdict → (is_safety_critical : Bool) → OosSeverity
  severity_for_verdict verdict is_safety_critical =
      if is_safety_critical then critical else by_deviation verdict.deviation_pct
