-- ===== src/Attendance/Day.antt =====
-- `evaluateDay` of packages/domain/src/attendance.ts. Minutes are rounded as `Math.round` does, and a
-- negative number of them counts as 0, as each use of one makes it; the shifts end after they begin.
use Prim.Native.String.{◌++◌ as str_append}
use newport_ms.Base.{
  ◌*◌, ◌/◌, ℕ, ◌+◌, ◌-◌, min, String, Bool, true, false, not, ◌&&◌, ◌||◌, Option, none, some, List,
  [], ◌∷◌, ◌++◌, map, str_eq, any, keep, length, if◌then◌else◌, ltb, leb, last?, head?,
}
use newport_ms.Base.Maps.{lookup}
use newport_ms.Attendance.{
  present, early_out, late_in, missing_out, missing_in, mobile, ms_per_hour, shift_window,
  ShiftWindowDef, Window, absent, manual, ms_per_minute, punch_in, punch_out, AttendanceStatus,
  Calendar, PunchType, RawPunch, Source, break_out, break_in, device,
}
use newport_ms.Json.Show.{decimal}

-- `input.overrides`; each is a status, an instant or minutes that somebody entered.
pub record Overrides : Type 0 where
  pub expected_absence : Option AttendanceStatus
  pub approved_overtime : ℕ
  pub manual_in : Option String
  pub manual_out : Option String

-- `PunchEvaluation`
pub record PunchEvaluation : Type 0 where
  pub evaluated_shift : String
  pub evaluated_date : String
  pub first_in : Option String
  pub last_out : Option String
  pub worked_minutes : ℕ
  pub scheduled_minutes : ℕ
  pub late_minutes : ℕ
  pub early_out_minutes : ℕ
  pub overtime_minutes : ℕ
  pub night_diff : ℕ
  pub friday_multiplier : ℕ
  pub status : AttendanceStatus
  pub punch_count : ℕ
  pub exceptions : List String
  pub out_of_window : List String

-- `Math.max(0, Math.round((a - b) / 60_000))`
abbrev pub minutes_between : ℕ → ℕ → ℕ
minutes_between a b = (a + 30000 - b) / ms_per_minute

-- The minutes past the grace, or 0.
abbrev pub past_grace : ℕ → ℕ → ℕ
past_grace grace diff = if ltb grace diff then diff else 0

abbrev pub is_type : PunchType → PunchType → Bool
is_type punch_in punch_in = true
is_type punch_out punch_out = true
is_type break_out break_out = true
is_type break_in break_in = true
is_type _ _ = false

abbrev is_source : Source → Source → Bool
is_source device device = true
is_source mobile mobile = true
is_source manual manual = true
is_source _ _ = false

abbrev or_else : Option String → Option String → Option String
or_else none b = b
or_else (some a) b = some a

abbrev time_of : Option RawPunch → Option String
time_of none = none
time_of (some p) = some p.punched_at

-- A text that counts as given: `firstIn && ...` takes the empty one for none.
abbrev pub given : Option String → Option String
given none = none
given (some s) = if str_eq s "" then none else some s

-- The order of the tests on the status.
unfoldable pub status_of :
    Option AttendanceStatus
    → Option String
    → Option String
    → (late early threshold : ℕ) → AttendanceStatus
status_of (some s) first last late early threshold = s
status_of none none none late early threshold = absent
status_of none none (some o) late early threshold = missing_in
status_of none (some i) none late early threshold = missing_out
status_of none (some i) (some o) late early threshold =
    if ltb threshold late then late_in else if ltb threshold early then early_out else present

module _ (cal : Calendar) (now : ℕ) where
  abbrev pub at : RawPunch → ℕ
  at p = cal.parse p.punched_at

  -- The stable sort by time.
  unfoldable pub insert : RawPunch → List RawPunch → List RawPunch
  insert p [] = p ∷ []
  insert p (q ∷ qs) = if ltb (at q) (at p) then q ∷ insert p qs else p ∷ q ∷ qs

  unfoldable pub sort_punches : List RawPunch → List RawPunch
  sort_punches [] = []
  sort_punches (p ∷ ps) = insert p (sort_punches ps)

  abbrev within : ℕ → Window → RawPunch → Bool
  within margin w p = leb w.from_ms (at p + margin) && leb (at p) (w.to_ms + margin)

  -- The punches within six hours of the window, in their order.
  abbrev pub linked_of : Window → List RawPunch → List RawPunch
  linked_of w ps = keep (within (6 * ms_per_hour) w) (sort_punches ps)

  abbrev pub outside_of : Window → List RawPunch → List RawPunch
  outside_of w ps = keep (λ p. not (within (15 * ms_per_minute) w p)) (linked_of w ps)

  abbrev pub first_in_of : Overrides → List RawPunch → Option String
  first_in_of o linked =
      or_else o.manual_in (time_of (head? (keep (λ p. is_type p.punch_type punch_in) linked)))

  abbrev pub last_out_of : Overrides → List RawPunch → Option String
  last_out_of o linked =
      or_else o.manual_out (time_of (last? (keep (λ p. is_type p.punch_type punch_out) linked)))

  -- `workedMinutes`: to the present or to the end of the shift while there is no way out.
  unfoldable pub worked : Window → Option String → Option String → ℕ
  worked w (some i) (some o) = minutes_between (cal.parse o) (cal.parse i)
  worked w (some i) none = minutes_between (min now w.to_ms) (cal.parse i)
  worked w none last = 0

  unfoldable pub late : Window → ℕ → Option String → ℕ
  late w grace none = 0
  late w grace (some i) = past_grace grace (minutes_between (cal.parse i) w.from_ms)

  unfoldable pub early : Window → ℕ → Option String → ℕ
  early w grace none = 0
  early w grace (some o) = past_grace grace (minutes_between w.to_ms (cal.parse o))

  -- What was worked beyond the shift, if it is enough to count, and what was approved.
  unfoldable pub overtime : ℕ → ℕ → ℕ → ℕ → ℕ
  overtime ot_min_hours approved worked scheduled =
      (if leb (ot_min_hours * 60 + scheduled) worked then worked - scheduled else 0) + approved

  abbrev noted : Bool → String → List String
  noted b e = if b then e ∷ [] else []

  unfoldable pub exceptions_of : List RawPunch → List RawPunch → List String
  exceptions_of linked outside =
      noted (ltb 0 (length outside))
        (str_append "OUT_OF_WINDOW_PUNCHES:" (decimal (length outside)))
      ++ (noted (ltb 8 (length linked)) "TOO_MANY_PUNCHES"
          ++ (noted (any (λ p. is_source p.source manual) linked) "CONTAINS_MANUAL_PUNCH"
              ++ noted (any (λ p. is_source p.source mobile) linked) "CONTAINS_MOBILE_PUNCH"))

  abbrev undefined_shift : String → String → PunchEvaluation
  undefined_shift code date = record {
    evaluated_shift = code;
    evaluated_date = date;
    first_in = none;
    last_out = none;
    worked_minutes = 0;
    scheduled_minutes = 0;
    late_minutes = 0;
    early_out_minutes = 0;
    overtime_minutes = 0;
    night_diff = 0;
    friday_multiplier = 1;
    status = absent;
    punch_count = 0;
    exceptions = "SHIFT_NOT_DEFINED" ∷ [];
    out_of_window = [];
  }

  abbrev or_morning : Option String → String → String
  or_morning none date = str_append date "T06:00:00Z"
  or_morning (some i) date = i

  -- The evaluation from the first way in and the last way out.
  abbrev pub evaluated :
      String
      → String
      → Overrides
      → ShiftWindowDef
      → Window
      → List RawPunch
      → List RawPunch
      → Option String
      → Option String
      → PunchEvaluation
  evaluated code date o s w linked outside first last = record {
    evaluated_shift = code;
    evaluated_date = date;
    first_in = first;
    last_out = last;
    worked_minutes = worked w (given first) (given last);
    scheduled_minutes = minutes_between w.to_ms w.from_ms;
    late_minutes = late w s.grace_minutes (given first);
    early_out_minutes = early w s.grace_minutes (given last);
    overtime_minutes =
        overtime s.ot_min_hours o.approved_overtime (worked w (given first) (given last))
          (minutes_between w.to_ms w.from_ms);
    night_diff = s.night_diff_pct;
    friday_multiplier = if cal.is_friday (or_morning first date) then 2 else 1;
    status =
        status_of o.expected_absence (given first) (given last)
          (late w s.grace_minutes (given first)) (early w s.grace_minutes (given last))
          s.late_threshold_minutes;
    punch_count = length linked;
    exceptions = exceptions_of linked outside;
    out_of_window = map (λ (p : RawPunch). p.punched_at) outside;
  }

  abbrev pub of_shift :
      Option ShiftWindowDef → String → String → Overrides → List RawPunch → PunchEvaluation
  of_shift none code date o ps = undefined_shift code date
  of_shift (some s) code date o ps =
      evaluated code date o s (shift_window cal date s) (linked_of (shift_window cal date s) ps)
        (outside_of (shift_window cal date s) ps)
        (first_in_of o (linked_of (shift_window cal date s) ps))
        (last_out_of o (linked_of (shift_window cal date s) ps))

  -- `evaluateDay({ punches, shiftCode, workDate, overrides, shifts })`
  unfoldable pub evaluate_day :
      List (String × ShiftWindowDef) → String → String → Overrides → List RawPunch → PunchEvaluation
  evaluate_day shifts code date o ps = of_shift (lookup code shifts) code date o ps

-- `needsManualResolution(ev)`
unfoldable pub needs_manual_resolution : PunchEvaluation → Bool
needs_manual_resolution ev = is_odd ev.status || ltb 0 (length ev.exceptions)
  where
    is_odd : AttendanceStatus → Bool
    is_odd missing_in = true
    is_odd missing_out = true
    is_odd absent = true
    is_odd late_in = true
    is_odd early_out = true
    is_odd _ = false
