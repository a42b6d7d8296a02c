-- ===== src/Attendance.antt =====
-- Attendance from the punches of the devices, packages/domain/src/attendance.ts. An instant is in
-- milliseconds; `Date.parse` and the formatting of a date are parameters, and so is the order of
-- codes. The shifts' hours and limits are whole numbers.
use newport_ms.Base.{◌*◌}
use newport_ms.Base.{
  ℕ, zero, suc, ◌+◌, ◌-◌, ◌≤◌, ◌<◌, max, min, ◌≡◌, ◌≢◌, refl, sym, ap, ◌∙◌, subst, String, Bool,
  true, false, not, ◌&&◌, ◌||◌, Option, none, some, is_some, List, [], ◌∷◌, ◌++◌, map, arith,
  str_eq, eq_iff, eq_refl, any, all, keep, find, includes, take, drop, length, All, Bool-cases,
  Option-cases, inl, inr, ◌⊎◌, ◌↔◌, if◌then◌else◌, ltb, leb, ◌==◌, last?, head?,
}
pub mod Day
pub mod Summary
mod Assigned
mod Placed
mod Xor
mod Hash
mod Tests
use Prim.Native.Char.{code as char_code}
use newport_ms.Json.Show.{decimal}

-- `PunchType`
pub data PunchType : Type 0 where
  punch_in punch_out break_out break_in : PunchType

-- `RawPunch['source']`
pub data Source : Type 0 where
  device mobile manual : Source

-- `RawPunch`
pub record RawPunch : Type 0 where
  pub id : String
  pub employee_id : String
  pub punched_at : String
  pub punch_type : PunchType
  pub source : Source

-- `ShiftWindowDef`
pub record ShiftWindowDef : Type 0 where
  pub shift_code : String
  pub start_local : String
  pub end_local : String
  pub overnight : Bool
  pub grace_minutes : ℕ
  pub late_threshold_minutes : ℕ
  pub ot_min_hours : ℕ
  pub night_diff_pct : ℕ

abbrev shift : String → String → String → Bool → ℕ → ℕ → ℕ → ShiftWindowDef
shift c from to overnight grace late night = record {
  shift_code = c;
  start_local = from;
  end_local = to;
  overnight = overnight;
  grace_minutes = grace;
  late_threshold_minutes = late;
  ot_min_hours = 1;
  night_diff_pct = night;
}

-- `DEFAULT_SHIFTS`
unfoldable pub default_shifts : List (String × ShiftWindowDef)
default_shifts =
    ("A", shift "A" "08:00" "20:00" false 15 30 0)
    ∷ ("B", shift "B" "20:00" "08:00" true 15 30 15)
    ∷ ("C", shift "C" "08:00" "16:00" false 20 45 0)
    ∷ ("D", shift "D" "09:00" "17:00" false 20 45 0)
    ∷ []

-- The number that digits write, up to a colon.
abbrev digits_from : ℕ → String → ℕ × String
digits_from n String.[] = (n, "")
digits_from n (String.◌∷◌ c s) =
    let next = digits_from (n * 10 + (char_code c - 48)) s in
    if char_code c == 58 then (n, s) else next

-- `minutesOf(hhmm)`, for a text of the form HH:mm.
unfoldable pub minutes_of : String → ℕ
minutes_of t = (digits_from 0 t).0 * 60 + (digits_from 0 (digits_from 0 t).1).0

abbrev pub ms_per_minute : ℕ
ms_per_minute = 60000

abbrev pub ms_per_hour : ℕ
ms_per_hour = 3600000

-- `AttendanceStatus`
pub data AttendanceStatus : Type 0 where
  present late_in early_out missing_in missing_out absent leave mission day_off : AttendanceStatus

-- `{ fromMs, toMs }`
pub record Window : Type 0 where
  pub from_ms : ℕ
  pub to_ms : ℕ

-- `Calendar`: what the program asks of dates. `midnight` is `Date.parse` of a day at 00:00 UTC, `parse`
-- that of an instant, and `precedes` is `a.localeCompare(b) < 0`.
pub record Calendar : Type 0 where
  pub midnight : String → ℕ
  pub parse : String → ℕ
  pub site_date_key : String → String
  pub previous_date : String → String
  pub is_friday : String → Bool
  pub precedes : String → String → Bool

-- `SITE_TZ_OFFSET_MIN`, in milliseconds.
abbrev pub site_offset_ms : ℕ
site_offset_ms = 180 * 60000

-- `shiftWindow(dateKey, shift)`, for a day after 1970; the end is the start and the span, which
-- comes to the end's own time, on the next day for a shift over midnight.
unfoldable pub shift_window : Calendar → String → ShiftWindowDef → Window
shift_window cal date s = record {
  from_ms = cal.midnight date + minutes_of s.start_local * ms_per_minute - site_offset_ms;
  to_ms =
      cal.midnight date
      + (minutes_of s.end_local + (if s.overnight then 1440 else 0)) * ms_per_minute
      - site_offset_ms;
}

-- A candidate of `assignShift`.
pub record Candidate : Type 0 where
  pub candidate_code : String
  pub work_date : String
  pub exact : ℕ
  pub distance : ℕ

abbrev pub apart : ℕ → ℕ → ℕ
apart a b = (a - b) + (b - a)

abbrev pub tolerance_ms : ℕ
tolerance_ms = 4 * ms_per_hour

abbrev pub is_inside : ℕ → Window → Bool
is_inside t w = leb w.from_ms t && leb t w.to_ms

-- Within four hours of the window.
abbrev pub is_near : ℕ → Window → Bool
is_near t w = leb w.from_ms (t + tolerance_ms) && leb t (w.to_ms + tolerance_ms)

abbrev pub candidate : ℕ → String → String → Window → Candidate
candidate t code date w = record {
  candidate_code = code;
  work_date = date;
  exact = if is_inside t w then 0 else 1;
  distance = if is_inside t w then 0 else min (apart t w.from_ms) (apart t w.to_ms);
}

module _ (cal : Calendar) (t : ℕ) where
  unfoldable pub candidates_on : String → List (String × ShiftWindowDef) → List Candidate
  candidates_on date [] = []
  candidates_on date ((k, s) ∷ ss) =
      let rest = candidates_on date ss in
      if is_near t (shift_window cal date s)
      then candidate t s.shift_code date (shift_window cal date s) ∷ rest
      else rest

  -- The order of the sort: `a` comes before `b`.
  abbrev pub is_better : Candidate → Candidate → Bool
  is_better a b =
      ltb a.exact b.exact
      || a.exact == b.exact
        && (ltb a.distance b.distance
            || a.distance == b.distance && cal.precedes a.candidate_code b.candidate_code)

  -- The first candidate after the sort: the earliest that none is better than.
  unfoldable pub best : Candidate → List Candidate → Candidate
  best c [] = c
  best c (d ∷ ds) = best (if is_better d c then d else c) ds

  abbrev pub first_candidate : List Candidate → Option Candidate
  first_candidate [] = none
  first_candidate (c ∷ cs) = some (best c cs)

-- `assignShift(punch, shifts, anchorDate)`; the answer is the candidate, of which the program gives
-- the code of the shift and the day.
unfoldable pub assign_shift :
    Calendar → RawPunch → List (String × ShiftWindowDef) → Option String → Option Candidate
assign_shift cal punch shifts anchor =
    on (elim anchor [ none ↦ cal.site_date_key punch.punched_at | some d ↦ d ])
  where
    on : String → Option Candidate
    on date = first_candidate cal (cal.parse punch.punched_at) (
        candidates_on cal (cal.parse punch.punched_at) date shifts
        ++ candidates_on cal (cal.parse punch.punched_at) (cal.previous_date date) shifts)
