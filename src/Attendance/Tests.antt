-- ===== src/Attendance/Tests.antt =====
-- A day of a mechanic on the morning shift: twenty minutes late, and out at the end.
use newport_ms.Attendance.{arith}
use newport_ms.Base.{arith}
use newport_ms.Base.{◌≢◌}
use newport_ms.Attendance.Summary.{pad_end}
use newport_ms.Attendance.Summary.{hex_digits}
use newport_ms.Attendance.Summary.{hash_from}
use newport_ms.Attendance.Summary.{hash_digits}
use newport_ms.Attendance.Summary.{simple_hash}
use newport_ms.Base.{
  ℕ, ◌+◌, ◌≡◌, refl, String, true, false, ◌||◌, none, some, [], ◌∷◌, str_eq, ◌↔◌, if◌then◌else◌,
}
use newport_ms.Base.Maps.{lookup}
use newport_ms.Attendance.Summary.{simple_hash, hash_from, hash_digits, hex_digits, pad_end}
use newport_ms.Attendance.{
  minutes_of, shift_window, Source, best, AttendanceStatus, RawPunch, candidates_on, Calendar,
  Candidate, PunchType, ShiftWindowDef, assign_shift, default_shifts,
}
use newport_ms.Attendance.Assigned.{evaluate_day-Faultless, Faultless}
use Prim.Native.Char.{code as char_code}
use Prim.Native.String.{◌++◌ as str_append}
use newport_ms.Attendance.Hash.{simple_hash_apart}
use newport_ms.Attendance.Placed.{assign_shift_lem, is_covered, is_placed}
use newport_ms.Attendance.Day.{Overrides, evaluate_day}

-- The instants of one day, which begins a million hours after 1970.
abbrev midnight_ms : ℕ
midnight_ms = 3600000000000

abbrev calendar : Calendar
calendar = record {
  midnight = λ d. midnight_ms;
  parse = λ s. midnight_ms + (if str_eq s "in" then 19200000 else 61200000);
  site_date_key = λ s. "2026-01-05";
  previous_date = λ d. "2026-01-04";
  is_friday = λ s. false;
  precedes = λ a b. false;
}

abbrev punch : String → PunchType → RawPunch
punch s k = record {
  id = s;
  employee_id = "e1";
  punched_at = s;
  punch_type = k;
  source = Source.device;
}

abbrev nothing_known : Overrides
nothing_known = record {
  expected_absence = none;
  approved_overtime = 0;
  manual_in = none;
  manual_out = none;
}

abbrev morning : ShiftWindowDef
morning = record {
  shift_code = "A";
  start_local = "08:00";
  end_local = "20:00";
  overnight = false;
  grace_minutes = 15;
  late_threshold_minutes = 30;
  ot_min_hours = 1;
  night_diff_pct = 0;
}

found_morning : lookup "A" default_shifts ≡ some morning
unfolding lookup default_shifts
found_morning = refl

evaluate_day-Faultless_example :
    (evaluate_day calendar 0 default_shifts "A" "2026-01-05" nothing_known
        (punch "out" PunchType.punch_out ∷ punch "in" PunchType.punch_in ∷ [])).status
      ≡ AttendanceStatus.present
    ↔ Faultless morning (
        evaluate_day calendar 0 default_shifts "A" "2026-01-05" nothing_known
          (punch "out" PunchType.punch_out ∷ punch "in" PunchType.punch_in ∷ []))
evaluate_day-Faultless_example =
    evaluate_day-Faultless calendar 0 default_shifts "A" "2026-01-05" nothing_known
      (punch "out" PunchType.punch_out ∷ punch "in" PunchType.punch_in ∷ []) morning found_morning
      refl

abbrev early_a : Candidate
early_a = record { candidate_code = "A"; work_date = "2026-01-05"; exact = 0; distance = 0 }

given_early :
    assign_shift calendar (punch "in" PunchType.punch_in) default_shifts (some "2026-01-05")
    ≡ some early_a
unfolding assign_shift candidates_on best shift_window default_shifts minutes_of
given_early = refl

assign_shift_lem_example :
    (is_placed calendar (midnight_ms + 19200000) "2026-01-05" default_shifts early_a
        || is_placed calendar (midnight_ms + 19200000) "2026-01-04" default_shifts early_a
      ≡ true)
    × (is_covered calendar (midnight_ms + 19200000) "2026-01-05" default_shifts
            || is_covered calendar (midnight_ms + 19200000) "2026-01-04" default_shifts
          ≡ true
        → early_a.exact ≡ 0)
assign_shift_lem_example =
    assign_shift_lem calendar (punch "in" PunchType.punch_in) default_shifts "2026-01-05" early_a
      given_early

codes_differ : char_code "3" ≢ char_code "4"
codes_differ h = omega (arith, h)

simple_hash_apart_example :
    simple_hash (str_append "e1|2026-01-05|A|" (String.◌∷◌ "3" "|4"))
    ≢ simple_hash (str_append "e1|2026-01-05|A|" (String.◌∷◌ "4" "|4"))
simple_hash_apart_example =
    simple_hash_apart "e1|2026-01-05|A|" "|4" "3" "4" (omega arith) (omega arith)
      (omega arith, (omega arith, tt)) codes_differ

known_hash : simple_hash "a" ≡ "e40c292c"
unfolding simple_hash hash_digits hash_from hex_digits pad_end
known_hash = refl
