-- ===== src/Attendance/Assigned.antt =====
-- When `evaluateDay` of packages/domain/src/attendance.ts calls a day worked.
use newport_ms.Base.{
  ℕ, ◌≤◌, ◌≡◌, sym, ap, ◌∙◌, subst, String, true, Option, none, some, is_some, List, arith, ◌↔◌,
}
use newport_ms.Base.Maps.{lookup}
use newport_ms.Attendance.Day.{
  given, last_out_of, linked_of, first_in_of, of_shift, early, Overrides, late, PunchEvaluation,
  evaluate_day, status_of,
}
use newport_ms.Attendance.{
  shift_window, Window, RawPunch, Calendar, ShiftWindowDef, AttendanceStatus, present,
}

-- The day counts as worked without a fault.
abbrev pub Faultless : ShiftWindowDef → PunchEvaluation → Type 0
Faultless s ev =
    (is_some (given ev.first_in) ≡ true)
    × (is_some (given ev.last_out) ≡ true)
    × (ev.late_minutes ≤ s.late_threshold_minutes)
    × (ev.early_out_minutes ≤ s.late_threshold_minutes)

status_of-present :
    (first last : Option String) (late early threshold : ℕ)
    → status_of none first last late early threshold ≡ present
    → (is_some first ≡ true) × (is_some last ≡ true) × (late ≤ threshold) × (early ≤ threshold)
unfolding status_of
status_of-present none none late early threshold h = cc
status_of-present none (some o) late early threshold h = cc
status_of-present (some i) none late early threshold h = cc
status_of-present (some i) (some o) late early threshold h = ground (arith, h)

present-status_of :
    (first last : Option String) (late early threshold : ℕ)
    → (is_some first ≡ true) × (is_some last ≡ true) × (late ≤ threshold) × (early ≤ threshold)
    → status_of none first last late early threshold ≡ present
unfolding status_of
present-status_of none last late early threshold h = cc (h.0)
present-status_of (some i) none late early threshold h = cc (h.1)
present-status_of (some i) (some o) late early threshold h = ground (arith, h)

module _ (cal : Calendar) (now : ℕ) (shifts : List (String × ShiftWindowDef)) where
  -- Of a shift that is defined, and with no absence that was expected, a day is PRESENT exactly if there
  -- is a way in and a way out, given by texts that are not empty, and neither the minutes late nor
  -- those gone early are more than the shift's limit.
  pub evaluate_day-Faultless :
      (code date : String) (o : Overrides) (ps : List RawPunch) (s : ShiftWindowDef)
      → lookup code shifts ≡ some s
      → o.expected_absence ≡ none
      → (evaluate_day cal now shifts code date o ps).status ≡ present
        ↔ Faultless s (evaluate_day cal now shifts code date o ps)
  unfolding evaluate_day
  evaluate_day-Faultless code date o ps s h e =
      subst (λ ev. ev.status ≡ present ↔ Faultless s ev)
        (sym (ap (λ x. of_shift cal now x code date o ps) h))
        (
          λ p.
              status_of-present (first s) (last s) _ _ s.late_threshold_minutes
                (sym (ap (judged s) e) ∙ p),
          λ f.
              ap (judged s) e ∙ present-status_of (first s) (last s) _ _ s.late_threshold_minutes f,
        )
    where
      w : ShiftWindowDef → Window
      w x = shift_window cal date x

      first : ShiftWindowDef → Option String
      first x = given (first_in_of cal now o (linked_of cal now (w x) ps))

      last : ShiftWindowDef → Option String
      last x = given (last_out_of cal now o (linked_of cal now (w x) ps))

      judged : ShiftWindowDef → Option AttendanceStatus → AttendanceStatus
      judged x a =
          status_of a (first x) (last x) (late cal now (w x) x.grace_minutes (first x))
            (early cal now (w x) x.grace_minutes (last x)) x.late_threshold_minutes
