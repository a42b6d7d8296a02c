-- ===== src/Attendance/Summary.antt =====
-- `toSummaryRow` and `simpleHash` of packages/domain/src/attendance.ts. A character is one of 16 bits,
-- and the hash is the unsigned number of 32 bits that `>>> 0` makes of it.
use Prim.Native.Nat.{bit_xor, ◌*◌, ◌%◌, ◌/◌}
use Prim.Native.Char.{code as char_code}
use Prim.Native.String.{◌++◌ as str_append}
use newport_ms.Base.{
  ℕ, zero, suc, ◌+◌, ◌≤◌, ◌<◌, ◌≡◌, refl, ap, ◌∙◌, String, Bool, true, false, Option, none, some,
  List, [], ◌∷◌, map, arith, length, All, if◌then◌else◌, ltb,
}
use newport_ms.Attendance.{AttendanceStatus}
use newport_ms.Attendance.Day.{PunchEvaluation}
use newport_ms.Json.{str, arr, from_list}
use newport_ms.Json.Show.{decimal, stringify}

-- `h ^= c; h = Math.imul(h, 16777619)`
abbrev pub hash_step : ℕ → ℕ → ℕ
hash_step h c = (bit_xor h c * 16777619) % 4294967296

unfoldable pub hash_from : ℕ → String → ℕ
hash_from h String.[] = h
hash_from h (String.◌∷◌ c s) = hash_from (hash_step h (char_code c)) s

-- One digit to base sixteen.
abbrev pub hex_digit : ℕ → String
hex_digit n = pick n (
    "0" ∷ "1" ∷ "2" ∷ "3" ∷ "4" ∷ "5" ∷ "6" ∷ "7" ∷ "8" ∷ "9" ∷ "a" ∷ "b" ∷ "c" ∷ "d" ∷ "e" ∷ "f"
    ∷ [])
  where
    pick : ℕ → List String → String
    pick n [] = ""
    pick zero (d ∷ ds) = d
    pick (suc n) (d ∷ ds) = pick n ds

-- The digits of a number to base sixteen, the least first, as `toString(16)` has them.
unfoldable pub hex_digits : (fuel n : ℕ) → List ℕ
hex_digits zero n = []
hex_digits (suc fuel) n =
    let rest = hex_digits fuel (n / 16) in if ltb n 16 then n ∷ [] else n % 16 ∷ rest

-- `padStart(8, '0')`, on digits with the least first.
unfoldable pub pad_end : ℕ → List ℕ → List ℕ
pad_end zero ds = ds
pad_end (suc n) [] = 0 ∷ pad_end n []
pad_end (suc n) (d ∷ ds) = d ∷ pad_end n ds

abbrev pub written : List ℕ → String
written [] = ""
written (d ∷ ds) = str_append (written ds) (hex_digit d)

-- The digits of the hash; a number of 32 bits has at most eight.
unfoldable pub hash_digits : String → List ℕ
hash_digits s = pad_end 8 (hex_digits 8 (hash_from 2166136261 s))

-- `simpleHash(s)`
unfoldable pub simple_hash : String → String
simple_hash s = written (hash_digits s)

-- `DailySummaryRow`
pub record DailySummaryRow : Type 0 where
  pub summary_employee : String
  pub summary_date : String
  pub summary_shift : String
  pub first_in_at : Option String
  pub last_out_at : Option String
  pub summary_worked : ℕ
  pub summary_scheduled : ℕ
  pub summary_late : ℕ
  pub summary_early : ℕ
  pub summary_overtime : ℕ
  pub summary_night_diff : ℕ
  pub summary_friday : ℕ
  pub status_code : AttendanceStatus
  pub exceptions_json : String
  pub summary_punches : ℕ
  pub reconciliation_hash : String

abbrev or_null : Option String → String
or_null none = "null"
or_null (some s) = s

abbrev joined : String → List String → String
joined s [] = s
joined s (t ∷ ts) = str_append s (str_append "|" (joined t ts))

-- `toSummaryRow(employeeId, ev)`
unfoldable pub to_summary_row : String → PunchEvaluation → DailySummaryRow
to_summary_row employee ev = record {
  summary_employee = employee;
  summary_date = ev.evaluated_date;
  summary_shift = ev.evaluated_shift;
  first_in_at = ev.first_in;
  last_out_at = ev.last_out;
  summary_worked = ev.worked_minutes;
  summary_scheduled = ev.scheduled_minutes;
  summary_late = ev.late_minutes;
  summary_early = ev.early_out_minutes;
  summary_overtime = ev.overtime_minutes;
  summary_night_diff = ev.night_diff;
  summary_friday = ev.friday_multiplier;
  status_code = ev.status;
  exceptions_json = stringify (arr (from_list (map str ev.exceptions)));
  summary_punches = ev.punch_count;
  reconciliation_hash = simple_hash (
      joined employee (
        ev.evaluated_date
        ∷ ev.evaluated_shift
        ∷ or_null ev.first_in
        ∷ or_null ev.last_out
        ∷ decimal ev.punch_count
        ∷ []));
}

hash_from-lt : (h : ℕ) (s : String) → h < 4294967296 → hash_from h s < 4294967296
unfolding hash_from
hash_from-lt h String.[] lt = lt
hash_from-lt h (String.◌∷◌ c s) lt = hash_from-lt (hash_step h (char_code c)) s (omega arith)

-- The number that digits write, the least first.
abbrev pub value_of : List ℕ → ℕ
value_of [] = 0
value_of (d ∷ ds) = d + 16 * value_of ds

abbrev below : ℕ → ℕ
below zero = 1
below (suc n) = 16 * below n

-- Digits that write a number, at most so many.
abbrev Writes : ℕ → ℕ → List ℕ → Type 0
Writes fuel n ds = (value_of ds ≡ n) × (length ds ≤ fuel) × All (λ d. d < 16) ds

hex_digits-Writes : (fuel n : ℕ) → n < below fuel → Writes fuel n (hex_digits fuel n)
unfolding hex_digits
hex_digits-Writes zero n h = (omega (arith, h), omega arith, tt)
hex_digits-Writes (suc fuel) n h =
    go (ltb n 16) refl (hex_digits-Writes fuel (n / 16) (omega (arith, h)))
  where
    go :
        (b : Bool)
        → ltb n 16 ≡ b
        → Writes fuel (n / 16) (hex_digits fuel (n / 16))
        → Writes (suc fuel) n (if b then n ∷ [] else n % 16 ∷ hex_digits fuel (n / 16))
    go true e w = (omega arith, omega arith, (ground (arith, e), tt))
    go false e w = (omega (arith, w.0), omega (arith, w.1), (omega arith, w.2))

not_le_zero : (n : ℕ) → ¬ (suc n ≤ 0)
not_le_zero n h = omega (arith, h)

pad_end_lem :
    (n : ℕ) (ds : List ℕ)
    → length ds ≤ n
    → All (λ d. d < 16) ds
    → (value_of (pad_end n ds) ≡ value_of ds)
      × (length (pad_end n ds) ≡ n)
      × All (λ d. d < 16) (pad_end n ds)
unfolding pad_end
pad_end_lem zero [] h a = (refl, refl, tt)
pad_end_lem zero (d ∷ ds) h a = elim (not_le_zero (length ds) h) [ ]
pad_end_lem (suc n) [] h a =
    let (v, l, b) = pad_end_lem n [] (omega arith) tt in
    (omega (arith, v), ap suc l, (omega arith, b))
pad_end_lem (suc n) (d ∷ ds) h a =
    let (v, l, b) = pad_end_lem n ds (omega (arith, h)) a.1 in
    (omega (arith, v), ap suc l, (a.0, b))

-- The hash of any text is a number of 32 bits, and is written in exactly eight digits to base sixteen,
-- of which it can be read back.
pub hash_digits_lem :
    (s : String)
    → (hash_from 2166136261 s < 4294967296)
      × (length (hash_digits s) ≡ 8)
      × All (λ d. d < 16) (hash_digits s)
      × (value_of (hash_digits s) ≡ hash_from 2166136261 s)
unfolding hash_digits
hash_digits_lem s =
    let bound = hash_from-lt 2166136261 s (omega arith) in
    let (v, l, a) = hex_digits-Writes 8 (hash_from 2166136261 s) bound in
    let (w, k, b) = pad_end_lem 8 (hex_digits 8 (hash_from 2166136261 s)) l a in
    (bound, k, b, w ∙ v)
