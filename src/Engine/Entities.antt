-- ===== src/Engine/Entities.antt =====
-- The constant tables of apps/api/src/sync/sync-engine.service.ts, and its test of an id.
use Prim.Native.Char.{code}
use newport_ms.Base.{
  ℕ, zero, suc, String, Bool, false, ◌&&◌, ◌||◌, Option, none, some, List, [], ◌∷◌, str_eq, find,
  if◌then◌else◌, leb, ◌==◌,
}

-- `EntityMap`: a column is the text that goes into the query.
pub record EntityMap : Type 0 where
  pub entity : String
  pub table : String
  pub sub_dept_column : Option String
  pub department_column : Option String
  pub creator_column : Option String
  pub stamp : List (String × String)

abbrev entry : String → String → Option String → Option String → EntityMap
entry e t s c = record {
  entity = e;
  table = t;
  sub_dept_column = s;
  department_column = none;
  creator_column = c;
  stamp = [];
}

-- `ENTITY_MAP`; the quotes around the columns' names are left out.
unfoldable pub entity_table : List EntityMap
entity_table =
    record {
      entity = "workOrder";
      table = "work_orders";
      sub_dept_column = some "subDeptId";
      department_column = some "departmentId";
      creator_column = some "createdById";
      stamp = [];
    }
    ∷ record {
      entity = "workOrderLog";
      table = "wo_logs";
      sub_dept_column = none;
      department_column = none;
      creator_column = some "byUserId";
      stamp = ("woId", "workOrderId") ∷ [];
    }
    ∷ entry "laborEntry" "wo_labor_entries" none (some "null")
    ∷ entry "partIssue" "part_requisitions" none (some "requestedById")
    ∷ entry "shiftLog" "production_shift_logs" none (some "preparedById")
    ∷ entry "processParam" "process_parameters" none none
    ∷ entry "downtime" "equipment_downtimes" none (some "loggedById")
    ∷ entry "alarmAck" "production_alarms" none none
    ∷ entry "labSample" "lab_samples" (some "subDeptId") (some "collectedById")
    ∷ entry "labResult" "lab_results" none (some "enteredById")
    ∷ entry "permit" "permits_to_work" none (some "requestedById")
    ∷ entry "asset" "assets" (some "subDeptId") none
    ∷ entry "assetReading" "asset_readings" none (some "byUserId")
    ∷ entry "pmPlanInstance" "pm_plan_instances" none none
    ∷ entry "attendancePunch" "attendance_punches" none none
    ∷ entry "leaveRequest" "leave_requests" none none
    ∷ entry "mobileFormRecord" "mobile_form_records" none (some "null")
    ∷ entry "document" "documents" none (some "uploadedById")
    ∷ entry "notificationAck" "notifications" none none
    ∷ []

-- `ENTITY_MAP[entity]`
unfoldable pub entity_map : String → Option EntityMap
unfolding entity_table
entity_map e = find (λ (m : EntityMap). str_eq m.entity e) entity_table

-- What `NUMBER_STAMP` has for an entity.
pub record NumberStamp : Type 0 where
  pub col : String
  pub sequence : String
  pub prefix : String

-- `NUMBER_STAMP[entity]`
unfoldable pub number_stamp : String → Option NumberStamp
number_stamp e =
    if str_eq e "workOrder"
    then some (record { col = "number"; sequence = "wo_number_seq"; prefix = "WO" })
    else if str_eq e "labSample"
    then some (record { col = "sampleNumber"; sequence = "lab_sample_number_seq"; prefix = "SMP" })
    else none

-- `DENIED_COLUMNS`
abbrev pub denied_columns : List String
denied_columns =
    "passwordHash" ∷ "syncSeq" ∷ "version" ∷ "createdAt" ∷ "updatedAt" ∷ "approvedById"
    ∷ "approvedAt" ∷ "closedById" ∷ "approverId" ∷ "verifiedById" ∷ "verifiedAt" ∷ "costCenterCode"
    ∷ "facilityId" ∷ "departmentId" ∷ "syncCursor" ∷ "isLocked" ∷ "reconciliationHash" ∷ "valuation"
    ∷ "creditUsed" ∷ "keeperUserId" ∷ "approvedBy" ∷ []

-- `[0-9a-f]`, in either case.
abbrev is_hex_code : ℕ → Bool
is_hex_code n = leb 48 n && leb n 57 || leb 65 n && leb n 70 || leb 97 n && leb n 102

abbrev hex_digits : ℕ → String → Option String
hex_digits zero s = some s
hex_digits (suc n) String.[] = none
hex_digits (suc n) (String.◌∷◌ c s) =
    let rest = hex_digits n s in if is_hex_code (code c) then rest else none

abbrev dash_then : ℕ → Option String → Option String
dash_then n none = none
dash_then n (some String.[]) = none
dash_then n (some (String.◌∷◌ c s)) = if code c == 45 then hex_digits n s else none

abbrev at_end : Option String → Bool
at_end none = false
at_end (some s) = str_eq s ""

-- `UUID_RE.test(id)`
unfoldable pub is_uuid : String → Bool
is_uuid s = at_end (dash_then 12 (dash_then 4 (dash_then 4 (dash_then 4 (hex_digits 8 s)))))
