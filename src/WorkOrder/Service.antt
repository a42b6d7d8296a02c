-- ===== src/WorkOrder/Service.antt =====
-- `transition` and `addLabor` of apps/api/src/workorder/work-order.service.ts. The tables that they
-- read and write are lists of rows. The handler reads before its transaction and writes inside it,
-- so `transition` takes the tables twice: as they were read, and as they are when it writes.
-- An update raises a row's version by one, as the trigger of the table does
-- (apps/api/prisma/migrations). Left out: the sender's address and device in the audit row.

pub mod Laws
pub mod Locking
use newport_ms.Base.{
  ℕ, ◌+◌, ◌≡◌, refl, String, Bool, true, false, not, ◌&&◌, ◌||◌, Option, none, some, List, [], ◌∷◌,
  ◌++◌, map, ◌==◌, leb, str_eq, find, any, length, head?, is_some, if◌then◌else◌,
}
use newport_ms.WorkOrder.States.{
  WoState, in_progress, assigned, approved, completed, closed, state_eq, Requirement, reason,
  actual_times, root_cause, Transition, can_transition, allowed_next_states,
}
use newport_ms.WorkOrder.Permit.{PermitState, open_permit, extended, approved_by_hse, permit_eq}

-- The columns of `work_orders` that the handlers use.
pub record WorkOrder : Type 0 where
  pub id : String
  pub status : WoState
  pub version : ℕ
  pub require_permit : Bool
  pub is_safety_critical : Bool
  pub actual_start_at : Option ℕ
  pub actual_end_at : Option ℕ
  pub assigned_to_id : Option String
  pub approver_id : Option String
  pub root_cause_code : Option String
  pub close_notes : Option String
  pub labor_hours : ℕ

-- The columns of `permits_to_work` that the handlers use.
pub record PermitToWork : Type 0 where
  pub work_order_id : String
  pub permit_status : PermitState
  pub valid_to : ℕ

-- A row of `wo_logs`, and one of the audit table.
pub record WoLog : Type 0 where
  pub wo_id : String
  pub by_user_id : String
  pub from_status : WoState
  pub to_status : WoState
  pub log_reason : Option String

pub data AuditAction : Type 0 where
  approve update : AuditAction

pub record Audit : Type 0 where
  pub actor_id : String
  pub action : AuditAction
  pub entity_id : String
  pub changed_from : WoState
  pub changed_to : WoState
  pub audit_reason : Option String

-- A row of `wo_labor_entries`.
pub record LaborEntry : Type 0 where
  pub labor_wo_id : String
  pub employee_id : String
  pub hours : ℕ

pub record Tables : Type 0 where
  pub orders : List WorkOrder
  pub permits : List PermitToWork
  pub logs : List WoLog
  pub audits : List Audit
  pub labor_entries : List LaborEntry

-- `WorkOrderTransitionDto`, less the planned times, which the handler does not read.
pub record TransitionDto : Type 0 where
  pub to : WoState
  pub dto_reason : Option String
  pub actual_start : Option ℕ
  pub actual_end : Option ℕ
  pub assignee_ids : List String
  pub dto_root_cause : Option String

pub record Access : Type 0 where
  pub user_id : String
  pub permissions : List String

pub data Failure : Type 0 where
  not_found : Failure
  not_allowed : List WoState → Failure
  missing_data : Requirement → List Requirement → Failure
  no_valid_permit : Failure
  stale_version : ℕ → Failure
  order_closed : Failure

-- What a handler answers: the exception that it throws, or its value.
pub data Result (A : Type 0) : Type 0 where
  err : Failure → Result A
  ok : A → Result A

infixl 6 ◌>>=◌ ◌>>◌
abbrev pub ◌>>=◌ : {A B : Type 0} → Result A → (A → Result B) → Result B
err failure >>= next = err failure
ok value >>= next = next value

abbrev pub ◌>>◌ : {B : Type 0} → Result (Unit {0}) → Result B → Result B
check >> rest = check >>= λ passed. rest

-- A row that must be there.
abbrev pub or_fail : {A : Type 0} → Option A → Failure → Result A
or_fail (some row) failure = ok row
or_fail none failure = err failure

-- A condition that must hold.
abbrev pub guard : (holds : Bool) → Failure → Result (Unit {0})
guard false failure = err failure
guard true failure = ok tt

-- A handler that answers with a value has passed its first step.
pub >>=-eq-ok :
    {A B : Type 0} (first : Result A) (next : A → Result B) {answer : B}
    → (first >>= next) ≡ ok answer
    → (value : A) × (first ≡ ok value) × (next value ≡ ok answer)
>>=-eq-ok (err failure) next h = cc
>>=-eq-ok (ok value) next h = (value, refl, h)

pub or_fail-eq-ok :
    {A : Type 0} (row : Option A) (failure : Failure) {found : A}
    → or_fail row failure ≡ ok found
    → row ≡ some found
or_fail-eq-ok (some row) failure h = cc
or_fail-eq-ok none failure h = cc

-- `!text` of an optional text.
abbrev pub is_empty : Option String → Bool
is_empty none = true
is_empty (some s) = str_eq s ""

-- `a ?? b`
abbrev pub coalesce {ℓ} : {A : Type ℓ} → Option A → Option A → Option A
coalesce none b = b
coalesce (some a) b = some a

-- The test `missing` of one requirement.
abbrev pub is_missing : TransitionDto → Requirement → Bool
is_missing dto reason = is_empty dto.dto_reason
is_missing dto actual_times = state_eq dto.to in_progress && not (is_some dto.actual_start)
is_missing dto root_cause = state_eq dto.to closed && is_empty dto.dto_root_cause
is_missing dto _ = false

-- The loop over `transition.requires`.
unfoldable pub check_requires :
    TransitionDto → List Requirement → List Requirement → Result (Unit {0})
check_requires dto required [] = ok tt
check_requires dto required (r ∷ rs) =
    if is_missing dto r then err (missing_data r required) else check_requires dto required rs

-- The query for a permit that is in force.
abbrev pub is_in_force : String → ℕ → PermitToWork → Bool
is_in_force id now p =
    str_eq p.work_order_id id
    && (permit_eq p.permit_status open_permit
        || permit_eq p.permit_status extended
        || permit_eq p.permit_status approved_by_hse)
    && leb now p.valid_to

unfoldable pub check_permit : Tables → TransitionDto → WorkOrder → ℕ → Result (Unit {0})
check_permit db dto wo now =
    if state_eq dto.to in_progress && (wo.require_permit || wo.is_safety_critical)
    then guard (any (is_in_force wo.id now) db.permits) no_valid_permit
    else ok tt

-- The new contents of the row.
unfoldable pub updated_row : TransitionDto → Access → ℕ → WorkOrder → WorkOrder → WorkOrder
updated_row dto access now wo row = record row {
  status = dto.to;
  actual_start_at =
      if state_eq dto.to in_progress
      then some (elim dto.actual_start [ none ↦ now | some t ↦ t ])
      else wo.actual_start_at;
  actual_end_at =
      if state_eq dto.to closed || state_eq dto.to completed
      then some (elim dto.actual_end [ none ↦ now | some t ↦ t ])
      else wo.actual_end_at;
  assigned_to_id =
      if state_eq dto.to assigned
      then coalesce (head? dto.assignee_ids) wo.assigned_to_id
      else wo.assigned_to_id;
  approver_id = if state_eq dto.to approved then some access.user_id else wo.approver_id;
  root_cause_code = coalesce dto.dto_root_cause wo.root_cause_code;
  close_notes =
      if state_eq dto.to closed then coalesce dto.dto_reason wo.close_notes else wo.close_notes;
  version = row.version + 1;
}

-- `where: { id: wo.id, version: wo.version }`
abbrev pub has_key : String → ℕ → WorkOrder → Bool
has_key id version row = str_eq row.id id && row.version == version

-- `updateMany` on the rows with that key.
unfoldable pub update_rows : String → ℕ → (WorkOrder → WorkOrder) → List WorkOrder → List WorkOrder
update_rows id version f rows = map (λ r. if has_key id version r then f r else r) rows

abbrev pub by_id : String → WorkOrder → Bool
by_id id row = str_eq row.id id

-- The transaction: the update under the optimistic lock, the log row and the audit row.
unfoldable pub commit : TransitionDto → Access → ℕ → WorkOrder → Tables → Result Tables
commit dto access now wo db =
    if any (has_key wo.id wo.version) db.orders
    then ok (record db {
      orders = update_rows wo.id wo.version (updated_row dto access now wo) db.orders;
      logs =
          db.logs
          ++ record {
            wo_id = wo.id;
            by_user_id = access.user_id;
            from_status = wo.status;
            to_status = dto.to;
            log_reason = dto.dto_reason;
          }
            ∷ [];
      audits =
          db.audits
          ++ record {
            actor_id = access.user_id;
            action = if state_eq dto.to closed then approve else update;
            entity_id = wo.id;
            changed_from = wo.status;
            changed_to = dto.to;
            audit_reason = dto.dto_reason;
          }
            ∷ [];
    })
    else err (stale_version wo.version)

-- The checks that come before the transaction, on the tables as they were read.
unfoldable pub prepare : Tables → String → TransitionDto → Access → ℕ → Result WorkOrder
prepare db id dto access now = do
  wo ← or_fail (find (by_id id) db.orders) not_found
  t ←
      or_fail (can_transition wo.status dto.to access.permissions)
        (not_allowed (allowed_next_states wo.status access.permissions))
  check_requires dto t.requires t.requires
  check_permit db dto wo now
  ok wo

-- `transition(id, dto, access)`
unfoldable pub transition :
    (read write : Tables) → String → TransitionDto → Access → ℕ → Result Tables
transition read write id dto access now = do
  wo ← prepare read id dto access now
  commit dto access now wo write

abbrev sum_hours : List LaborEntry → ℕ
sum_hours [] = 0
sum_hours (e ∷ es) = e.hours + sum_hours es

abbrev add_hours : String → ℕ → WorkOrder → WorkOrder
add_hours id total row =
    if by_id id row
    then record row { labor_hours = row.labor_hours + total; version = row.version + 1 }
    else row

-- `addLabor(woId, entries)`: hours are whole here, and the entries carry the order's id already.
unfoldable pub add_labor : String → List LaborEntry → Tables → Result Tables
add_labor wo_id entries db = do
  wo ← or_fail (find (by_id wo_id) db.orders) not_found
  guard (not (state_eq wo.status closed)) order_closed
  ok (record db {
    labor_entries = db.labor_entries ++ entries;
    orders = map (add_hours wo_id (sum_hours entries)) db.orders;
  })
