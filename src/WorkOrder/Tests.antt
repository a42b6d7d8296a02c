-- ===== src/WorkOrder/Tests.antt =====
-- The theorems on work orders and permits at concrete orders.
use newport_ms.Base.{
  ◌≡◌, ◌≢◌, ◌≤◌, refl, String, true, false, none, some, List, [], ◌∷◌, any, find, length, ◌||◌,
}
use newport_ms.WorkOrder.States.{
  draft, submitted, approved, assigned, in_progress, completed, closed, can_transition,
  wo_transitions, Transition, actual_times, root_cause,
}
use newport_ms.WorkOrder.Machine.{
  Life, start, next, move, since_draft, released-seen_approved_assigned, every_state_can_close,
  ◌⟶*◌, seen,
}
use newport_ms.WorkOrder.Service.{
  WorkOrder, PermitToWork, Tables, TransitionDto, Access, ok, err, by_id, is_in_force, prepare,
  transition, stale_version, commit, check_requires, check_permit,
}
use newport_ms.WorkOrder.Permit as Permits
use newport_ms.WorkOrder.Service.{Result}
use newport_ms.WorkOrder.Service.Laws.{started-in_force, transition_orders}
use newport_ms.WorkOrder.Service.Locking.{second_writer_is_stale}

abbrev pump : WorkOrder
pump = record {
  id = "W";
  status = assigned;
  version = 4;
  require_permit = true;
  is_safety_critical = false;
  actual_start_at = none;
  actual_end_at = none;
  assigned_to_id = some "T";
  approver_id = some "M";
  root_cause_code = none;
  close_notes = none;
  labor_hours = 3;
}

abbrev valve : WorkOrder
valve = record pump { id = "V"; status = in_progress }

abbrev done_order : WorkOrder
done_order = record pump { id = "D"; status = closed }

abbrev hot_work : PermitToWork
hot_work = record { work_order_id = "W"; permit_status = Permits.open_permit; valid_to = 90 }

abbrev tables : Tables
tables = record {
  orders = pump ∷ valve ∷ done_order ∷ [];
  permits = hot_work ∷ [];
  logs = [];
  audits = [];
  labor_entries = [];
}

abbrev to_start : TransitionDto
to_start = record {
  to = in_progress;
  dto_reason = none;
  actual_start = some 40;
  actual_end = none;
  assignee_ids = [];
  dto_root_cause = none;
}

abbrev to_complete : TransitionDto
to_complete = record to_start { to = completed }

abbrev technician : Access
technician = record { user_id = "T"; permissions = "maint.wo.execute" ∷ [] }

started-in_force_example :
    (wo : WorkOrder) × (find (by_id "W") tables.orders ≡ some wo)
    × ((wo.require_permit || wo.is_safety_critical) ≡ true
        → any (is_in_force wo.id 50) tables.permits ≡ true)
unfolding transition prepare commit can_transition check_requires check_permit wo_transitions
started-in_force_example = started-in_force tables tables "W" to_start technician 50 refl refl

abbrev tables_of : Result Tables → Tables
tables_of (ok db) = db
tables_of (err e) = tables

-- The tables after the pump's work was started.
abbrev written : Tables
written = tables_of (transition tables tables "W" to_start technician 50)

transition_orders_example :
    ((new : WorkOrder) × (find (by_id "W") written.orders ≡ some new)
      × (new.status ≡ in_progress)
      × (new.version ≡ 5)
      × (new.labor_hours ≡ 3))
    × ((j : String) → j ≢ "W" → find (by_id j) written.orders ≡ find (by_id j) tables.orders)
unfolding transition prepare commit can_transition check_requires check_permit wo_transitions
transition_orders_example =
    transition_orders tables tables "W" to_start technician 50 pump refl refl refl

second_writer_is_stale_example :
    transition tables written "W" to_start technician 60 ≡ err (stale_version 4)
unfolding transition prepare commit can_transition check_requires check_permit wo_transitions
second_writer_is_stale_example =
    second_writer_is_stale tables tables "W" to_start to_start technician technician 50 60 pump refl
      refl

abbrev planner : List String
planner = "maint.wo.create" ∷ "maint.wo.assign" ∷ []

assigned-Life : Life (assigned ∷ approved ∷ submitted ∷ draft ∷ []) assigned
unfolding can_transition wo_transitions
assigned-Life =
    next (next (next start (move planner _ refl)) (move planner _ refl)) (move planner _ refl)

released-seen_approved_assigned_example :
    (seen approved (since_draft (assigned ∷ approved ∷ submitted ∷ draft ∷ [])) ≡ true)
    × (seen assigned (since_draft (assigned ∷ approved ∷ submitted ∷ draft ∷ [])) ≡ true)
released-seen_approved_assigned_example = released-seen_approved_assigned assigned-Life refl

abbrev to_close : Transition
to_close = record {
  to = closed;
  permission = "maint.wo.close";
  requires = actual_times ∷ root_cause ∷ [];
}

every_state_can_close_example : in_progress ⟶* closed
every_state_can_close_example = every_state_can_close in_progress

abbrev permit_path : List Permits.PermitState
permit_path =
    Permits.open_permit ∷ Permits.approved_by_hse ∷ Permits.approved_by_area
    ∷ Permits.awaiting_isolation ∷ Permits.requested ∷ []

requested_life : Permits.PermitLife (permit_path) Permits.open_permit
unfolding Permits.permit_transitions
requested_life =
    Permits.next (Permits.next (Permits.next (Permits.next Permits.start refl) refl) refl) refl

opened-seen_approvals_example :
    (Permits.seen Permits.approved_by_area permit_path ≡ true)
    × (Permits.seen Permits.approved_by_hse permit_path ≡ true)
opened-seen_approvals_example = Permits.opened-seen_approvals requested_life refl

permit_flow_ends_example : length permit_path ≤ 7
permit_flow_ends_example = Permits.permit_flow_ends requested_life
