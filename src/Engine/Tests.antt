-- ===== src/Engine/Tests.antt =====
-- A run of the engine of the server: two devices, a record that is made and changed, and a pull.
use newport_ms.Engine.Database.{is_unread}
use newport_ms.Base.{◌⊎◌}
use newport_ms.Base.{
  ℕ, ◌+◌, ◌≤◌, ◌≡◌, refl, String, true, false, none, some, List, [], ◌∷◌, ◌++◌, map, arith, take,
  length, All,
}
use newport_ms.Base.Maps.{lookup, set}
use newport_ms.Engine.Guarded.{work_order_never_approved}
use newport_ms.Engine.Pulls.{pull-Ascending, pull-pull, pull_complete}
use newport_ms.Engine.Database.{LogRow, current_seq, Database, Postgres}
use newport_ms.Engine.Statements.{
  set_device, entity_of_table, place, log_row, store, insert_into, add_conflict, remember_op,
}
use newport_ms.Engine.Feed.{push-pull, apply_ops-Rising, pull-Stripped, Stripped}
use newport_ms.Engine.Once.{apply_op-again, Agree}
use newport_ms.Engine.Pull.{in_pull_scope, change_of, page_size, visible, pull}
use newport_ms.Engine.Slices.{Ascending}
use newport_ms.Engine.Values.{safe_columns, is_approved, encode, sanitize, server_stamp}
use newport_ms.Engine.Order.{Rising}
use newport_ms.Engine.Logged.{apply_ops-Accounted, Accounted}
use newport_ms.Engine.Refused.{apply_op-SameTables, SameTables, is_taken}
use newport_ms.Engine.Write.{project, read, record_conflict, success, create, apply_write}
use newport_ms.Engine.Entities.{EntityMap, number_stamp, is_uuid, entity_table, entity_map}
use newport_ms.Engine.Push.{apply_ops, attempt, apply_new, apply_op}
use newport_ms.Engine.Gate.{record_in_scope, permission_gate}
use newport_ms.Json.{str, num, null, get, put, spread}
use newport_ms.Sync.Meta.{OpKind, ChangeOp, PullRequest, sync_meta, sync_table}
use newport_ms.Security.{Scope}
use newport_ms.Security.Guard.{AccessContext, can}

abbrev pg : Postgres
pg = record {
  columns = λ t. "id" ∷ "reason" ∷ "approvedById" ∷ "version" ∷ "syncSeq" ∷ [];
  unfilled = λ t. [];
  cast = λ t c s. str s;
  defaults = λ t. ("version", num 1) ∷ ("approvedById", null) ∷ [];
  uuid = λ s. s;
  sections_of = λ d. "MECH" ∷ [];
  number_text = λ p n. p;
  now = str "now";
  refuses = λ st db. none;
}

abbrev access : AccessContext
access = record {
  user_id = "u1";
  device_id = some "d1";
  profile = record {
    profile_user = "u1";
    facility = "f1";
    dept = "MAINT";
    sub_dept = "MECH";
    profile_version = 1;
    role_codes = [];
    permissions =
        record {
          code = "sync.push";
          scope = Scope.scope_all;
          permission_dept = "MAINT";
          permission_sub_dept = "MECH";
        }
        ∷ [];
    is_facility_wide = true;
    must_change_pwd = false;
  };
  grants = [];
}

abbrev empty_db : Database
empty_db = record {
  rows = λ t i. none;
  remembered = [];
  conflicts = [];
  log = [];
  drawn = 0;
  numbers = λ s. 0;
  devices = [];
}

abbrev stop_id : String
stop_id = "01890a5d-ac96-774b-bcce-b302099a8057"

abbrev make_stop : ChangeOp
make_stop = record {
  op_id = "o1";
  op_entity = "downtime";
  record_id = stop_id;
  kind = OpKind.upsert;
  fields = some (("reason", str "bearing") ∷ ("approvedById", str "me") ∷ []);
  base_version = none;
  client_timestamp = "";
}

abbrev change_stop : ChangeOp
change_stop = record make_stop {
  op_id = "o2";
  fields = some (("reason", str "bearing failed") ∷ []);
}

abbrev delete_log : ChangeOp
delete_log = record make_stop { op_id = "o3"; op_entity = "workOrderLog"; kind = OpKind.delete }

made : (apply_op pg access make_stop empty_db).1.server_seq ≡ some 1
unfolding apply_op apply_new attempt apply_write create success remember_op record_conflict
    add_conflict read insert_into store log_row place current_seq sync_meta sync_table entity_map
    entity_table is_uuid lookup set can permission_gate record_in_scope server_stamp sanitize spread
    put get encode entity_of_table number_stamp
made = refl

apply_op-again_example :
    ((apply_op pg access make_stop
        (apply_ops pg access (change_stop ∷ []) (apply_op pg access make_stop empty_db).0).0).0
      ≡ (apply_ops pg access (change_stop ∷ []) (apply_op pg access make_stop empty_db).0).0)
    × Agree
        (apply_op pg access make_stop
          (apply_ops pg access (change_stop ∷ []) (apply_op pg access make_stop empty_db).0).0).1
        (apply_op pg access make_stop empty_db).1
apply_op-again_example =
    apply_op-again pg (λ id r db. refl) access access make_stop (change_stop ∷ []) empty_db 1 made

not_deleted : is_taken (apply_op pg access delete_log empty_db).1.outcome ≡ false
unfolding apply_op apply_new sync_meta sync_table entity_map entity_table is_uuid lookup can
    permission_gate
not_deleted = refl

apply_op-SameTables_example :
    SameTables empty_db (apply_op pg access delete_log empty_db).0
    ⊎ (is_unread pg (apply_op pg access delete_log empty_db).0 ≡ true)
apply_op-SameTables_example = apply_op-SameTables pg access delete_log empty_db not_deleted

apply_ops-Accounted_example :
    (more : List LogRow) × ((apply_ops pg access (make_stop ∷ make_stop ∷ []) empty_db).0.log
      ≡ [] ++ more)
    × Rising 0 more (apply_ops pg access (make_stop ∷ make_stop ∷ []) empty_db).0.drawn
    × Accounted pg access (make_stop ∷ make_stop ∷ []) empty_db more
apply_ops-Accounted_example = apply_ops-Accounted pg access (make_stop ∷ make_stop ∷ []) empty_db

apply_ops-Rising_example :
    Rising 0
      (apply_ops pg access (make_stop ∷ change_stop ∷ []) empty_db).0.log
      (apply_ops pg access (make_stop ∷ change_stop ∷ []) empty_db).0.drawn
apply_ops-Rising_example =
    apply_ops-Rising pg access (make_stop ∷ change_stop ∷ []) empty_db (omega arith)

abbrev stop_map : EntityMap
stop_map = record {
  entity = "downtime";
  table = "equipment_downtimes";
  sub_dept_column = none;
  department_column = none;
  creator_column = some "loggedById";
  stamp = [];
}

work_order_never_approved_example :
    is_approved
      (project
        (safe_columns ("id" ∷ "status" ∷ "approverId" ∷ []))
        (("status", str "APPROVED") ∷ ("approverId", str "u9") ∷ []))
      "workOrder"
    ≡ false
work_order_never_approved_example =
    work_order_never_approved ("id" ∷ "status" ∷ "approverId" ∷ [])
      (("status", str "APPROVED") ∷ ("approverId", str "u9") ∷ [])

-- A log of three rows, of which two go on a page.
abbrev stop_row : ℕ → LogRow
stop_row n = record {
  log_seq = n;
  log_entity = "downtime";
  log_record = stop_id;
  is_delete_op = false;
  log_version = n;
  payload = ("reason", str "bearing") ∷ ("failedAttempts", num 3) ∷ [];
  actor = some "u1";
  log_sub_dept = none;
}

abbrev three_rows : Database
three_rows = record empty_db { log = stop_row 1 ∷ stop_row 2 ∷ stop_row 4 ∷ []; drawn = 4 }

abbrev ask : ℕ → PullRequest
ask n = record { pull_device_id = "d1"; since_cursor = n; limit = 2 }

three_rows-Rising : Rising 0 three_rows.log 4
three_rows-Rising = (omega arith, (omega arith, (omega arith, omega arith)))

first_page : (pull pg access none (ask 0) three_rows).1.full_resync_required ≡ false
unfolding pull visible current_seq in_pull_scope
first_page = refl

pull-Ascending_example :
    (length (pull pg access none (ask 0) three_rows).1.changes ≤ page_size 2)
    × (length (pull pg access none (ask 0) three_rows).1.changes ≤ 2000)
    × Ascending 0 4 (pull pg access none (ask 0) three_rows).1.changes
pull-Ascending_example =
    pull-Ascending pg access none (ask 0) three_rows three_rows-Rising first_page

second_page :
    (pull pg access none (ask 2) (pull pg access none (ask 0) three_rows).0).1.full_resync_required
    ≡ false
unfolding pull visible current_seq set_device in_pull_scope lookup
second_page = refl

from_first : 2 ≡ (pull pg access none (ask 0) three_rows).1.response_cursor
unfolding pull visible current_seq in_pull_scope
from_first = refl

pull-pull_example :
    (pull pg access none (ask 0) three_rows).1.changes
      ++ (pull pg access none (ask 2) (pull pg access none (ask 0) three_rows).0).1.changes
    ≡ map change_of (take (page_size 2 + page_size 2) (visible pg access none 0 three_rows))
pull-pull_example =
    pull-pull pg access none (ask 0) (ask 2) three_rows three_rows-Rising first_page from_first
      second_page

no_more : (pull pg access none (ask 2) three_rows).1.has_more ≡ false
unfolding pull visible current_seq in_pull_scope
no_more = refl

last_page : (pull pg access none (ask 2) three_rows).1.full_resync_required ≡ false
unfolding pull visible current_seq in_pull_scope
last_page = refl

pull_complete_example :
    (pull pg access none (ask 2) three_rows).1.changes
    ≡ map change_of (visible pg access none 2 three_rows)
pull_complete_example = pull_complete pg access none (ask 2) three_rows last_page no_more

pull-Stripped_example : All Stripped (pull pg access none (ask 0) three_rows).1.changes
pull-Stripped_example = pull-Stripped pg access none (ask 0) three_rows

pushed :
    (pull pg access none
      (ask 0)
      (apply_ops pg access (make_stop ∷ []) empty_db).0).1.full_resync_required
    ≡ false
unfolding pull visible current_seq in_pull_scope apply_ops apply_op apply_new attempt apply_write
    create success remember_op record_conflict add_conflict read insert_into store log_row place
    sync_meta sync_table entity_map entity_table is_uuid lookup set can permission_gate
    record_in_scope server_stamp sanitize spread put get encode entity_of_table number_stamp
pushed = refl

pushed_all :
    (pull pg access none (ask 0) (apply_ops pg access (make_stop ∷ []) empty_db).0).1.has_more
    ≡ false
unfolding pull visible current_seq in_pull_scope apply_ops apply_op apply_new attempt apply_write
    create success remember_op record_conflict add_conflict read insert_into store log_row place
    sync_meta sync_table entity_map entity_table is_uuid lookup set can permission_gate
    record_in_scope server_stamp sanitize spread put get encode entity_of_table number_stamp
pushed_all = refl

push-pull_example :
    (more : List LogRow) × ((apply_ops pg access (make_stop ∷ []) empty_db).0.log ≡ [] ++ more)
    × ((pull pg access none (ask 0) (apply_ops pg access (make_stop ∷ []) empty_db).0).1.changes
        ≡ map change_of more)
push-pull_example =
    push-pull pg access access (make_stop ∷ []) empty_db (ask 0) (omega arith) refl refl pushed
      pushed_all
