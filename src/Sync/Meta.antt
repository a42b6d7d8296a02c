-- ===== src/Sync/Meta.antt =====
-- The table of synchronised entities, the operations that devices send, and what the server answers:
-- the types of packages/domain/src/sync.ts. An entity is the name that is sent. The Arabic descriptions
-- are left out, and so are two members of an operation that nothing reads (`seq`, `localWarnings`).
use newport_ms.Base.{ℕ, String, Bool, true, false, Option, none, some, List, [], ◌∷◌, str_eq, find}
use newport_ms.Json.{Object}

abbrev pub schema_version : ℕ
schema_version = 3

-- `MergeStrategy`
pub data MergeStrategy : Type 0 where
  server_wins field_merge append_only reject : MergeStrategy

-- `SyncEntityMeta`; an absent list of fields is the empty one, as each reader takes it.
pub record SyncEntityMeta : Type 0 where
  pub entity : String
  pub table : String
  pub merge : MergeStrategy
  pub push_priority : ℕ
  pub client_generated_ids : Bool
  pub protected_fields : List String
  pub append_fields : List String
  pub rest_only : Bool

-- `SYNC_META`, in the order of `SYNC_ENTITIES`.
unfoldable pub sync_table : List SyncEntityMeta
sync_table =
    record {
      entity = "workOrder";
      table = "work_orders";
      merge = field_merge;
      push_priority = 2;
      client_generated_ids = true;
      protected_fields =
          "status" ∷ "approverId" ∷ "partsCost" ∷ "laborCost" ∷ "contractorCost" ∷ "assetId"
          ∷ "targetEndAt" ∷ [];
      append_fields = "description" ∷ [];
      rest_only = false;
    }
    ∷ record {
      entity = "workOrderLog";
      table = "wo_logs";
      merge = append_only;
      push_priority = 1;
      client_generated_ids = true;
      protected_fields = [];
      append_fields = [];
      rest_only = false;
    }
    ∷ record {
      entity = "laborEntry";
      table = "wo_labor_entries";
      merge = append_only;
      push_priority = 2;
      client_generated_ids = true;
      protected_fields = [];
      append_fields = [];
      rest_only = false;
    }
    ∷ record {
      entity = "partIssue";
      table = "part_requisitions";
      merge = reject;
      push_priority = 1;
      client_generated_ids = false;
      protected_fields = [];
      append_fields = [];
      rest_only = false;
    }
    ∷ record {
      entity = "shiftLog";
      table = "production_shift_logs";
      merge = field_merge;
      push_priority = 1;
      client_generated_ids = true;
      protected_fields = "status" ∷ "approvedById" ∷ "approvedAt" ∷ [];
      append_fields = "notes" ∷ "eventsJson" ∷ [];
      rest_only = false;
    }
    ∷ record {
      entity = "processParam";
      table = "process_parameters";
      merge = append_only;
      push_priority = 2;
      client_generated_ids = true;
      protected_fields = [];
      append_fields = [];
      rest_only = false;
    }
    ∷ record {
      entity = "downtime";
      table = "equipment_downtimes";
      merge = field_merge;
      push_priority = 1;
      client_generated_ids = true;
      protected_fields = "verifiedById" ∷ "verifiedAt" ∷ [];
      append_fields = "causeNotes" ∷ [];
      rest_only = false;
    }
    ∷ record {
      entity = "alarmAck";
      table = "production_alarms";
      merge = append_only;
      push_priority = 1;
      client_generated_ids = true;
      protected_fields = [];
      append_fields = [];
      rest_only = false;
    }
    ∷ record {
      entity = "labSample";
      table = "lab_samples";
      merge = field_merge;
      push_priority = 2;
      client_generated_ids = true;
      protected_fields = "status" ∷ "workOrderId" ∷ [];
      append_fields = [];
      rest_only = false;
    }
    ∷ record {
      entity = "labResult";
      table = "lab_results";
      merge = field_merge;
      push_priority = 2;
      client_generated_ids = true;
      protected_fields = "verifiedById" ∷ "verifiedAt" ∷ [];
      append_fields = "remarks" ∷ [];
      rest_only = false;
    }
    ∷ record {
      entity = "permit";
      table = "permits_to_work";
      merge = reject;
      push_priority = 1;
      client_generated_ids = true;
      protected_fields = "status" ∷ "areaApproverId" ∷ "hseApproverId" ∷ "closedAt" ∷ [];
      append_fields = [];
      rest_only = false;
    }
    ∷ record {
      entity = "asset";
      table = "assets";
      merge = server_wins;
      push_priority = 3;
      client_generated_ids = false;
      protected_fields = [];
      append_fields = [];
      rest_only = false;
    }
    ∷ record {
      entity = "assetReading";
      table = "asset_readings";
      merge = append_only;
      push_priority = 2;
      client_generated_ids = true;
      protected_fields = [];
      append_fields = [];
      rest_only = false;
    }
    ∷ record {
      entity = "pmPlanInstance";
      table = "pm_plan_instances";
      merge = server_wins;
      push_priority = 2;
      client_generated_ids = false;
      protected_fields = [];
      append_fields = [];
      rest_only = false;
    }
    ∷ record {
      entity = "attendancePunch";
      table = "attendance_punches";
      merge = append_only;
      push_priority = 3;
      client_generated_ids = true;
      protected_fields = [];
      append_fields = [];
      rest_only = false;
    }
    ∷ record {
      entity = "leaveRequest";
      table = "leave_requests";
      merge = field_merge;
      push_priority = 3;
      client_generated_ids = true;
      protected_fields = "status" ∷ "approverUserId" ∷ "decidedAt" ∷ [];
      append_fields = [];
      rest_only = false;
    }
    ∷ record {
      entity = "mobileFormRecord";
      table = "mobile_form_records";
      merge = append_only;
      push_priority = 1;
      client_generated_ids = true;
      protected_fields = [];
      append_fields = [];
      rest_only = false;
    }
    ∷ record {
      entity = "document";
      table = "documents";
      merge = append_only;
      push_priority = 3;
      client_generated_ids = true;
      protected_fields = [];
      append_fields = [];
      rest_only = true;
    }
    ∷ record {
      entity = "notificationAck";
      table = "notifications";
      merge = append_only;
      push_priority = 3;
      client_generated_ids = false;
      protected_fields = [];
      append_fields = [];
      rest_only = false;
    }
    ∷ []

-- `SYNC_META[entity]`
unfoldable pub sync_meta : String → Option SyncEntityMeta
unfolding sync_table
sync_meta entity = find (λ m. str_eq m.entity entity) sync_table

-- `OpKind`
pub data OpKind : Type 0 where
  upsert patch delete : OpKind

-- `ChangeOp`
pub record ChangeOp : Type 0 where
  pub op_id : String
  pub op_entity : String
  pub record_id : String
  pub kind : OpKind
  pub fields : Option Object
  pub base_version : Option ℕ
  pub client_timestamp : String

-- `PushRequest`
pub record PushRequest : Type 0 where
  pub device_id : String
  pub user_id : String
  pub request_schema : ℕ
  pub ops : List ChangeOp

-- `PushOutcome`
pub data PushOutcome : Type 0 where
  applied merged conflict rejected deduplicated : PushOutcome

-- `PushResult`
pub record PushResult : Type 0 where
  pub result_op_id : String
  pub result_record_id : String
  pub outcome : PushOutcome
  pub server_version : Option ℕ
  pub server_seq : Option ℕ
  pub server_record : Option Object
  pub server_kept_fields : List String
  pub reason_ar : Option String

-- `PushResponse`
pub record PushResponse : Type 0 where
  pub next_cursor : ℕ
  pub results : List PushResult

-- `PullChange`
pub record PullChange : Type 0 where
  pub seq : ℕ
  pub change_entity : String
  pub change_record_id : String
  pub version : ℕ
  pub deleted : Bool
  pub change_data : Object

-- `PullRequest`
pub record PullRequest : Type 0 where
  pub pull_device_id : String
  pub since_cursor : ℕ
  pub limit : ℕ

-- `PullResponse`
pub record PullResponse : Type 0 where
  pub server_time : Option String
  pub response_cursor : ℕ
  pub has_more : Bool
  pub changes : List PullChange
  pub full_resync_required : Bool
  pub resync_reason : Option String

-- `mergePolicyOf(entity)`
abbrev pub merge_or_reject : Option SyncEntityMeta → MergeStrategy
merge_or_reject none = reject
merge_or_reject (some m) = m.merge

unfoldable pub merge_policy_of : String → MergeStrategy
merge_policy_of entity = merge_or_reject (sync_meta entity)

-- `tableOf(entity)`; `none` is its exception.
abbrev pub table_name : Option SyncEntityMeta → Option String
table_name none = none
table_name (some m) = some m.table

unfoldable pub table_of : String → Option String
table_of entity = table_name (sync_meta entity)
