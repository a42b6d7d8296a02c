-- ===== src/Client/Tests.antt =====
-- The theorems on the device's side at a tablet that holds one downtime, and a server that refuses.
use newport_ms.Base.{◌++◌}
use newport_ms.Client.Store.{PendingOp}
use newport_ms.Client.Store.{conflicts}
use newport_ms.Base.{List}
use newport_ms.Client.Store.{read}
use newport_ms.Base.{
  List, arith, subst, ℕ, ◌+◌, ◌≡◌, ◌≢◌, refl, String, true, false, not, ◌&&◌, Option, none, some,
  [], ◌∷◌, All, str_eq, length,
}
use newport_ms.Base.Maps.{lookup}
use newport_ms.Json.{Value, num, str, get}
use newport_ms.Sync.Meta.{
  SyncEntityMeta, field_merge, sync_meta, sync_table, upsert, patch, delete, ChangeOp, PushRequest,
  PushResponse, PushResult, PullChange, rejected, conflict,
}
use newport_ms.Client.Store.{EntityRecord, LocalConflict, MemoryStore, ok_outcome}
use newport_ms.Client.Store.Laws.{waits, UniqueOps}
use newport_ms.Client.Access.{GrantPair, access_view, can, scope_of_code, view_rank}
use newport_ms.Client.Access.Laws.{rank_of, access_view-widest}
use newport_ms.Client.Remote.{apply_remote_change}
use newport_ms.Client.Remote.Laws.{remote_keeps_protected}
use newport_ms.Client.Queue.{
  SyncClient, LocalMutation, local_side, resolve_local_conflict, entity_of,
}
use newport_ms.Client.Queue.Laws.{Recorded, queue_mutation_records, forced_taken_for_work_order}
use newport_ms.Client.Session.{SyncClientOptions, SyncRunReport, apply_results, done}
use newport_ms.Client.Session.Run.{World, sync_once, first_report}
use newport_ms.Client.Session.Safe.{unaccepted_waits, sync_once-UniqueOps}
use newport_ms.Client.Session.Settled.{accepts, total, apply_results_settles}

-- What the table says of a downtime.
abbrev downtime : SyncEntityMeta
downtime = record {
  entity = "downtime";
  table = "equipment_downtimes";
  merge = field_merge;
  push_priority = 1;
  client_generated_ids = true;
  protected_fields = "verifiedById" ∷ "verifiedAt" ∷ [];
  append_fields = "causeNotes" ∷ [];
  rest_only = false;
}

abbrev stop : EntityRecord
stop = record {
  id = "d1";
  record_version = 3;
  is_deleted = false;
  record_data = ("verifiedById", str "T") ∷ ("minutes", num 45) ∷ [];
}

abbrev stop_op : ChangeOp
stop_op = record {
  op_id = "o1";
  op_entity = "downtime";
  record_id = "d1";
  kind = upsert;
  fields = some stop.record_data;
  base_version = some 2;
  client_timestamp = "2026-01-05T08:00:00Z";
}

abbrev disagreement : LocalConflict
disagreement = record {
  conflict_op_id = "o1";
  conflict_entity = "downtime";
  conflict_record_id = "d1";
  conflict_outcome = conflict;
  reason = "conflict";
  server = some (("version", num 7) ∷ []);
  client = stop.record_data;
  conflict_at = "2026-01-05T09:00:00Z";
}

abbrev memory : MemoryStore
memory = record {
  recs = ("downtime:d1", stop) ∷ [];
  state = [];
  queue = record { op = stop_op; attempts = 0; last_error_at = none; last_error = none } ∷ [];
  confl = ("o1", disagreement) ∷ [];
  store_seq = 1;
}

abbrev tablet : SyncClient
tablet = record {
  store = memory;
  op_entity = ("o1", "downtime") ∷ [];
  rec_op = ("downtime:d1", "o1") ∷ [];
  bound_user_id = none;
}

abbrev theirs : PullChange
theirs = record {
  seq = 9;
  change_entity = "downtime";
  change_record_id = "d1";
  version = 4;
  deleted = false;
  change_data = ("verifiedById", str "M") ∷ [];
}

remote_keeps_protected_example :
    (t : MemoryStore) × (rec : EntityRecord) × (apply_remote_change memory theirs (some stop)
      ≡ some (t, rec))
    × (read "downtime" "d1" t ≡ some rec)
    × (get "verifiedById" rec.record_data ≡ some (str "M"))
unfolding sync_meta sync_table get
remote_keeps_protected_example =
    remote_keeps_protected memory theirs stop downtime "verifiedById" refl refl refl
      (refl, (refl, tt)) refl refl refl

abbrev longer : LocalMutation
longer = record {
  mutation_entity = "downtime";
  mutation_id = "d1";
  mutation_kind = patch;
  mutation_data = some (("minutes", num 60) ∷ []);
}

patch_kept : patch ≢ delete
patch_kept = ground arith

queue_mutation_records_example : Recorded "o2" "2026-01-05T10:00:00Z" longer tablet
unfolding sync_meta sync_table
queue_mutation_records_example =
    queue_mutation_records "o2" "2026-01-05T10:00:00Z" longer tablet downtime refl refl patch_kept

abbrev number_of : Value → ℕ
number_of (num n) = n
number_of _ = 0

forced_taken_for_work_order_example :
    (waits "o1" (resolve_local_conflict number_of "o1" local_side "now" tablet).store ≡ false)
    × ((before : List PendingOp) × (p : PendingOp) × ((resolve_local_conflict number_of "o1"
            local_side "now" tablet).store.queue
          ≡ before ++ p ∷ [])
        × (p.op.op_id ≡ "o1-forced")
        × (p.op.op_entity ≡ "downtime")
        × (p.op.record_id ≡ "d1")
        × (p.op.fields ≡ some stop.record_data))
    × (entity_of "o1-forced" (resolve_local_conflict number_of "o1" local_side "now" tablet)
        ≡ "workOrder")
unfolding lookup conflicts
forced_taken_for_work_order_example =
    forced_taken_for_work_order number_of "o1" "now" disagreement tablet refl refl refl refl

abbrev refused : PushResult
refused = record {
  result_op_id = "o1";
  result_record_id = "d1";
  outcome = rejected;
  server_version = none;
  server_seq = none;
  server_record = none;
  server_kept_fields = [];
  reason_ar = none;
}

-- A server that refuses the tablet's operation, and has one page without changes.
abbrev world : World (Unit {0})
world = record {
  push = λ s req. (s, some (record { next_cursor = 5; results = refused ∷ [] }));
  pull = λ s req. (
    s,
    some (record {
      server_time = none;
      response_cursor = 6;
      has_more = false;
      changes = [];
      full_resync_required = false;
      resync_reason = none;
    }),
  );
  not_after = λ s t. true;
  number_of = number_of;
  skew = λ t. none;
  now = "2026-01-05T11:00:00Z";
  network_error = "fetch failed";
  type_error = "no such entity";
}

abbrev options : SyncClientOptions
options = record { device = "tablet"; user = "T"; batch_size = 200; max_pull_pages = 50 }

-- No result of the answer accepts the tablet's operation.
abbrev AcceptsNothing : Option PushResponse → Type 0
AcceptsNothing none = Unit
AcceptsNothing (some response) =
    All (λ r. (ok_outcome r.outcome && str_eq r.result_op_id "o1") ≡ false) response.results

never_accepted :
    (s : Unit {0}) (req : PushRequest) (response : PushResponse)
    → (world.push s req).1 ≡ some response
    → All (λ r. (ok_outcome r.outcome && str_eq r.result_op_id "o1") ≡ false) response.results
unfolding ok_outcome
never_accepted s req response e = subst AcceptsNothing e (refl, tt)

unaccepted_waits_example : waits "o1" (sync_once world options tt tablet).client.store ≡ true
unaccepted_waits_example = unaccepted_waits world options "o1" tt tablet never_accepted refl

sync_once-UniqueOps_example : UniqueOps (sync_once world options tt tablet).client.store.queue
sync_once-UniqueOps_example = sync_once-UniqueOps world options tt tablet (refl, tt)

abbrev blank_report : SyncRunReport
blank_report = first_report world options tablet

apply_results_settles_example :
    (d : SyncClient) × (after : SyncRunReport) × (apply_results number_of "now" "no such entity"
        (refused ∷ [])
        (tablet, blank_report)
      ≡ done (d, after))
    × (d.op_entity ≡ tablet.op_entity)
    × ((k : String) → waits k d.store ≡ (waits k memory && not (accepts k (refused ∷ []))))
    × (total after.pushed ≡ total blank_report.pushed + length (refused ∷ []))
unfolding sync_meta sync_table
apply_results_settles_example =
    apply_results_settles number_of "now" "no such entity" (refused ∷ []) tablet blank_report
      (refl, tt)

abbrev grants : List GrantPair
grants =
    record { pair_code = "maint.wo.view"; pair_scope = "SUBDEPT" }
    ∷ record { pair_code = "maint.wo.view"; pair_scope = "DEPT" }
    ∷ []

access_view-widest_example :
    (can "maint.wo.view" (access_view grants [] false) ≡ true)
    × (rank_of (scope_of_code "maint.wo.view" (access_view grants [] false)) ≡ 4)
unfolding view_rank
access_view-widest_example = access_view-widest grants [] false "maint.wo.view"
