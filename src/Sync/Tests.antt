-- ===== src/Sync/Tests.antt =====
-- The theorems on the rules of the synchronisation at concrete records and operations.
use mathlib.Core.List.{Perm, flatten}
use newport_ms.Base.{
  arith, ◌≡◌, ◌<◌, ◌≤◌, ◌↔◌, refl, String, Bool, true, false, some, [], ◌∷◌, All, length,
}
use newport_ms.Json.{num, str, Object, get, object_is}
use newport_ms.Sync.Meta.{SyncEntityMeta, field_merge, patch, ChangeOp, PushRequest}
use newport_ms.Sync.Append.{append_value, to_array, item_key}
use newport_ms.Sync.Append.Laws.{append_value_again}
use newport_ms.Sync.Merge.{merge_fieldwise}
use newport_ms.Sync.Merge.Laws.{merged_value, get-merge_fieldwise}
use newport_ms.Sync.Validate.{validate_push}
use newport_ms.Sync.Validate.Laws.{IsValid, validate_push_iff}
use newport_ms.Sync.Batches.{plan_push_batches}
use newport_ms.Sync.Batches.Laws.{RankSorted, plan_push_batches_lem}

-- What the table says of a downtime.
abbrev downtime : SyncEntityMeta
downtime = record {
  entity = "downtime";
  table = "equipment_downtimes";
  merge = field_merge;
  push_priority = 1;
  client_generated_ids = true;
  protected_fields = "verifiedById" ∷ "verifiedAt" ∷ [];
  append_fields = "causeNotes" ∷ [];
  rest_only = false;
}

abbrev theirs : Object
theirs = ("verifiedById", str "M") ∷ ("causeNotes", str "seal worn") ∷ ("minutes", num 30) ∷ []

abbrev ours : Object
ours = ("verifiedById", str "T") ∷ ("causeNotes", str "seal replaced") ∷ ("minutes", num 45) ∷ []

get-merge_fieldwise_example :
    get "minutes" (merge_fieldwise theirs ours downtime).merged
    ≡ merged_value downtime "minutes" (some (num 30)) (some (num 30)) (some (num 45))
unfolding get
get-merge_fieldwise_example =
    get-merge_fieldwise downtime theirs ours "minutes" (refl, (refl, (refl, tt)))

append_value_again_example :
    append_value (some (append_value (some (str "a")) (some (str "b")))) (some (str "b"))
    ≡ append_value (some (str "a")) (some (str "b"))
unfolding to_array item_key object_is
append_value_again_example = append_value_again (some (str "a")) (some (str "b")) (refl, tt)

abbrev stop : ChangeOp
stop = record {
  op_id = "o1";
  op_entity = "downtime";
  record_id = "d1";
  kind = patch;
  fields = some ours;
  base_version = some 2;
  client_timestamp = "2026-01-05T08:00:00Z";
}

abbrev order : ChangeOp
order = record stop { op_id = "o2"; op_entity = "workOrder"; record_id = "w1" }

abbrev request : PushRequest
request = record {
  device_id = "tablet";
  user_id = "T";
  request_schema = 3;
  ops = order ∷ stop ∷ [];
}

validate_push_iff_example : (validate_push request ≡ []) ↔ IsValid request
validate_push_iff_example = validate_push_iff request

abbrev any_order : String → String → Bool
any_order s t = true

plan_push_batches_lem_example :
    Perm (flatten (plan_push_batches any_order (order ∷ stop ∷ []) 1)) (order ∷ stop ∷ [])
    × RankSorted any_order (flatten (plan_push_batches any_order (order ∷ stop ∷ []) 1))
    × All (λ b. (0 < length b) × (length b ≤ 1)) (plan_push_batches any_order (order ∷ stop ∷ []) 1)
plan_push_batches_lem_example = plan_push_batches_lem any_order (order ∷ stop ∷ []) 1 (omega arith)
