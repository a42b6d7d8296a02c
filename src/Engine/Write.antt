-- ===== src/Engine/Write.antt =====
-- `applyWrite`, `applyDelete`, `success` and `recordConflict` of
-- apps/api/src/sync/sync-engine.service.ts. The program's Arabic texts are given in English, and
-- those that come from `resolveConflict` in short.
use newport_ms.Base.{
  String, Bool, true, false, not, ◌&&◌, Option, none, some, is_some, List, [], ◌∷◌, ◌++◌, map,
  str_eq, keep, includes, if◌then◌else◌,
}
use newport_ms.Engine.Database.{
  ◌>>=◌, current_seq, read_row, ◌>>◌, finished, return, tried, Action, Postgres, or_text,
}
use newport_ms.Engine.Statements.{
  next_number, remember_op, insert_into, set_deleted, add_conflict, update_set,
}
use newport_ms.Engine.Entities.{number_stamp, EntityMap, NumberStamp}
use newport_ms.Engine.Values.{
  is_approved, safe_columns, server_stamp, sanitize, encoded, same_value,
}
use newport_ms.Engine.Gate.{is_append_only}
use newport_ms.Json.{Value, Object, str, null, keys, get, put, spread, object_is}
use newport_ms.Sync.Meta.{
  ChangeOp, PushOutcome, applied, merged, conflict, rejected, PushResult, SyncEntityMeta,
}
use newport_ms.Sync.Validate.{is_patch}
use newport_ms.Sync.Resolve.{
  Resolution, apply_client, merge_fields, keep_server, refuse, resolve_conflict, is_nonempty,
}
use newport_ms.Security.Guard.{AccessContext}

-- `{ ...base, outcome, reasonAr, serverRecord, serverKeptFields }`
abbrev pub answer :
    ChangeOp → PushOutcome → Option String → Option Object → List String → PushResult
answer op o reason theirs kept = record {
  result_op_id = op.op_id;
  result_record_id = op.record_id;
  outcome = o;
  server_version = none;
  server_seq = none;
  server_record = theirs;
  server_kept_fields = kept;
  reason_ar = reason;
}

abbrev pub refusal : ChangeOp → String → PushResult
refusal op reason = answer op rejected (some reason) none []

abbrev pub data_of : ChangeOp → Object
data_of op = elim op.fields [ none ↦ [] | some o ↦ o ]

abbrev pub device_of : AccessContext → String
device_of a = or_text a.device_id "unknown-device"

-- `Object.keys(stamp).filter((k) => k in raw && raw[k] !== stamp[k])`
abbrev pub overridden : Object → Object → List String
overridden [] raw = []
overridden ((k, v) ∷ stamp) raw =
    let rest = overridden stamp raw in
    if is_some (get k raw) && not (object_is (get k raw) v) then k ∷ rest else rest

-- The members of an object under some keys.
abbrev pub pick : List String → Object → Object
pick [] o = []
pick (k ∷ ks) o = member (get k o) (pick ks o)
  where
    member : Option Value → Object → Object
    member none rest = rest
    member (some v) rest = (k, v) ∷ rest

-- The columns of a table, with null for one that a row lacks.
abbrev pub project : List String → Object → Object
project cols row = map (λ c. (c, elim (get c row) [ none ↦ null | some v ↦ v ])) cols

abbrev pub has_columns : List String → Bool
has_columns [] = false
has_columns (c ∷ cs) = true

module _ (pg : Postgres) where
  -- `readRow(table, id, cols)`
  unfoldable pub read : String → String → List String → Action (Option Object)
  read table id cols =
      if has_columns cols
      then tried pg (read_row table id)
          (λ db. finished (mathlib.Core.Option.map (project cols) (db.rows table (pg.uuid id))) db)
      else return none

  module _ (op : ChangeOp) (a : AccessContext) where
    -- `recordConflict(op, server, client, strategy, access, kept)`
    unfoldable pub record_conflict :
        (server client : Object) → String → List String → Action (Unit {0})
    record_conflict server client strategy kept = add_conflict pg (record {
      of_entity = op.op_entity;
      of_record = op.record_id;
      of_device = device_of a;
      of_user = a.user_id;
      strategy = strategy;
      client_json = client;
      server_json = server;
      kept_fields = kept;
    })

    abbrev pub record_if :
        Bool → (server client : Object) → String → List String → Action (Unit {0})
    record_if b server client strategy kept =
        if b then record_conflict server client strategy kept else return tt

    -- `success(base, op, outcome, kept, access)`: members that are `undefined` are not written.
    unfoldable pub success : PushOutcome → List String → Action PushResult
    success o kept = do
      seq ← current_seq pg
      remember_op pg op.op_id
          (record { cached_outcome = some o; cached_seq = some seq; cached_kept = kept })
      record_if (is_nonempty kept) [] [] "SERVER_WINS" kept
      return (record (answer op o none none kept) { server_seq = some seq })

    -- The members of the new row.
    abbrev pub members : List String → Object → List (String × Option String)
    members cols fresh =
        ("id", some op.record_id) ∷ encoded fresh
        ++ ((if includes cols "version" then ("version", some "1") ∷ [] else [])
            ++ ((if includes cols "clientOpId" then ("clientOpId", some op.op_id) ∷ [] else [])
                ++ (if includes cols "isOfflineCreated"
                    then ("isOfflineCreated", some "true") ∷ []
                    else [])))

    abbrev pub insert_data : String → List String → Object → Action PushResult
    insert_data table cols fresh = do
      insert_into pg table op.record_id (members cols fresh)
          (keep (λ n. not (is_some (get n fresh))) (pg.unfilled table))
      success applied []

    abbrev pub insert_numbered :
        String → NumberStamp → String → List String → Object → Action PushResult
    insert_numbered number n table cols fresh =
        if str_eq number ""
        then return (refusal op "no number could be made for the record")
        else insert_data table cols (put n.col (str number) fresh)

    -- The record's number is always the server's.
    abbrev pub numbered : Option NumberStamp → String → List String → Object → Action PushResult
    numbered none table cols fresh = insert_data table cols fresh
    numbered (some n) table cols fresh = do
      number ← next_number pg n.sequence n.prefix
      insert_numbered number n table cols fresh

    -- The branch of `applyWrite` for a record that is not there.
    unfoldable pub create : EntityMap → List String → Action PushResult
    create m cols =
        if is_patch op.kind
        then return (refusal op "the server has no such record")
        else record_if (is_nonempty (overridden (server_stamp op.op_entity a) (data_of op))) []
            (pick (overridden (server_stamp op.op_entity a) (data_of op)) (data_of op))
            "SERVER_STAMPED" (overridden (server_stamp op.op_entity a) (data_of op))
          >> (if is_nonempty (spread (sanitize (data_of op) cols) (server_stamp op.op_entity a))
              then numbered (number_stamp op.op_entity) m.table cols
                  (spread (sanitize (data_of op) cols) (server_stamp op.op_entity a))
              else return (refusal op "no valid fields"))

    -- The members of a payload that differ from the record.
    abbrev pub changed : Object → List String → Object → Object
    changed existing cols payload =
        keep (λ (m : String × Value). not (same_value (get m.0 existing) m.1))
          (sanitize payload cols)

    -- The end of `applyWrite`, for a payload and the fields that the server keeps.
    unfoldable pub write_payload :
        EntityMap
        → List String
        → (existing payload : Object) → List String
        → PushOutcome
        → Action PushResult
    write_payload m cols existing payload kept o =
        if is_nonempty (changed existing cols payload)
        then update_set pg m.table op.record_id (encoded (changed existing cols payload))
          >> success o kept
        else if is_nonempty kept
        then record_conflict existing (sanitize (data_of op) cols) "SERVER_WINS" kept
          >> return (
              answer op conflict (some "every field that was sent is protected on the server")
                (some existing) kept)
        else success applied []

    abbrev pub decided : Resolution → EntityMap → List String → Object → Action PushResult
    decided refuse m cols existing = do
      record_conflict existing (sanitize (data_of op) cols) "REJECTED"
          (keys (sanitize (data_of op) cols))
      return (answer op rejected (some "refused by the merge rule") (some existing) [])
    decided keep_server m cols existing = do
      record_conflict existing (sanitize (data_of op) cols) "SERVER_WINS"
          (keys (sanitize (data_of op) cols))
      return (
          answer op conflict (some "the server's version is kept") (some existing)
            (keys (sanitize (data_of op) cols)))
    decided (merge_fields d) m cols existing =
        write_payload m cols existing d.merged d.kept_from_server merged
    decided apply_client m cols existing =
        write_payload m cols existing (sanitize (data_of op) cols) [] applied

    -- The branch of `applyWrite` for a record that is there.
    abbrev pub update : EntityMap → List String → Object → Action PushResult
    update m cols existing =
        decided
          (resolve_conflict op.op_entity existing (sanitize (data_of op) cols)
            (is_approved existing op.op_entity))
          m cols existing

    abbrev pub create_or_update : EntityMap → List String → Option Object → Action PushResult
    create_or_update m cols none = create m cols
    create_or_update m cols (some existing) = update m cols existing

    -- `applyWrite(op, req, access, base)`
    unfoldable pub apply_write : EntityMap → Action PushResult
    apply_write m = do
      existing ← read m.table op.record_id (safe_columns (pg.columns m.table))
      create_or_update m (safe_columns (pg.columns m.table)) existing

    abbrev pub delete_found : EntityMap → Option Object → Action PushResult
    delete_found m none = return (answer op applied (some "there is no record") none [])
    delete_found m (some existing) =
        if is_approved existing op.op_entity && not a.profile.is_facility_wide
        then return (refusal op "the record is approved")
        else set_deleted pg m.table op.record_id >> success applied []

    -- `applyDelete(op, access, base)`
    unfoldable pub apply_delete : SyncEntityMeta → EntityMap → Action PushResult
    apply_delete meta m =
        if is_append_only meta.merge
        then return (refusal op "a record of events is not deleted")
        else if includes (safe_columns (pg.columns m.table)) "deletedAt"
        then read m.table op.record_id (safe_columns (pg.columns m.table)) >>= delete_found m
        else return (refusal op "the entity cannot be deleted")
