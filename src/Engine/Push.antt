-- ===== src/Engine/Push.antt =====
-- `push` and `applyOp` of apps/api/src/sync/sync-engine.service.ts. The queries on the remembered
-- operations, outside of its `try`, are taken to answer.
use newport_ms.Base.{
  ℕ, ◌-◌, String, Bool, true, false, not, ◌&&◌, ◌||◌, Option, none, some, is_some, List, [], ◌∷◌,
  length, if◌then◌else◌, ◌==◌,
}
use newport_ms.Base.Maps.{lookup}
use newport_ms.Engine.Database.{
  ◌>>=◌, current_seq, failed, return, Action, finished, Database, Attempt, Postgres, Recorded,
}
use newport_ms.Engine.Statements.{set_device}
use newport_ms.Engine.Gate.{permission_gate, is_append_only, record_in_scope}
use newport_ms.Engine.Write.{apply_write, apply_delete, refusal, answer}
use newport_ms.Engine.Entities.{is_uuid, entity_map, EntityMap}
use newport_ms.Sync.Meta.{
  OpKind, schema_version, ChangeOp, PushRequest, PushOutcome, deduplicated, PushResult,
  PushResponse, SyncEntityMeta, sync_meta,
}
use newport_ms.Sync.Validate.{PushError, validate_push, is_delete}
use newport_ms.Security.Guard.{AccessContext, can}

-- The exceptions of `push`.
pub data BadRequest : Type 0 where
  invalid_batch : List PushError → BadRequest
  schema_mismatch : ℕ → BadRequest

-- What `push` answers, or the exception that its last query leaves.
pub data Pushed : Type 0 where
  answered : PushResponse → Pushed
  refused : BadRequest → Pushed
  thrown : String → Pushed

abbrev outcome_or : Option PushOutcome → PushOutcome
outcome_or none = deduplicated
outcome_or (some o) = o

-- The answer to an operation that was seen before.
abbrev pub from_memory : ChangeOp → Recorded → PushResult
from_memory op r =
    record (answer op (outcome_or r.cached_outcome)
      (some "the operation was applied before: this is the server's first answer") none
      r.cached_kept) { server_seq = r.cached_seq }

-- The `catch` around the writing.
abbrev pub caught : ChangeOp → Attempt PushResult → Database × PushResult
caught op (finished r db) = (db, r)
caught op (failed e db) = (db, refusal op e)

module _ (pg : Postgres) (a : AccessContext) where
  abbrev pub write_or_delete : ChangeOp → SyncEntityMeta → EntityMap → Action PushResult
  write_or_delete op meta m =
      if is_delete op.kind then apply_delete pg op a meta m else apply_write pg op a m

  abbrev pub when_inside : ChangeOp → SyncEntityMeta → EntityMap → Option Bool → Action PushResult
  when_inside op meta m (some false) = return (refusal op "the record is out of your scope")
  when_inside op meta m _ = write_or_delete op meta m

  abbrev pub is_upsert : OpKind → Bool
  is_upsert OpKind.upsert = true
  is_upsert _ = false

  abbrev pub has_work_order_stamp : EntityMap → Bool
  has_work_order_stamp m = is_some (lookup "workOrderId" m.stamp)

  -- The `try` of `applyOp`.
  unfoldable pub attempt : ChangeOp → SyncEntityMeta → EntityMap → Action PushResult
  attempt op meta m =
      if not (is_upsert op.kind) || not (has_work_order_stamp m)
      then record_in_scope pg a m op.record_id (is_upsert op.kind) >>= when_inside op meta m
      else write_or_delete op meta m

  -- `applyOp` from the answer of `permissionGate`.
  abbrev pub gated :
      ChangeOp → SyncEntityMeta → EntityMap → Database → Option String → Database × PushResult
  gated op meta m db (some reason) = (db, refusal op reason)
  gated op meta m db none =
      if meta.rest_only
      then (db, refusal op "upload and delete through the document service")
      else if is_delete op.kind && is_append_only meta.merge
      then (db, refusal op "a record of events is not deleted")
      else caught op (attempt op meta m db)

  -- The steps of `applyOp` after the look at what was applied before.
  unfoldable pub apply_new :
      ChangeOp → SyncEntityMeta → EntityMap → Database → Database × PushResult
  apply_new op meta m db =
      if not (can a "sync.push")
      then (db, refusal op "you may not synchronise")
      else gated op meta m db (permission_gate op meta a)

  abbrev pub unless_seen :
      ChangeOp → SyncEntityMeta → EntityMap → Option Recorded → Database → Database × PushResult
  unless_seen op meta m (some r) db = (db, from_memory op r)
  unless_seen op meta m none db = apply_new op meta m db

  abbrev pub apply_known :
      ChangeOp → Option SyncEntityMeta → Option EntityMap → Database → Database × PushResult
  apply_known op none m db = (db, refusal op "unknown entity")
  apply_known op (some meta) none db = (db, refusal op "unknown entity")
  apply_known op (some meta) (some m) db =
      if is_uuid op.record_id
      then unless_seen op meta m (lookup op.op_id db.remembered) db
      else (db, refusal op "recordId must be a valid uuid")

  -- `applyOp(op, req, access)`
  unfoldable pub apply_op : ChangeOp → Database → Database × PushResult
  apply_op op db = apply_known op (sync_meta op.op_entity) (entity_map op.op_entity) db

  -- The loop over the operations of a batch.
  unfoldable pub apply_ops : List ChangeOp → Database → Database × List PushResult
  apply_ops [] db = (db, [])
  apply_ops (op ∷ ops) db =
      let (after, r) = apply_op op db in let (last, rs) = apply_ops ops after in (last, r ∷ rs)

  abbrev after_device : Attempt (Unit {0}) → Database → Database
  after_device (finished u db) old = db
  after_device (failed e db) old = old

  -- `push(req, access)`; the response's time is left out.
  unfoldable pub push : PushRequest → Database → Database × Pushed
  push req db = valid (validate_push req)
    where
      ended : List PushResult → Attempt ℕ → Database × Pushed
      ended rs (finished seq db) = (
        after_device
            (set_device pg req.device_id
              (λ d. record d { pending_ops = d.pending_ops - length req.ops }) db)
            db,
        answered (record { next_cursor = seq; results = rs }),
      )
      ended rs (failed e db) = (db, thrown e)

      finish : Database × List PushResult → Database × Pushed
      finish (after, rs) = ended rs (current_seq pg after)

      valid : List PushError → Database × Pushed
      valid (e ∷ es) = (db, refused (invalid_batch (e ∷ es)))
      valid [] =
          if schema_version == req.request_schema
          then finish (apply_ops req.ops db)
          else (db, refused (schema_mismatch req.request_schema))
