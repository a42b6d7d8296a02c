-- ===== src/Engine/Gates.antt =====
-- What an operation passes before apps/api/src/sync/sync-engine.service.ts touches a record.
use newport_ms.Engine.Push.{apply_known}
use newport_ms.Engine.Push.{unless_seen}
use newport_ms.Engine.Push.{gated}
use newport_ms.Engine.Gate.{is_append_only}
use newport_ms.Sync.Validate.{is_delete}
use newport_ms.Engine.Gate.{permission_gate}
use newport_ms.Engine.Push.{attempt}
use newport_ms.Engine.Push.{caught}
use newport_ms.Security.Guard.{can}
use newport_ms.Base.Maps.{lookup}
use newport_ms.Engine.Entities.{is_uuid}
use newport_ms.Engine.Write.{refusal}
use newport_ms.Sync.Meta.{SyncEntityMeta}
use newport_ms.Sync.Meta.{sync_meta}
use newport_ms.Engine.Database.{Recorded}
use newport_ms.Engine.Push.{apply_new}
use newport_ms.Sync.Meta.{ChangeOp}
use newport_ms.Engine.Database.{Database}
use newport_ms.Engine.Database.{Postgres}
use newport_ms.Engine.Entities.{EntityMap}
use newport_ms.Engine.Entities.{entity_map}
use newport_ms.Engine.Push.{apply_op}
use newport_ms.Security.Guard.{AccessContext}
use newport_ms.Base.{
  ◌≡◌, refl, String, Bool, true, false, not, ◌&&◌, Option, none, some, is_some, if◌then◌else◌,
}

-- What is asked of an operation before the engine touches a record: its entity is known, its id
-- is valid and was not seen, its user may synchronise and write such records, the entity may be
-- written by synchronisation, and no record of events is deleted.
abbrev pub passes :
    AccessContext → ChangeOp → Database → Option SyncEntityMeta → Option EntityMap → Bool
passes a op db none m = false
passes a op db (some meta) none = false
passes a op db (some meta) (some m) =
    is_uuid op.record_id
    && (not (is_some (lookup op.op_id db.remembered))
        && (can a "sync.push"
            && (not (is_some (permission_gate op meta a))
                && (not meta.rest_only && not (is_delete op.kind && is_append_only meta.merge)))))

abbrev pub passes_gates : AccessContext → ChangeOp → Database → Bool
passes_gates a op db = passes a op db (sync_meta op.op_entity) (entity_map op.op_entity)

-- An operation that does not pass leaves the database as it was.
pub not_passed-same :
    (pg : Postgres) (a : AccessContext) (op : ChangeOp) (db : Database)
    → passes_gates a op db ≡ false
    → (apply_op pg a op db).0 ≡ db
unfolding apply_op apply_new
not_passed-same pg a op db k = at (sync_meta op.op_entity) (entity_map op.op_entity) k
  where
    open_to :
        (meta : SyncEntityMeta) (m : EntityMap) (r d : Bool)
        → not r && not d ≡ false
        → (if r
            then (db, refusal op "upload and delete through the document service")
            else if d
            then (db, refusal op "a record of events is not deleted")
            else caught op (attempt pg a op meta m db)).0
          ≡ db
    open_to meta m true d h = refl
    open_to meta m false true h = refl
    open_to meta m false false h = cc

    fresh :
        (meta : SyncEntityMeta) (m : EntityMap) (c : Bool) (g : Option String)
        → c
            && (not (is_some g)
                && (not meta.rest_only && not (is_delete op.kind && is_append_only meta.merge)))
          ≡ false
        → (if not c
            then (db, refusal op "you may not synchronise")
            else gated pg a op meta m db g).0
          ≡ db
    fresh meta m false g h = refl
    fresh meta m true (some reason) h = refl
    fresh meta m true none h =
        open_to meta m meta.rest_only (is_delete op.kind && is_append_only meta.merge) h

    looked :
        (meta : SyncEntityMeta) (m : EntityMap) (b : Bool) (o : Option Recorded)
        → b
            && (not (is_some o)
                && (can a "sync.push"
                    && (not (is_some (permission_gate op meta a))
                        && (not meta.rest_only
                            && not (is_delete op.kind && is_append_only meta.merge)))))
          ≡ false
        → (if b
            then unless_seen pg a op meta m o db
            else (db, refusal op "recordId must be a valid uuid")).0
          ≡ db
    looked meta m false o h = refl
    looked meta m true (some r) h = refl
    looked meta m true none h = fresh meta m (can a "sync.push") (permission_gate op meta a) h

    at :
        (meta : Option SyncEntityMeta) (m : Option EntityMap)
        → passes a op db meta m ≡ false
        → (apply_known pg a op meta m db).0 ≡ db
    at none m h = refl
    at (some meta) none h = refl
    at (some meta) (some m) h =
        looked meta m (is_uuid op.record_id) (lookup op.op_id db.remembered) h
