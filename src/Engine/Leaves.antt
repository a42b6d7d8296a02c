-- ===== src/Engine/Leaves.antt =====
-- From the writing to the whole of `applyOp` and `push`, apps/api/src/sync/sync-engine.service.ts.
use newport_ms.Base.{
  ◌≡◌, refl, String, Bool, true, false, not, ◌&&◌, Option, none, some, List, [], ◌∷◌, if◌then◌else◌,
}
use newport_ms.Base.Maps.{lookup}
use newport_ms.Engine.Gate.{permission_gate, is_append_only}
use newport_ms.Engine.Writing.{attempt-Triple}
use newport_ms.Engine.Plan.{Plan}
use newport_ms.Engine.Push.{
  attempt, gated, apply_known, caught, unless_seen, from_memory, apply_new, apply_op, apply_ops,
}
use newport_ms.Engine.Entities.{entity_map, is_uuid, EntityMap}
use newport_ms.Engine.Database.{failed, finished, Attempt, Recorded, Database, Postgres}
use newport_ms.Engine.Triple.{Leaves}
use newport_ms.Engine.Write.{refusal}
use newport_ms.Sync.Meta.{ChangeOp, PushResult, SyncEntityMeta, sync_meta}
use newport_ms.Sync.Validate.{is_delete}
use newport_ms.Security.Guard.{AccessContext, can}

if-either :
    (Q : Database × PushResult → Type 0) (b : Bool) (x y : Database × PushResult)
    → Q x
    → Q y
    → Q (if b then x else y)
if-either Q true x y h k = h
if-either Q false x y h k = k

module _ (pg : Postgres) (a : AccessContext) (op : ChangeOp) (I W F : Database → Type 0)
    (Q : PushResult → Database → Type 0)
    (plan : (m : EntityMap) → entity_map op.op_entity ≡ some m → Plan pg op a m I W F Q)
    (db : Database) where
  abbrev pub At : Database × PushResult → Type 0
  At x = Q x.1 x.0

  apply_new-leaves :
      (meta : SyncEntityMeta) (m : EntityMap)
      → entity_map op.op_entity ≡ some m
      → ((e : String) → Q (refusal op e) db)
      → ((e : String) (d : Database) → F d → Q (refusal op e) d)
      → I db
      → At (apply_new pg a op meta m db)
  unfolding apply_new
  apply_new-leaves meta m k plain caught_ok i =
      if-either At (not (can a "sync.push")) _ _ (plain _) (gate (permission_gate op meta a))
    where
      leaves : (t : Attempt PushResult) → Leaves Q F t → At (caught op t)
      leaves (finished r d) l = l
      leaves (failed e d) l = caught_ok e d l

      gate : (o : Option String) → At (gated pg a op meta m db o)
      gate (some reason) = plain reason
      gate none = if-either At meta.rest_only _ _ (plain _) (
          if-either At (is_delete op.kind && is_append_only meta.merge) _ _ (plain _)
            (leaves (attempt pg a op meta m db) (attempt-Triple (plan m k) meta db i)))

  -- What holds of the answer to one operation and of the database after it.
  pub apply_op-leaves :
      ((e : String) → Q (refusal op e) db)
      → ((e : String) (d : Database) → F d → Q (refusal op e) d)
      → ((r : Recorded) → lookup op.op_id db.remembered ≡ some r → Q (from_memory op r) db)
      → (lookup op.op_id db.remembered ≡ none → I db)
      → At (apply_op pg a op db)
  unfolding apply_op
  apply_op-leaves plain caught_ok seen start =
      at (sync_meta op.op_entity) (entity_map op.op_entity) refl
    where
      unseen :
          (meta : SyncEntityMeta) (m : EntityMap) (o : Option Recorded)
          → entity_map op.op_entity ≡ some m
          → lookup op.op_id db.remembered ≡ o
          → At (unless_seen pg a op meta m o db)
      unseen meta m none k h = apply_new-leaves meta m k plain caught_ok (start h)
      unseen meta m (some r) k h = seen r h

      at :
          (meta : Option SyncEntityMeta) (m : Option EntityMap)
          → entity_map op.op_entity ≡ m
          → At (apply_known pg a op meta m db)
      at none m k = plain _
      at (some meta) none k = plain _
      at (some meta) (some m) k =
          if-either At (is_uuid op.record_id) _ _
            (unseen meta m (lookup op.op_id db.remembered) k refl) (plain _)

-- A condition that every operation keeps holds after a batch.
pub apply_ops-Kept :
    (pg : Postgres) (a : AccessContext) (P : Database → Type 0)
    → ((op : ChangeOp) (db : Database) → P db → P (apply_op pg a op db).0)
    → (ops : List ChangeOp) (db : Database) → P db
    → P (apply_ops pg a ops db).0
unfolding apply_ops
apply_ops-Kept pg a P step [] db h = h
apply_ops-Kept pg a P step (op ∷ ops) db h =
    apply_ops-Kept pg a P step ops (apply_op pg a op db).0 (step op db h)
