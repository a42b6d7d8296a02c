-- ===== src/Engine/Writing.antt =====
-- One walk over `applyOp` of apps/api/src/sync/sync-engine.service.ts for every condition that is
-- stated of it: what its statements keep, what a write makes of it, and what an answer needs.
use newport_ms.Base.{
  String, Bool, true, false, not, ◌&&◌, ◌||◌, Option, none, some, List, [], str_eq, includes,
}
use newport_ms.Engine.Database.{return, Database, Postgres}
use newport_ms.Engine.Statements.{next_number}
use newport_ms.Engine.Triple.{bind-Triple, if-Triple, tried-Triple, Triple}
use newport_ms.Engine.Values.{server_stamp, is_approved, safe_columns, sanitize}
use newport_ms.Engine.Gate.{ask_scope, has_scope_column, is_append_only, record_in_scope}
use newport_ms.Engine.Push.{has_work_order_stamp, is_upsert, when_inside, write_or_delete, attempt}
use newport_ms.Engine.Write.{
  data_of, changed, numbered, create_or_update, decided, delete_found, insert_data, success,
  apply_delete, apply_write, create, write_payload,
}
use newport_ms.Engine.Entities.{number_stamp, NumberStamp, EntityMap}
use newport_ms.Json.{Object, str, put, spread}
use newport_ms.Sync.Meta.{ChangeOp, PushOutcome, applied, merged, PushResult, SyncEntityMeta}
use newport_ms.Sync.Validate.{is_delete, is_patch}
use newport_ms.Sync.Resolve.{
  Resolution, apply_client, merge_fields, keep_server, refuse, is_nonempty,
}
use newport_ms.Security.Guard.{AccessContext}
use newport_ms.Engine.Plan.{
  Plan, record_conflict-Triple, record_if-Triple, answer-Triple, read-Triple, insert_into-Triple,
  update_set-Triple, set_deleted-Triple,
}

module _ {pg : Postgres} {op : ChangeOp} {a : AccessContext} {m : EntityMap}
    {I W F : Database → Type 0} {Q : PushResult → Database → Type 0}
    (p : Plan pg op a m I W F Q) where
  insert_data-Triple :
      (cols : List String) (fresh : Object) → Triple I (insert_data pg op a m.table cols fresh) Q F
  insert_data-Triple cols fresh =
      bind-Triple I F (λ u. W) Q _ _ (insert_into-Triple p _ _) (λ u. p.on_applied [])

  numbered-Triple :
      (n : Option NumberStamp) (cols : List String) (fresh : Object)
      → Triple I (numbered pg op a n m.table cols fresh) Q F
  unfolding next_number
  numbered-Triple none cols fresh = insert_data-Triple cols fresh
  numbered-Triple (some n) cols fresh =
      bind-Triple I F (λ u. I) Q _ _
        (tried-Triple I F (λ u. I) pg _ _ p.on_failure (λ db i. p.on_number _ db i))
        (λ number.
          if-Triple I F Q (str_eq number "") _ _ (answer-Triple p _ _ _ _)
            (insert_data-Triple cols (put n.col (str number) fresh)))

  create-Triple : (cols : List String) → Triple I (create pg op a m cols) Q F
  unfolding create
  create-Triple cols = if-Triple I F Q (is_patch op.kind) _ _ (answer-Triple p _ _ _ _) (
      bind-Triple I F (λ u. I) Q _ _ (record_if-Triple p _ _ _ _ _)
        (λ u.
          if-Triple I F Q
            (is_nonempty (spread (sanitize (data_of op) cols) (server_stamp op.op_entity a))) _ _
            (numbered-Triple (number_stamp op.op_entity) _ _) (answer-Triple p _ _ _ _)))

  abbrev safe : List String
  safe = safe_columns (pg.columns m.table)

  -- A payload is written with an outcome that is kept.
  write_payload-Triple :
      (existing payload : Object) (kept : List String) (o : PushOutcome)
      → ((ks : List String) → Triple W (success pg op a o ks) Q F)
      → Triple I (write_payload pg op a m safe existing payload kept o) Q F
  unfolding write_payload
  write_payload-Triple existing payload kept o s =
      if-Triple I F Q (is_nonempty (changed pg op a existing safe payload)) _ _
        (bind-Triple I F (λ u. W) Q _ _ (update_set-Triple p existing payload) (λ u. s kept))
        (if-Triple I F Q (is_nonempty kept) _ _
          (bind-Triple I F (λ u. I) Q _ _ (record_conflict-Triple p _ _ _ _)
            (λ u. answer-Triple p _ _ _ _))
          (λ db i. p.on_applied [] db (p.weaken db i)))

  decided-Triple :
      (r : Resolution) (existing : Object) → Triple I (decided pg op a r m safe existing) Q F
  decided-Triple refuse existing =
      bind-Triple I F (λ u. I) Q _ _ (record_conflict-Triple p _ _ _ _)
        (λ u. answer-Triple p _ _ _ _)
  decided-Triple keep_server existing =
      bind-Triple I F (λ u. I) Q _ _ (record_conflict-Triple p _ _ _ _)
        (λ u. answer-Triple p _ _ _ _)
  decided-Triple (merge_fields d) existing =
      write_payload-Triple existing d.merged d.kept_from_server merged p.on_merged
  decided-Triple apply_client existing = write_payload-Triple existing _ [] applied p.on_applied

  apply_write-Triple : Triple I (apply_write pg op a m) Q F
  unfolding apply_write
  apply_write-Triple =
      bind-Triple I F (λ o. I) Q _ _ (read-Triple p (safe_columns (pg.columns m.table))) step
    where
      step :
          (o : Option Object)
          → Triple I (create_or_update pg op a m (safe_columns (pg.columns m.table)) o) Q F
      step none = create-Triple _
      step (some existing) = decided-Triple _ existing

  apply_delete-Triple : (meta : SyncEntityMeta) → Triple I (apply_delete pg op a meta m) Q F
  unfolding apply_delete
  apply_delete-Triple meta =
      if-Triple I F Q (is_append_only meta.merge) _ _ (answer-Triple p _ _ _ _) (
        if-Triple I F Q (includes (safe_columns (pg.columns m.table)) "deletedAt") _ _
          (bind-Triple I F (λ o. I) Q _ _ (read-Triple p (safe_columns (pg.columns m.table))) step)
          (answer-Triple p _ _ _ _))
    where
      step : (o : Option Object) → Triple I (delete_found pg op a m o) Q F
      step none = answer-Triple p _ _ _ _
      step (some existing) =
          if-Triple I F Q (is_approved existing op.op_entity && not a.profile.is_facility_wide) _ _
            (answer-Triple p _ _ _ _)
            (bind-Triple I F (λ u. W) Q _ _ (set_deleted-Triple p) (λ u. p.on_applied []))

  record_in_scope-Triple : (b : Bool) → Triple I (record_in_scope pg a m op.record_id b) (λ o. I) F
  unfolding record_in_scope
  record_in_scope-Triple b =
      if-Triple I F (λ o. I) a.profile.is_facility_wide (return (some true)) _ (λ db i. i)
        (if-Triple I F (λ o. I) (not (has_scope_column pg a m)) (return none)
          (ask_scope pg a m op.record_id b) (λ db i. i)
          (tried-Triple I F (λ o. I) pg _ _ p.on_failure (λ db i. i)))

  write_or_delete-Triple : (meta : SyncEntityMeta) → Triple I (write_or_delete pg a op meta m) Q F
  write_or_delete-Triple meta =
      if-Triple I F Q (is_delete op.kind) _ _ (apply_delete-Triple meta) apply_write-Triple

  pub attempt-Triple : (meta : SyncEntityMeta) → Triple I (attempt pg a op meta m) Q F
  unfolding attempt
  attempt-Triple meta =
      if-Triple I F Q (not (is_upsert pg a op.kind) || not (has_work_order_stamp pg a m)) _ _
        (bind-Triple I F (λ o. I) Q _ _ (record_in_scope-Triple (is_upsert pg a op.kind)) step)
        (write_or_delete-Triple meta)
    where
      step : (o : Option Bool) → Triple I (when_inside pg a op meta m o) Q F
      step none = write_or_delete-Triple meta
      step (some true) = write_or_delete-Triple meta
      step (some false) = answer-Triple p _ _ _ _
