-- ===== src/Engine/Gate.antt =====
-- The gates of apps/api/src/sync/sync-engine.service.ts: who may push what, and the rows within the
-- user's reach. The program's Arabic reason is given in English.
use newport_ms.Base.{
  String, Bool, true, false, not, ◌&&◌, ◌||◌, Option, none, some, is_some, List, [], ◌∷◌, str_eq,
  any, includes, if◌then◌else◌,
}
use newport_ms.Engine.Database.{finished, query_scope, tried, return, Action, Postgres}
use newport_ms.Engine.Entities.{EntityMap}
use newport_ms.Json.{Object, str, get, object_is}
use newport_ms.Sync.Meta.{ChangeOp, SyncEntityMeta, MergeStrategy, append_only}
use newport_ms.Sync.Validate.{is_delete}
use newport_ms.Security.Guard.{AccessContext, can}

abbrev pub is_append_only : MergeStrategy → Bool
is_append_only append_only = true
is_append_only _ = false

abbrev guarded_deletes : List String
guarded_deletes = "workOrder" ∷ "shiftLog" ∷ "labSample" ∷ "labResult" ∷ "permit" ∷ []

abbrev cannot : String → List String → ChangeOp → AccessContext → Bool
cannot e codes op a = str_eq op.op_entity e && not (any (can a) codes)

-- `permissionGate(op, meta, access)`
unfoldable pub permission_gate : ChangeOp → SyncEntityMeta → AccessContext → Option String
permission_gate op meta a =
    if is_delete op.kind
      && not (is_append_only meta.merge)
      && not (can a "maint.wo.cancel" || a.profile.is_facility_wide)
      && includes guarded_deletes op.op_entity
    then some "deleting needs the permission to approve or cancel"
    else if cannot "partIssue" ("wh.req.create" ∷ []) op a
    then some "requires wh.req.create"
    else if cannot "permit" ("maint.permit.create" ∷ []) op a
    then some "requires maint.permit.create"
    else if cannot "shiftLog" ("prod.log.create" ∷ []) op a
    then some "requires prod.log.create"
    else if cannot "labResult" ("lab.result.enter" ∷ []) op a
    then some "requires lab.result.enter"
    else if cannot "attendancePunch" ("hr.att.correct" ∷ "hr.att.import" ∷ []) op a
    then some "requires hr.att.correct or hr.att.import"
    else if cannot "mobileFormRecord" ("hr.form.create" ∷ []) op a
    then some "requires hr.form.create"
    else if cannot "assetReading" ("maint.condition.record" ∷ []) op a
    then some "requires maint.condition.record"
    else if cannot "laborEntry" ("maint.wo.execute" ∷ []) op a
    then some "requires maint.wo.execute"
    else if str_eq op.op_entity "pmPlanInstance" || str_eq op.op_entity "asset"
    then some "the server owns this entity"
    else none

-- A column that a condition can name.
abbrev pub named_column : Option String → Option String
named_column none = none
named_column (some c) = if str_eq c "null" then none else some c

-- Whether a row's column holds one of some texts.
abbrev pub column_in : Option String → List String → Object → Bool
column_in none ts row = false
column_in (some c) ts row = any (λ t. object_is (get c row) (str t)) ts

module _ (pg : Postgres) (a : AccessContext) (m : EntityMap) where
  -- The condition that the query has, its parts joined by `OR`.
  unfoldable pub in_reach : Object → Bool
  in_reach row =
      column_in (named_column m.sub_dept_column) (pg.sections_of a.profile.dept) row
      || column_in (named_column m.department_column) (a.profile.dept ∷ []) row
      || column_in (named_column m.creator_column) (a.user_id ∷ []) row

  abbrev pub has_scope_column : Bool
  has_scope_column =
      is_some m.sub_dept_column
      || is_some m.department_column
      || is_some (named_column m.creator_column)

  abbrev pub reached : Option Object → Bool
  reached none = false
  reached (some row) = in_reach row

  -- The answer of the query, for a record that may be missing or not.
  abbrev pub or_missing : Bool → Bool → Option Bool
  or_missing allow_missing true = some true
  or_missing allow_missing false = if allow_missing then none else some false

  abbrev pub ask_scope : String → Bool → Action (Option Bool)
  ask_scope id allow_missing =
      tried pg (query_scope m.table id)
        (λ db. finished (or_missing allow_missing (reached (db.rows m.table (pg.uuid id)))) db)

  -- `recordInScope(entity, recordId, access, allowMissing)`
  unfoldable pub record_in_scope : String → Bool → Action (Option Bool)
  record_in_scope id allow_missing =
      if a.profile.is_facility_wide
      then return (some true)
      else if not has_scope_column
      then return none
      else ask_scope id allow_missing
