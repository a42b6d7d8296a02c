-- ===== src/Engine/Refused.antt =====
-- Operations that are not applied: apps/api/src/sync/sync-engine.service.ts.
use newport_ms.Engine.Database.{is_unread}
use newport_ms.Engine.Plan.{unread-Leaves}
use newport_ms.Base.{◌≡◌, refl, String, Bool, true, false, List, [], inl, inr, ◌⊎◌}
use newport_ms.Engine.Plan.{record_if-keeps, Plan}
use newport_ms.Engine.Triple.{tried-Triple, ignoring-Triple, bind-Triple, Triple}
use newport_ms.Engine.Leaves.{apply_op-leaves}
use newport_ms.Engine.Database.{Database, Postgres}
use newport_ms.Engine.Statements.{remember_op}
use newport_ms.Engine.Entities.{EntityMap}
use newport_ms.Engine.Push.{apply_op}
use newport_ms.Engine.Write.{success}
use newport_ms.Sync.Meta.{ChangeOp, PushOutcome, applied, merged, PushResult}
use newport_ms.Sync.Resolve.{is_nonempty}
use newport_ms.Security.Guard.{AccessContext}

-- Whether the device is told that its operation is in the tables.
abbrev pub is_taken : PushOutcome → Bool
is_taken applied = true
is_taken merged = true
is_taken _ = false

-- The tables with their log, and the operations that are remembered.
abbrev pub SameTables : Database → Database → Type 0
SameTables old db =
    (db.rows ≡ old.rows)
    × (db.log ≡ old.log)
    × (db.drawn ≡ old.drawn)
    × (db.remembered ≡ old.remembered)

-- The tables are as they were, or the log's number cannot be told.
abbrev pub SameOrUnread : Postgres → Database → Database → Type 0
SameOrUnread pg old db = SameTables old db ⊎ (is_unread pg db ≡ true)

abbrev TakenOrSame : Postgres → Database → PushResult → Database → Type 0
TakenOrSame pg old r db = (is_taken r.outcome ≡ true) ⊎ SameOrUnread pg old db

success-taken :
    (pg : Postgres) (op : ChangeOp) (a : AccessContext) (o : PushOutcome) (kept : List String)
    (old : Database)
    → is_taken o ≡ true
    → Triple (λ d. Unit {0}) (success pg op a o kept) (TakenOrSame pg old) (SameOrUnread pg old)
unfolding success remember_op
success-taken pg op a o kept old h =
    bind-Triple (λ d. Unit) (SameOrUnread pg old) (λ seq d. Unit) (TakenOrSame pg old) _ _
      (λ db i. unread-Leaves pg (λ d. Unit) (SameOrUnread pg old) db i inr)
      (λ seq.
        bind-Triple (λ d. Unit) (SameOrUnread pg old) (λ u d. Unit) (TakenOrSame pg old) _ _
          (ignoring-Triple (λ d. Unit) (SameOrUnread pg old) _
            (tried-Triple (λ d. Unit) (λ d. Unit) (λ u d. Unit) pg _ _ (λ d i. tt) (λ d i. tt)))
          (λ u.
            bind-Triple (λ d. Unit) (SameOrUnread pg old) (λ v d. Unit) (TakenOrSame pg old) _ _
              (record_if-keeps pg op a (λ d. Unit) (SameOrUnread pg old) (λ row d l. tt)
                (is_nonempty kept) [] [] "SERVER_WINS" kept)
              (λ v d l. inl h)))

refusing :
    (pg : Postgres) (op : ChangeOp) (a : AccessContext) (old : Database) (m : EntityMap)
    → Plan pg op a m (SameTables old) (λ d. Unit) (SameOrUnread pg old) (TakenOrSame pg old)
refusing pg op a old m = record {
  on_conflict = λ row db h. h;
  on_number = λ ns db h. h;
  on_insert = λ ms audit db h e k. tt;
  on_update = λ existing payload x db h e k. tt;
  on_delete = λ x db h e k. tt;
  weaken = λ db h. tt;
  on_answer = λ o reason theirs kept db h. inr (inl h);
  on_applied = λ kept. success-taken pg op a applied kept old refl;
  on_merged = λ kept. success-taken pg op a merged kept old refl;
  on_failure = λ db h. inl h;
}

-- An operation that is not answered as applied or merged (it is refused, is in conflict with the
-- server's record, or meets an error of the database) leaves every record, the log of changes and the
-- remembered operations as they were, unless after it both queries for the log's number are refused.
pub apply_op-SameTables :
    (pg : Postgres) (a : AccessContext) (op : ChangeOp) (db : Database)
    → is_taken (apply_op pg a op db).1.outcome ≡ false
    → SameTables db (apply_op pg a op db).0 ⊎ (is_unread pg (apply_op pg a op db).0 ≡ true)
apply_op-SameTables pg a op db h = same (
    apply_op-leaves pg a op (SameTables db) (λ d. Unit) (SameOrUnread pg db) (TakenOrSame pg db)
      (λ m e. refusing pg op a db m) db (λ e. inr unchanged) (λ e d f. inr f) (λ r g. inr unchanged)
      (λ g. (refl, refl, refl, refl)))
  where
    unchanged : SameOrUnread pg db db
    unchanged = inl (refl, refl, refl, refl)

    same :
        TakenOrSame pg db (apply_op pg a op db).1 (apply_op pg a op db).0
        → SameOrUnread pg db (apply_op pg a op db).0
    same (inl e) = cc (e, h)
    same (inr s) = s
