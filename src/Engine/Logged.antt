-- ===== src/Engine/Logged.antt =====
-- Which operations of a batch change the records and the log of changes,
-- apps/api/src/sync/sync-engine.service.ts.

use newport_ms.Sync.Meta.{merged}
use newport_ms.Sync.Meta.{merged}
use newport_ms.Sync.Meta.{applied}
use newport_ms.Engine.Plan.{success-keeps}
use newport_ms.Engine.Write.{success}
use newport_ms.Engine.Triple.{Triple}
use newport_ms.Base.Maps.{lookup}
use newport_ms.Sync.Meta.{PushOutcome}
use newport_ms.Sync.Meta.{sync_table}
use newport_ms.Engine.Leaves.{apply_op-leaves}
use newport_ms.Engine.Order.{Rising}
use newport_ms.Engine.Plan.{Plan}
use newport_ms.Engine.Statements.{entity_of_table}
use newport_ms.Engine.Statements.{insert_new}
use newport_ms.Json.{Object}
use newport_ms.Engine.Database.{Recorded}
use newport_ms.Engine.Entities.{entity_table}
use newport_ms.Engine.Statements.{log_row}
use newport_ms.Sync.Meta.{ChangeOp}
use newport_ms.Engine.Database.{Database}
use newport_ms.Engine.Database.{LogRow}
use newport_ms.Engine.Database.{Postgres}
use newport_ms.Engine.Entities.{EntityMap}
use newport_ms.Engine.Entities.{entity_map}
use newport_ms.Engine.Push.{apply_op}
use newport_ms.Engine.Push.{apply_ops}
use newport_ms.Engine.Statements.{store}
use newport_ms.Security.Guard.{AccessContext}
use newport_ms.Base.{
  suc, ◌≡◌, refl, sym, ap, ◌∙◌, subst, String, Bool, true, Option, none, some, List, [], ◌∷◌, ◌++◌,
  arith, str_eq, eq_iff, all, find, Bool-cases, inl, inr, ◌⊎◌,
}
use newport_ms.Engine.Gates.{passes_gates, not_passed-same}

-- The records and the log are as they were.
abbrev pub Unlogged : Database → Database → Type 0
Unlogged db after = (after.rows ≡ db.rows) × (after.log ≡ db.log) × (after.drawn ≡ db.drawn)

-- The log has one more row, of an entity, under the next number.
abbrev pub OneMore : String → Database → Database → Type 0
OneMore e db after =
    (row : LogRow) × (after.log ≡ db.log ++ row ∷ [])
    × (row.log_seq ≡ suc db.drawn)
    × (after.drawn ≡ suc db.drawn)
    × (row.log_entity ≡ e)

abbrev OneAtMost : String → Database → Database → Type 0
OneAtMost e db after = Unlogged db after ⊎ OneMore e db after

store-OneMore :
    (pg : Postgres) (t i : String) (row : Object) (old db : Database)
    → Unlogged old db
    → OneMore (entity_of_table t) old (store pg t i row db)
unfolding store log_row
store-OneMore pg t i row old db (r, l, d) = (
  log_row t i (suc db.drawn) row,
  ap (λ x. x ++ log_row t i (suc db.drawn) row ∷ []) l,
  ap suc d,
  ap suc d,
  refl,
)

insert_new-OneAtMost :
    (pg : Postgres) (e : String) (old : Database) (id : String) (r : Recorded) (db : Database)
    → OneAtMost e old db
    → OneAtMost e old (insert_new pg id r (lookup id db.remembered) db)
insert_new-OneAtMost pg e old id r db h = go (lookup id db.remembered)
  where
    go : (o : Option Recorded) → OneAtMost e old (insert_new pg id r o db)
    go none = h
    go (some x) = h

logging :
    (pg : Postgres) (op : ChangeOp) (a : AccessContext) (m : EntityMap) (old : Database)
    → Plan pg op a m
        (Unlogged old)
        (OneAtMost (entity_of_table m.table) old)
        (OneAtMost (entity_of_table m.table) old)
        (λ r. OneAtMost (entity_of_table m.table) old)
logging pg op a m old = record {
  on_conflict = λ row db h. h;
  on_number = λ ns db h. h;
  on_insert = λ ms audit db h e k. inr (store-OneMore pg m.table (pg.uuid op.record_id) _ old db h);
  on_update = λ existing payload x db h e k.
      inr (store-OneMore pg m.table (pg.uuid op.record_id) _ old db h);
  on_delete = λ x db h e k. inr (store-OneMore pg m.table (pg.uuid op.record_id) _ old db h);
  weaken = λ db h. inl h;
  on_answer = λ o reason theirs kept db h. inl h;
  on_applied = succeeds applied;
  on_merged = succeeds merged;
  on_failure = λ db h. inl h;
}
  where
    succeeds :
        (o : PushOutcome) (kept : List String)
        → Triple
            (OneAtMost (entity_of_table m.table) old)
            (success pg op a o kept)
            (λ r. OneAtMost (entity_of_table m.table) old)
            (OneAtMost (entity_of_table m.table) old)
    succeeds =
        success-keeps pg op a (OneAtMost (entity_of_table m.table) old)
          (OneAtMost (entity_of_table m.table) old) (λ row db h. h)
          (insert_new-OneAtMost pg (entity_of_table m.table) old) (λ db h. h)

find-all :
    (p q : EntityMap → Bool) (xs : List EntityMap) (x : EntityMap)
    → all p xs ≡ true
    → find q xs ≡ some x
    → (p x ≡ true) × (q x ≡ true)
find-all p q [] x h e = cc
find-all p q (y ∷ xs) x h e = elim (Bool-cases (q y)) [
  | inl t ↦ ground (arith, h, e, t)
  | inr t ↦ find-all p q xs x (ground (arith, h)) (ground (arith, e, t))
]

-- The log names the entity of an operation's table as the operation does.
entity_map-entity_of_table :
    (e : String) (m : EntityMap) → entity_map e ≡ some m → entity_of_table m.table ≡ e
unfolding entity_map entity_table entity_of_table sync_table
entity_map-entity_of_table e m h =
    let (p, q) =
      find-all (λ x. str_eq (entity_of_table x.table) x.entity) (λ x. str_eq x.entity e)
        entity_table m refl h in
    (eq_iff (entity_of_table m.table) m.entity).0 p ∙ (eq_iff m.entity e).0 q

apply_op-OneAtMost :
    (pg : Postgres) (a : AccessContext) (op : ChangeOp) (db : Database)
    → OneAtMost op.op_entity db (apply_op pg a op db).0
apply_op-OneAtMost pg a op db =
    apply_op-leaves pg a op (Unlogged db) (OneAtMost op.op_entity db) (OneAtMost op.op_entity db)
      (λ r. OneAtMost op.op_entity db)
      (λ m e.
        subst
          (λ k.
            Plan pg op a m (Unlogged db) (OneAtMost k db) (OneAtMost k db) (λ r. OneAtMost k db))
          (entity_map-entity_of_table op.op_entity m e) (logging pg op a m db))
      db (λ e. inl (refl, refl, refl)) (λ e d f. f) (λ r g. inl (refl, refl, refl))
      (λ g. (refl, refl, refl))

-- What the rows that a batch adds to the log are: of each operation none, and then the records are
-- as they were, or one, of an operation that passed, with its entity and the next number.
abbrev pub Accounted : Postgres → AccessContext → List ChangeOp → Database → List LogRow → Type 0
Accounted pg a [] db more = more ≡ []
Accounted pg a (op ∷ ops) db more =
    ((apply_op pg a op db).0.rows ≡ db.rows) × Accounted pg a ops (apply_op pg a op db).0 more
    ⊎ (passes_gates a op db ≡ true)
      × (row : LogRow) × (rest : List LogRow) × (more ≡ row ∷ rest)
      × (row.log_seq ≡ suc db.drawn)
      × (row.log_entity ≡ op.op_entity)
      × Accounted pg a ops (apply_op pg a op db).0 rest

append_one :
    (xs : List LogRow) (x : LogRow) (ys : List LogRow) → (xs ++ x ∷ []) ++ ys ≡ xs ++ x ∷ ys
append_one [] x ys = refl
append_one (z ∷ xs) x ys = ap (◌∷◌ z) (append_one xs x ys)

append_none : (xs : List LogRow) → xs ≡ xs ++ []
append_none [] = refl
append_none (x ∷ xs) = ap (◌∷◌ x) (append_none xs)

-- A batch adds rows to the end of the log and takes none away; their numbers rise from the last one
-- that was drawn before the batch, to the last one that is drawn after it. Each operation adds none,
-- and then changes no record, or one, with the operation's entity: then its entity and its id are
-- known and valid, it was not seen before, its user may synchronise and write such records, and
-- it deletes no record of events.
pub apply_ops-Accounted :
    (pg : Postgres) (a : AccessContext) (ops : List ChangeOp) (db : Database)
    → (more : List LogRow) × ((apply_ops pg a ops db).0.log ≡ db.log ++ more)
      × Rising db.drawn more (apply_ops pg a ops db).0.drawn
      × Accounted pg a ops db more
unfolding apply_ops
apply_ops-Accounted pg a [] db = ([], append_none db.log, omega arith, refl)
apply_ops-Accounted pg a (op ∷ ops) db =
    step (apply_ops-Accounted pg a ops after) (apply_op-OneAtMost pg a op db)
  where
    after : Database
    after = (apply_op pg a op db).0

    final : Database
    final = (apply_ops pg a ops after).0

    same :
        (more : List LogRow)
        → final.log ≡ after.log ++ more
        → Rising after.drawn more final.drawn
        → Accounted pg a ops after more
        → Unlogged db after
        → (more : List LogRow) × (final.log ≡ db.log ++ more)
          × Rising db.drawn more final.drawn
          × Accounted pg a (op ∷ ops) db more
    same more e r h (rows, l, d) =
        (more, e ∙ ap (λ x. x ++ more) l, subst (λ n. Rising n more final.drawn) d r, inl (rows, h))

    step :
        (more : List LogRow) × (final.log ≡ after.log ++ more)
          × Rising after.drawn more final.drawn
          × Accounted pg a ops after more
        → OneAtMost op.op_entity db after
        → (more : List LogRow) × (final.log ≡ db.log ++ more)
          × Rising db.drawn more final.drawn
          × Accounted pg a (op ∷ ops) db more
    step (more, e, r, h) (inl u) = same more e r h u
    step (more, e, r, h) (inr (row, l, n, d, k)) = elim (Bool-cases (passes_gates a op db)) [
      | inl p ↦ (
        row ∷ more,
        e ∙ ap (λ x. x ++ more) l ∙ append_one db.log row more,
        (omega (arith, n), subst (λ x. Rising x more final.drawn) (d ∙ sym n) r),
        inr (p, row, more, refl, n, k, h),
      )
      | inr p ↦ same more e r h (
          let s = not_passed-same pg a op db p in
          (ap (λ x. x.rows) s, ap (λ x. x.log) s, ap (λ x. x.drawn) s))
    ]
