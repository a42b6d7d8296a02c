-- ===== src/Engine/Order.antt =====
-- The log of changes under `push`, apps/api/src/sync/sync-engine.service.ts: its rows stand in
-- the order of their numbers, and it only grows.
use newport_ms.Base.{
  ℕ, suc, ◌≤◌, ◌<◌, ◌≡◌, refl, ap, ◌∙◌, String, Option, none, some, List, [], ◌∷◌, ◌++◌, arith,
}
use newport_ms.Base.Maps.{lookup}
use newport_ms.Engine.Plan.{success-keeps, Plan}
use newport_ms.Engine.Database.{Recorded, Database, LogRow, Postgres}
use newport_ms.Engine.Statements.{insert_new, log_row, store}
use newport_ms.Engine.Leaves.{apply_op-leaves, apply_ops-Kept}
use newport_ms.Engine.Push.{apply_op, apply_ops}
use newport_ms.Engine.Triple.{Triple}
use newport_ms.Engine.Entities.{EntityMap}
use newport_ms.Engine.Write.{success}
use newport_ms.Json.{Object}
use newport_ms.Sync.Meta.{ChangeOp, PushOutcome, applied, merged}
use newport_ms.Security.Guard.{AccessContext}

-- The numbers rise from above the first bound to the second one at most.
abbrev pub Rising : ℕ → List LogRow → ℕ → Type 0
Rising lo [] hi = lo ≤ hi
Rising lo (r ∷ rs) hi = (lo < r.log_seq) × Rising r.log_seq rs hi

Rising-append :
    (lo hi : ℕ) (rs : List LogRow) (r : LogRow)
    → r.log_seq ≡ suc hi
    → Rising lo rs hi
    → Rising lo (rs ++ r ∷ []) (suc hi)
Rising-append lo hi [] r e h = (omega arith, omega arith)
Rising-append lo hi (x ∷ rs) r e h = (h.0, Rising-append x.log_seq hi rs r e h.1)

append_assoc : (xs ys zs : List LogRow) → (xs ++ ys) ++ zs ≡ xs ++ (ys ++ zs)
append_assoc [] ys zs = refl
append_assoc (x ∷ xs) ys zs = ap (◌∷◌ x) (append_assoc xs ys zs)

-- The log goes on from what it was, in order, and its last number is the last that was drawn.
abbrev pub Grown : List LogRow → ℕ → Database → Type 0
Grown old from db = (more : List LogRow) × (db.log ≡ old ++ more) × Rising from more db.drawn

store-Grown :
    (pg : Postgres) (old : List LogRow) (from : ℕ) (t i : String) (row : Object) (db : Database)
    → Grown old from db
    → Grown old from (store pg t i row db)
unfolding store log_row
store-Grown pg old from t i row db (more, e, h) = (
  more ++ log_row t i (suc db.drawn) row ∷ [],
  ap (λ l. l ++ log_row t i (suc db.drawn) row ∷ []) e
      ∙ append_assoc old more (log_row t i (suc db.drawn) row ∷ []),
  Rising-append from db.drawn more (log_row t i (suc db.drawn) row) refl h,
)

insert_new-Grown :
    (pg : Postgres) (old : List LogRow) (from : ℕ) (id : String) (c : Recorded) (db : Database)
    → Grown old from db
    → Grown old from (insert_new pg id c (lookup id db.remembered) db)
insert_new-Grown pg old from id c db h = go (lookup id db.remembered)
  where
    go : (x : Option Recorded) → Grown old from (insert_new pg id c x db)
    go none = h
    go (some r) = h

success-Grown :
    (pg : Postgres) (old : List LogRow) (from : ℕ) (op : ChangeOp) (a : AccessContext)
    (o : PushOutcome) (kept : List String)
    → Triple (Grown old from) (success pg op a o kept) (λ s. Grown old from) (Grown old from)
success-Grown pg old from op a =
    success-keeps pg op a (Grown old from) (Grown old from) (λ row db h. h)
      (insert_new-Grown pg old from) (λ db h. h)

growing :
    (pg : Postgres) (old : List LogRow) (from : ℕ) (op : ChangeOp) (a : AccessContext)
    (m : EntityMap)
    → Plan pg op a m (Grown old from) (Grown old from) (Grown old from) (λ s. Grown old from)
growing pg old from op a m = record {
  on_conflict = λ row db h. h;
  on_number = λ ns db h. h;
  on_insert = λ ms audit db h e k. store-Grown pg old from m.table (pg.uuid op.record_id) _ db h;
  on_update =
      λ existing payload x db h e k. store-Grown pg old from m.table (pg.uuid op.record_id) _ db h;
  on_delete = λ x db h e k. store-Grown pg old from m.table (pg.uuid op.record_id) _ db h;
  weaken = λ db h. h;
  on_answer = λ o reason theirs kept db h. h;
  on_applied = success-Grown pg old from op a applied;
  on_merged = success-Grown pg old from op a merged;
  on_failure = λ db h. h;
}

apply_op-Grown :
    (pg : Postgres) (a : AccessContext) (old : List LogRow) (from : ℕ) (op : ChangeOp)
    (db : Database)
    → Grown old from db
    → Grown old from (apply_op pg a op db).0
apply_op-Grown pg a old from op db h =
    apply_op-leaves pg a op (Grown old from) (Grown old from) (Grown old from) (λ s. Grown old from)
      (λ m e. growing pg old from op a m) db (λ e. h) (λ e d f. f) (λ c g. h) (λ g. h)

-- A batch adds rows to the end of the log and takes none away; their numbers rise from the last
-- one that was drawn before the batch, to the last one that is drawn after it.
pub apply_ops-Grown :
    (pg : Postgres) (a : AccessContext) (ops : List ChangeOp) (db : Database)
    → Grown db.log db.drawn (apply_ops pg a ops db).0
apply_ops-Grown pg a ops db =
    apply_ops-Kept pg a (Grown db.log db.drawn) (apply_op-Grown pg a db.log db.drawn) ops db
      ([], append_nil db.log, omega arith)
  where
    append_nil : (xs : List LogRow) → xs ≡ xs ++ []
    append_nil [] = refl
    append_nil (x ∷ xs) = ap (◌∷◌ x) (append_nil xs)

pub Rising-join :
    (lo mid hi : ℕ) (xs ys : List LogRow)
    → Rising lo xs mid
    → Rising mid ys hi
    → Rising lo (xs ++ ys) hi
Rising-join lo mid hi [] ys h k = Rising-lower ys h k
  where
    Rising-lower : (zs : List LogRow) → lo ≤ mid → Rising mid zs hi → Rising lo zs hi
    Rising-lower [] h k = omega arith
    Rising-lower (z ∷ zs) h k = (omega (arith, h, k.0), k.1)
Rising-join lo mid hi (x ∷ xs) ys h k = (h.0, Rising-join x.log_seq mid hi xs ys h.1 k)
