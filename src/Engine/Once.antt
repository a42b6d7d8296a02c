-- ===== src/Engine/Once.antt =====
-- Operations that are sent again: apps/api/src/sync/sync-engine.service.ts.
use newport_ms.Engine.Plan.{current_seq-Triple}
use newport_ms.Base.{
  ℕ, ◌≡◌, refl, sym, subst, String, Bool, true, false, ◌&&◌, Option, none, some, is_some, List, [],
  arith, eq_iff, eq_refl, Option-cases, inl, inr, ◌⊎◌,
}
use newport_ms.Base.Maps.{lookup, lookup-set}
use newport_ms.Engine.Plan.{success-keeps, record_if-keeps, Plan}
use newport_ms.Engine.Leaves.{apply_ops-Kept, apply_op-leaves}
use newport_ms.Engine.Push.{apply_known, apply_ops, from_memory, apply_op}
use newport_ms.Engine.Database.{remember, Database, Postgres, Recorded}
use newport_ms.Engine.Statements.{insert_new, store, remember_op}
use newport_ms.Sync.Meta.{
  SyncEntityMeta, sync_meta, ChangeOp, PushOutcome, applied, merged, PushResult,
}
use newport_ms.Engine.Entities.{is_uuid, entity_map, EntityMap}
use newport_ms.Engine.Triple.{bind-Triple, Triple}
use newport_ms.Engine.Write.{success}
use newport_ms.Json.{Object}
use newport_ms.Sync.Resolve.{is_nonempty}
use newport_ms.Security.Guard.{AccessContext}

-- Two answers with one outcome, one number of the log and the same fields kept.
abbrev pub Agree : PushResult → PushResult → Type 0
Agree r s =
    (r.outcome ≡ s.outcome)
    × (r.server_seq ≡ s.server_seq)
    × (r.server_kept_fields ≡ s.server_kept_fields)

-- An answer with a number of the log is remembered.
abbrev pub Noted : ChangeOp → PushResult → Database → Type 0
Noted op r db =
    (r.server_seq ≡ none)
    ⊎ ((c : Recorded) × (lookup op.op_id db.remembered ≡ some c) × Agree (from_memory op c) r)

abbrev Unseen : ChangeOp → Database → Type 0
Unseen op db = lookup op.op_id db.remembered ≡ none

-- What is remembered under an id stays, whatever is remembered after it.
abbrev Holds : String → Recorded → Database → Type 0
Holds k r db = lookup k db.remembered ≡ some r

store-Holds :
    (pg : Postgres) (k : String) (r : Recorded) (t i : String) (row : Object) (db : Database)
    → Holds k r db
    → Holds k r (store pg t i row db)
unfolding store
store-Holds pg k r t i row db h = h

insert_new-Holds :
    (pg : Postgres) (k : String) (r : Recorded) (id : String) (c : Recorded) (db : Database)
    → Holds k r db
    → Holds k r (insert_new pg id c (lookup id db.remembered) db)
insert_new-Holds pg k r id c db h = elim (Option-cases (lookup id db.remembered)) [
  | inl e ↦ ground (arith, e, h, lookup-set k id c db.remembered, eq_iff id k)
  | inr (old, e) ↦ ground (arith, e, h)
]

success-Holds :
    (pg : Postgres) (k : String) (r : Recorded) (op : ChangeOp) (a : AccessContext)
    (o : PushOutcome) (kept : List String)
    → Triple (Holds k r) (success pg op a o kept) (λ s. Holds k r) (Holds k r)
success-Holds pg k r op a =
    success-keeps pg op a (Holds k r) (Holds k r) (λ row db h. h) (insert_new-Holds pg k r)
      (λ db h. h)

holding :
    (pg : Postgres) (k : String) (r : Recorded) (op : ChangeOp) (a : AccessContext) (m : EntityMap)
    → Plan pg op a m (Holds k r) (Holds k r) (Holds k r) (λ s. Holds k r)
holding pg k r op a m = record {
  on_conflict = λ row db h. h;
  on_number = λ ns db h. h;
  on_insert = λ ms audit db h e c. store-Holds pg k r m.table (pg.uuid op.record_id) _ db h;
  on_update =
      λ existing payload old db h e c. store-Holds pg k r m.table (pg.uuid op.record_id) _ db h;
  on_delete = λ old db h e c. store-Holds pg k r m.table (pg.uuid op.record_id) _ db h;
  weaken = λ db h. h;
  on_answer = λ o reason theirs kept db h. h;
  on_applied = success-Holds pg k r op a applied;
  on_merged = success-Holds pg k r op a merged;
  on_failure = λ db h. h;
}

apply_op-Holds :
    (pg : Postgres) (a : AccessContext) (k : String) (r : Recorded) (op : ChangeOp) (db : Database)
    → Holds k r db
    → Holds k r (apply_op pg a op db).0
apply_op-Holds pg a k r op db h =
    apply_op-leaves pg a op (Holds k r) (Holds k r) (Holds k r) (λ s. Holds k r)
      (λ m e. holding pg k r op a m) db (λ e. h) (λ e d f. f) (λ c g. h) (λ g. h)

-- Only an operation of a known entity and with a valid id is looked for.
abbrev is_well_formed : ChangeOp → Bool
is_well_formed op =
    is_some (sync_meta op.op_entity) && is_some (entity_map op.op_entity) && is_uuid op.record_id

apply_op_remembered :
    (pg : Postgres) (a : AccessContext) (op : ChangeOp) (c : Recorded) (db : Database)
    → Holds op.op_id c db
    → is_well_formed op ≡ true
    → apply_op pg a op db ≡ (db, from_memory op c)
unfolding apply_op
apply_op_remembered pg a op c db h k = at (sync_meta op.op_entity) (entity_map op.op_entity) k
  where
    at :
        (meta : Option SyncEntityMeta) (m : Option EntityMap)
        → is_some meta && is_some m && is_uuid op.record_id ≡ true
        → apply_known pg a op meta m db ≡ (db, from_memory op c)
    at none m e = cc
    at (some meta) none e = cc
    at (some meta) (some m) e = simp (e, h)

apply_op_malformed :
    (pg : Postgres) (a : AccessContext) (op : ChangeOp) (db : Database)
    → is_well_formed op ≡ false
    → (apply_op pg a op db).1.server_seq ≡ none
unfolding apply_op
apply_op_malformed pg a op db k = at (sync_meta op.op_entity) (entity_map op.op_entity) k
  where
    at :
        (meta : Option SyncEntityMeta) (m : Option EntityMap)
        → is_some meta && is_some m && is_uuid op.record_id ≡ false
        → (apply_known pg a op meta m db).1.server_seq ≡ none
    at none m e = refl
    at (some meta) none e = refl
    at (some meta) (some m) e = simp (e)

store-Unseen :
    (pg : Postgres) (op : ChangeOp) (t : String) (row : Object) (db : Database)
    → Unseen op db
    → Unseen op (store pg t (pg.uuid op.record_id) row db)
unfolding store
store-Unseen pg op t row db h = h

module _ (pg : Postgres)
    (accepts : (id : String) (r : Recorded) (db : Database)
      → pg.refuses (remember id r) db ≡ none) where
  remember_op-Triple :
      (op : ChangeOp) (r : Recorded)
      → Triple
          (Unseen op)
          (remember_op pg op.op_id r)
          (λ u db. lookup op.op_id db.remembered ≡ some r)
          (λ db. Unit)
  unfolding remember_op
  remember_op-Triple op r db h =
      simp
        (accepts op.op_id r db, h, lookup-set op.op_id op.op_id r db.remembered, eq_refl op.op_id)

  success-Triple :
      (op : ChangeOp) (a : AccessContext) (o : PushOutcome) (kept : List String)
      → Triple (Unseen op) (success pg op a o kept) (Noted op) (λ db. Unit)
  unfolding success
  success-Triple op a o kept =
      bind-Triple (Unseen op) (λ d. Unit) (λ seq. Unseen op) (Noted op) _ _
        (current_seq-Triple pg (Unseen op) (λ d. Unit) (λ d i. tt))
        (λ seq.
          bind-Triple (Unseen op) (λ d. Unit)
            (λ u d. lookup op.op_id d.remembered ≡ some (note seq)) (Noted op) _ _
            (remember_op-Triple op (note seq))
            (λ u.
              bind-Triple (λ d. lookup op.op_id d.remembered ≡ some (note seq)) (λ d. Unit)
                (λ v d. lookup op.op_id d.remembered ≡ some (note seq)) (Noted op) _ _
                (record_if-keeps pg op a _ (λ d. Unit) (λ row d l. l) (is_nonempty kept) [] []
                  "SERVER_WINS" kept)
                (λ v d l. inr (note seq, l, (refl, refl, refl)))))
    where
      note : ℕ → Recorded
      note n = record { cached_outcome = some o; cached_seq = some n; cached_kept = kept }

  noting :
      (op : ChangeOp) (a : AccessContext) (m : EntityMap)
      → Plan pg op a m (Unseen op) (Unseen op) (λ db. Unit) (Noted op)
  noting op a m = record {
    on_conflict = λ row db h. h;
    on_number = λ ns db h. h;
    on_insert = λ ms audit db h e k. store-Unseen pg op m.table _ db h;
    on_update = λ existing payload old db h e k. store-Unseen pg op m.table _ db h;
    on_delete = λ old db h e k. store-Unseen pg op m.table _ db h;
    weaken = λ db h. h;
    on_answer = λ o reason theirs kept db h. inl refl;
    on_applied = success-Triple op a applied;
    on_merged = success-Triple op a merged;
    on_failure = λ db h. tt;
  }

  -- The answer is one of a kind: with no number of the log, or remembered as it is given.
  apply_op-Noted :
      (a : AccessContext) (op : ChangeOp) (db : Database)
      → Noted op (apply_op pg a op db).1 (apply_op pg a op db).0
  apply_op-Noted a op db =
      apply_op-leaves pg a op (Unseen op) (Unseen op) (λ d. Unit) (Noted op) (λ m e. noting op a m)
        db (λ e. inl refl) (λ e d f. inl refl) (λ r h. inr (r, h, (refl, refl, refl))) (λ h. h)

  -- An operation that was answered with a number of the log, and is sent again after any further
  -- operations, by the same user or another, changes nothing, and the answer has the outcome, the
  -- number and the kept fields of the first one. The database is one that takes the row that
  -- remembers an operation.
  pub apply_op-again :
      (a b : AccessContext) (op : ChangeOp) (ops : List ChangeOp) (db : Database) (n : ℕ)
      → (apply_op pg a op db).1.server_seq ≡ some n
      → ((apply_op pg b op (apply_ops pg b ops (apply_op pg a op db).0).0).0
          ≡ (apply_ops pg b ops (apply_op pg a op db).0).0)
        × Agree
            (apply_op pg b op (apply_ops pg b ops (apply_op pg a op db).0).0).1
            (apply_op pg a op db).1
  apply_op-again a b op ops db n h = answered (apply_op-Noted a op db)
    where
      later : Database
      later = (apply_ops pg b ops (apply_op pg a op db).0).0

      known : (w : Bool) → is_well_formed op ≡ w → is_well_formed op ≡ true
      known true e = e
      known false e = cc (apply_op_malformed pg a op db e, h)

      answered :
          Noted op (apply_op pg a op db).1 (apply_op pg a op db).0
          → ((apply_op pg b op later).0 ≡ later)
            × Agree (apply_op pg b op later).1 (apply_op pg a op db).1
      answered (inl e) = cc (e, h)
      answered (inr (c, f, g)) =
          subst (λ x. (x.0 ≡ later) × Agree x.1 (apply_op pg a op db).1)
            (sym (
              apply_op_remembered pg b op c later
                (apply_ops-Kept pg b (Holds op.op_id c) (apply_op-Holds pg b op.op_id c) ops
                  (apply_op pg a op db).0 f)
                (known (is_well_formed op) refl)))
            (refl, g)
