-- ===== src/Engine/Plan.antt =====
-- What each statement of apps/api/src/sync/sync-engine.service.ts needs of a condition to keep it.
use newport_ms.Engine.Database.{current_seq_after}
use newport_ms.Base.{arith}
use newport_ms.Engine.Database.{seq_of}
use newport_ms.Engine.Database.{choose_refusal}
use newport_ms.Engine.Database.{max_seq}
use newport_ms.Engine.Database.{last_value}
use newport_ms.Engine.Database.{is_unread}
use newport_ms.Engine.Database.{current_seq}
use newport_ms.Base.{
  ℕ, ◌≡◌, refl, String, Bool, true, false, Option, none, some, List, [], ◌∷◌, ◌++◌, if◌then◌else◌,
}
use newport_ms.Base.Maps.{lookup}
use newport_ms.Engine.Database.{Recorded, finished, failed, return, ConflictRow, Database, Postgres}
use newport_ms.Engine.Statements.{
  insert_new, remember_op, is_clash, keep_row, cells, stamped_now, touched, repeats, add_conflict,
  insert_at, rewritten, store, insert_into, set_deleted, update_set,
}
use newport_ms.Engine.Triple.{Leaves, bind-Triple, ignoring-Triple, if-Triple, tried-Triple, Triple}
use newport_ms.Engine.Values.{encoded, safe_columns}
use newport_ms.Engine.Write.{
  answer, changed, has_columns, record_if, success, read, record_conflict,
}
use newport_ms.Engine.Entities.{EntityMap}
use newport_ms.Json.{Object, put, spread}
use newport_ms.Sync.Meta.{ChangeOp, PushOutcome, applied, merged, PushResult}
use newport_ms.Sync.Resolve.{is_nonempty}
use newport_ms.Security.Guard.{AccessContext}

-- `I` holds until a write, `W` after one, `Q` at an answer and `F` at an exception.
pub record Plan (pg : Postgres) (op : ChangeOp) (a : AccessContext) (m : EntityMap)
    (I W F : Database → Type 0) (Q : PushResult → Database → Type 0) : Type 0 where
  pub on_conflict :
      (row : ConflictRow) (db : Database)
      → I db
      → I (record db { conflicts = db.conflicts ++ row ∷ [] })
  pub on_number : (ns : String → ℕ) (db : Database) → I db → I (record db { numbers = ns })
  pub on_insert :
      (ms : List (String × Option String)) (audit : List String) (db : Database)
      → I db
      → db.rows m.table (pg.uuid op.record_id) ≡ none
      → is_clash pg m.table
          (pg.uuid op.record_id)
          (stamped_now pg audit (spread (pg.defaults m.table) (cells pg m.table ms)))
          db
        ≡ false
      → W (
          store pg m.table
            (pg.uuid op.record_id)
            (stamped_now pg audit (spread (pg.defaults m.table) (cells pg m.table ms)))
            db)
  pub on_update :
      (existing payload old : Object) (db : Database)
      → I db
      → db.rows m.table (pg.uuid op.record_id) ≡ some old
      → is_clash pg m.table
          (pg.uuid op.record_id)
          (touched pg m.table old (
            spread old (
              cells pg m.table
                (encoded (changed pg op a existing (safe_columns (pg.columns m.table)) payload)))))
          db
        ≡ false
      → W (
          store pg m.table
            (pg.uuid op.record_id)
            (touched pg m.table old (
              spread old (
                cells pg m.table (
                  encoded (changed pg op a existing (safe_columns (pg.columns m.table)) payload)))))
            db)
  pub on_delete :
      (old : Object) (db : Database)
      → I db
      → db.rows m.table (pg.uuid op.record_id) ≡ some old
      → is_clash pg m.table
          (pg.uuid op.record_id)
          (touched pg m.table old (put "deletedAt" pg.now old))
          db
        ≡ false
      → W (
          store pg m.table
            (pg.uuid op.record_id)
            (touched pg m.table old (put "deletedAt" pg.now old))
            db)
  pub weaken : (db : Database) → I db → W db
  pub on_answer :
      (o : PushOutcome) (reason : Option String) (theirs : Option Object) (kept : List String)
      (db : Database)
      → I db
      → Q (answer op o reason theirs kept) db
  pub on_applied : (kept : List String) → Triple W (success pg op a applied kept) Q F
  pub on_merged : (kept : List String) → Triple W (success pg op a merged kept) Q F
  pub on_failure : (db : Database) → I db → F db

-- The log's number is read, or neither query tells it.
pub unread-Leaves :
    (pg : Postgres) (I F : Database → Type 0) (db : Database)
    → I db
    → (is_unread pg db ≡ true → F db)
    → Leaves (λ seq. I) F (current_seq pg db)
unfolding current_seq
unread-Leaves pg I F db i w = first (pg.refuses last_value db) refl
  where
    second :
        (e : String) (o : Option String)
        → pg.refuses last_value db ≡ some e
        → pg.refuses max_seq db ≡ o
        → Leaves (λ seq. I) F (choose_refusal o (λ d. finished (seq_of (some e) d) d) db)
    second e none h k = i
    second e (some f) h k = w (ground (arith, h, k))

    first :
        (o : Option String)
        → pg.refuses last_value db ≡ o
        → Leaves (λ seq. I) F (current_seq_after pg o db)
    first none h = i
    first (some e) h = second e (pg.refuses max_seq db) h refl

pub current_seq-Triple :
    (pg : Postgres) (I F : Database → Type 0)
    → ((db : Database) → I db → F db)
    → Triple I (current_seq pg) (λ seq. I) F
current_seq-Triple pg I F w db i = unread-Leaves pg I F db i (λ e. w db i)

module _ (pg : Postgres) (op : ChangeOp) (a : AccessContext) (I F : Database → Type 0)
    (ok : (row : ConflictRow) (db : Database)
      → I db
      → I (record db { conflicts = db.conflicts ++ row ∷ [] })) where
  pub record_conflict-keeps :
      (server client : Object) (strategy : String) (kept : List String)
      → Triple I (record_conflict pg op a server client strategy kept) (λ u. I) F
  unfolding record_conflict add_conflict
  record_conflict-keeps server client strategy kept =
      ignoring-Triple I F _ (tried-Triple I I (λ u. I) pg _ _ (λ db i. i) (λ db i. ok _ db i))

  pub record_if-keeps :
      (b : Bool) (server client : Object) (strategy : String) (kept : List String)
      → Triple I (record_if pg op a b server client strategy kept) (λ u. I) F
  record_if-keeps true server client strategy kept =
      record_conflict-keeps server client strategy kept
  record_if-keeps false server client strategy kept = λ db i. i

  -- What the log of conflicts and the remembered operations leave alone holds after `success`.
  pub success-keeps :
      ((id : String) (c : Recorded) (db : Database)
        → I db
        → I (insert_new pg id c (lookup id db.remembered) db))
      → ((db : Database) → I db → F db)
      → (o : PushOutcome) (kept : List String) → Triple I (success pg op a o kept) (λ s. I) F
  unfolding success remember_op
  success-keeps rem weak o kept =
      bind-Triple I F (λ seq. I) (λ s. I) _ _ (current_seq-Triple pg I F weak)
        (λ seq.
          bind-Triple I F (λ u. I) (λ s. I) _ _
            (ignoring-Triple I F _
              (tried-Triple I I (λ u. I) pg _ _ (λ d i. i) (λ d i. rem op.op_id _ d i)))
            (λ u.
              bind-Triple I F (λ v. I) (λ s. I) _ _
                (record_if-keeps (is_nonempty kept) [] [] "SERVER_WINS" kept) (λ v d l. l)))

module _ {pg : Postgres} {op : ChangeOp} {a : AccessContext} {m : EntityMap}
    {I W F : Database → Type 0} {Q : PushResult → Database → Type 0}
    (p : Plan pg op a m I W F Q) where
  pub record_conflict-Triple :
      (server client : Object) (strategy : String) (kept : List String)
      → Triple I (record_conflict pg op a server client strategy kept) (λ u. I) F
  record_conflict-Triple = record_conflict-keeps pg op a I F p.on_conflict

  pub record_if-Triple :
      (b : Bool) (server client : Object) (strategy : String) (kept : List String)
      → Triple I (record_if pg op a b server client strategy kept) (λ u. I) F
  record_if-Triple = record_if-keeps pg op a I F p.on_conflict

  pub answer-Triple :
      (o : PushOutcome) (reason : Option String) (theirs : Option Object) (kept : List String)
      → Triple I (return (answer op o reason theirs kept)) Q F
  answer-Triple o reason theirs kept = λ db i. p.on_answer o reason theirs kept db i

  pub read-Triple : (cols : List String) → Triple I (read pg m.table op.record_id cols) (λ o. I) F
  unfolding read
  read-Triple cols =
      if-Triple I F (λ o. I) (has_columns cols) _ _
        (tried-Triple I F (λ o. I) pg _ _ p.on_failure (λ db i. i)) (λ db i. i)

  -- A row that is kept, or clashes with another one.
  keep_row-Leaves :
      (row : Object) (db : Database)
      → F db
      → (is_clash pg m.table (pg.uuid op.record_id) row db ≡ false
          → W (store pg m.table (pg.uuid op.record_id) row db))
      → Leaves (λ u. W) F (keep_row pg m.table (pg.uuid op.record_id) row db)
  keep_row-Leaves row db f w = go (is_clash pg m.table (pg.uuid op.record_id) row db) refl
    where
      go :
          (b : Bool)
          → is_clash pg m.table (pg.uuid op.record_id) row db ≡ b
          → Leaves
              (λ u. W)
              F
              (if b
                then failed "duplicate key value violates unique constraint" db
                else finished tt (store pg m.table (pg.uuid op.record_id) row db))
      go true e = f
      go false e = w e

  pub insert_into-Triple :
      (ms : List (String × Option String)) (audit : List String)
      → Triple I (insert_into pg m.table op.record_id ms audit) (λ u. W) F
  unfolding insert_into
  insert_into-Triple ms audit =
      tried-Triple I F (λ u. W) pg _ _ p.on_failure
        (λ db i. go db i (db.rows m.table (pg.uuid op.record_id)) refl)
    where
      go :
          (db : Database)
          → I db
          → (o : Option Object) → db.rows m.table (pg.uuid op.record_id) ≡ o
          → Leaves (λ u. W) F (insert_at pg m.table (pg.uuid op.record_id) ms audit o db)
      go db i (some row) e = p.on_failure db i
      go db i none e =
          if-Triple (λ d. (I d) × (d.rows m.table (pg.uuid op.record_id) ≡ none)) F (λ u. W)
            (repeats pg ms) _ _ (λ d h. p.on_failure d h.0) (λ d h. kept d h.0 h.1) db (i, e)
        where
          new_row : Object
          new_row = stamped_now pg audit (spread (pg.defaults m.table) (cells pg m.table ms))

          kept :
              (d : Database)
              → I d
              → d.rows m.table (pg.uuid op.record_id) ≡ none
              → Leaves (λ u. W) F (keep_row pg m.table (pg.uuid op.record_id) new_row d)
          kept d i e = keep_row-Leaves new_row d (p.on_failure d i) (p.on_insert ms audit d i e)

  rewritten-Leaves :
      (f : Object → Object) (db : Database)
      → I db
      → ((old : Object)
          → db.rows m.table (pg.uuid op.record_id) ≡ some old
          → is_clash pg m.table (pg.uuid op.record_id) (touched pg m.table old (f old)) db ≡ false
          → W (store pg m.table (pg.uuid op.record_id) (touched pg m.table old (f old)) db))
      → (o : Option Object) → db.rows m.table (pg.uuid op.record_id) ≡ o
      → Leaves (λ u. W) F (rewritten pg m.table (pg.uuid op.record_id) f o db)
  rewritten-Leaves f db i w none e = p.weaken db i
  rewritten-Leaves f db i w (some old) e =
      keep_row-Leaves (touched pg m.table old (f old)) db (p.on_failure db i) (w old e)

  pub update_set-Triple :
      (existing payload : Object)
      → Triple I
          (update_set pg m.table op.record_id
            (encoded (changed pg op a existing (safe_columns (pg.columns m.table)) payload)))
          (λ u. W)
          F
  unfolding update_set
  update_set-Triple existing payload =
      tried-Triple I F (λ u. W) pg _ _ p.on_failure
        (λ db i.
          rewritten-Leaves _ db i (λ old e k. p.on_update existing payload old db i e k)
            (db.rows m.table (pg.uuid op.record_id)) refl)

  pub set_deleted-Triple : Triple I (set_deleted pg m.table op.record_id) (λ u. W) F
  unfolding set_deleted
  set_deleted-Triple =
      tried-Triple I F (λ u. W) pg _ _ p.on_failure
        (λ db i.
          rewritten-Leaves _ db i (λ old e k. p.on_delete old db i e k)
            (db.rows m.table (pg.uuid op.record_id)) refl)
