-- ===== src/Engine/Statements.antt =====
-- What the statements of apps/api/src/sync/sync-engine.service.ts do to the tables, and the triggers of
-- apps/api/prisma/migrations that run on them.
use newport_ms.Engine.Database.{finished}
use newport_ms.Engine.Database.{draw_number}
use newport_ms.Engine.Database.{failed}
use newport_ms.Engine.Database.{insert_row}
use newport_ms.Engine.Database.{log_conflict}
use newport_ms.Engine.Database.{mark_deleted}
use newport_ms.Engine.Database.{remember}
use newport_ms.Engine.Database.{update_device}
use newport_ms.Engine.Database.{update_row}
use newport_ms.Base.{
  ℕ, suc, String, Bool, false, not, ◌&&◌, ◌||◌, Option, none, some, is_some, List, [], ◌∷◌, ◌++◌,
  map, str_eq, find, includes, if◌then◌else◌,
}
use newport_ms.Base.Maps.{lookup, set}
use newport_ms.Json.{Value, Object, num, null, get, put, spread}
use newport_ms.Sync.Meta.{SyncEntityMeta, sync_table}
use newport_ms.Engine.Database.{
  Action, ConflictRow, Database, Device, LogRow, Postgres, Recorded, first_of, ignoring, modify,
  or_text, raise, return, text_of, tried, version_of, without,
}

abbrev named : Option SyncEntityMeta → String
named none = ""
named (some m) = m.entity

-- The entity of a table in `sync_entity_registry`, which lists those of `SYNC_META`.
unfoldable pub entity_of_table : String → String
unfolding sync_table
entity_of_table t = named (find (λ (m : SyncEntityMeta). str_eq m.table t) sync_table)

-- `fn_sync_changelog`: the row of the log for a row that was written.
unfoldable pub log_row : String → String → ℕ → Object → LogRow
log_row table id seq row = record {
  log_seq = seq;
  log_entity = entity_of_table table;
  log_record = or_text (text_of (get "id" row)) id;
  is_delete_op = false;
  log_version = version_of (get "version" row);
  payload = without ("passwordHash" ∷ "clientOpId" ∷ []) row;
  actor =
      first_of (text_of (get "createdById" row))
        (first_of (text_of (get "byUserId" row)) (text_of (get "loggedById" row)));
  log_sub_dept = text_of (get "subDeptId" row);
}

-- A row is kept under its own `id`, which an update may change.
unfoldable pub place :
    String → String → Object → (String → String → Option Object) → String → String → Option Object
place t i row rows u j =
    if str_eq t u && str_eq (or_text (text_of (get "id" row)) i) j
    then some row
    else if str_eq t u && str_eq i j
    then none
    else rows u j

abbrev pub put_if : Bool → String → Value → Object → Object
put_if b k v o = if b then put k v o else o

module _ (pg : Postgres) where
  abbrev pub has_column : String → String → Bool
  has_column table c = includes (pg.columns table) c

  abbrev pub cell : String → String → Option String → Value
  cell table c none = null
  cell table c (some t) = pg.cast table c t

  abbrev pub cells : String → List (String × Option String) → Object
  cells table ms = map (λ m. (m.0, cell table m.0 m.1)) ms

  -- The row is kept and logged, and takes the number of its row in the log (`fn_stamp_entity_seq`).
  unfoldable pub store : String → String → Object → Database → Database
  store table id row db = record db {
    rows =
        place table id (put_if (has_column table "syncSeq") "syncSeq" (num (suc db.drawn)) row)
          db.rows;
    log = db.log ++ log_row table id (suc db.drawn) row ∷ [];
    drawn = suc db.drawn;
  }

  abbrev pub is_versioned : String → Bool
  is_versioned table = has_column table "version" && has_column table "syncSeq"

  -- `touch_updated_at` and `fn_bump_version`, before an update.
  unfoldable pub touched : String → Object → Object → Object
  touched table old row =
      put_if (is_versioned table) "version" (num (suc (version_of (get "version" old)))) (
        put_if (is_versioned table) "syncSeq" null
          (put_if (has_column table "updatedAt") "updatedAt" pg.now row))

  abbrev pub repeats : List (String × Option String) → Bool
  repeats [] = false
  repeats (m ∷ ms) = includes (map (λ x. x.0) ms) m.0 || repeats ms

  abbrev pub stamped_now : List String → Object → Object
  stamped_now [] row = row
  stamped_now (c ∷ cs) row = stamped_now cs (put c pg.now row)

  -- Whether a row would take the id of another one.
  abbrev pub is_clash : String → String → Object → Database → Bool
  is_clash table id row db =
      not (str_eq (or_text (text_of (get "id" row)) id) id)
      && is_some (db.rows table (or_text (text_of (get "id" row)) id))

  -- The row is kept, if its id is no other row's.
  abbrev pub keep_row : String → String → Object → Action (Unit {0})
  keep_row table id row = λ db.
      if is_clash table id row db
      then failed "duplicate key value violates unique constraint" db
      else finished tt (store table id row db)

  abbrev pub insert_at :
      String
      → String
      → List (String × Option String)
      → List String
      → Option Object
      → Action (Unit {0})
  insert_at table id ms audit (some row) = raise "duplicate key value violates unique constraint"
  insert_at table id ms audit none =
      if repeats ms
      then raise "column specified more than once"
      else keep_row table id (stamped_now audit (spread (pg.defaults table) (cells table ms)))

  -- `INSERT INTO table (…) VALUES (…)`, the columns of `audit` at the current time.
  unfoldable pub insert_into :
      String → String → List (String × Option String) → List String → Action (Unit {0})
  insert_into table id ms audit =
      tried pg (insert_row table id ms)
        (λ db. insert_at table (pg.uuid id) ms audit (db.rows table (pg.uuid id)) db)

  abbrev pub rewritten : String → String → (Object → Object) → Option Object → Action (Unit {0})
  rewritten table id f none = return tt
  rewritten table id f (some old) = keep_row table id (touched table old (f old))

  -- `UPDATE table SET … WHERE id = …`
  unfoldable pub update_set : String → String → List (String × Option String) → Action (Unit {0})
  update_set table id ms = tried pg (update_row table id ms) (λ db.
      rewritten table (pg.uuid id) (λ old. spread old (cells table ms)) (db.rows table (pg.uuid id))
        db)

  -- `UPDATE table SET "deletedAt" = now() WHERE id = …`
  unfoldable pub set_deleted : String → String → Action (Unit {0})
  set_deleted table id =
      tried pg (mark_deleted table id) (λ db.
        rewritten table (pg.uuid id) (put "deletedAt" pg.now) (db.rows table (pg.uuid id)) db)

  -- `next_business_number(sequence, prefix, …)`
  unfoldable pub next_number : String → String → Action String
  next_number sequence prefix = tried pg (draw_number sequence prefix) (λ db.
      finished (pg.number_text prefix (suc (db.numbers sequence))) (record db {
        numbers = λ s. if str_eq s sequence then suc (db.numbers s) else db.numbers s;
      }))

  abbrev pub insert_new : String → Recorded → Option Recorded → Database → Database
  insert_new id r none db = record db { remembered = set id r db.remembered }
  insert_new id r (some old) db = db

  -- `INSERT INTO sync_idempotency … ON CONFLICT ("opId") DO NOTHING`
  unfoldable pub remember_op : String → Recorded → Action (Unit {0})
  remember_op id r =
      ignoring
        (tried pg (remember id r) (modify (λ db. insert_new id r (lookup id db.remembered) db)))

  -- `INSERT INTO sync_conflicts …`
  unfoldable pub add_conflict : ConflictRow → Action (Unit {0})
  add_conflict row = ignoring (
      tried pg (log_conflict row)
        (modify (λ db. record db { conflicts = db.conflicts ++ row ∷ [] })))

  abbrev pub change_device : String → (Device → Device) → Option Device → Database → Database
  change_device id f none db = db
  change_device id f (some d) db = record db { devices = set id (f d) db.devices }

  -- `UPDATE devices SET … WHERE "externalId" = …`
  unfoldable pub set_device : String → (Device → Device) → Action (Unit {0})
  set_device id f =
      ignoring
        (tried pg (update_device id) (modify (λ db. change_device id f (lookup id db.devices) db)))
