-- ===== src/Engine/Database.antt =====
-- The database as apps/api/src/sync/sync-engine.service.ts uses it: the tables, and a call as a
-- function of them. `Postgres` holds what the schema and the server decide: a statement may be refused
-- with an error, and leaves the database as it is then.
use newport_ms.Base.{
  ℕ, max, String, Bool, not, ◌&&◌, Option, none, some, is_some, List, [], ◌∷◌, keep, includes,
}
use newport_ms.Json.{Value, Object, str, num}
use newport_ms.Sync.Meta.{PushOutcome}

-- A row of `sync_idempotency`: its `resultJson`.
pub record Recorded : Type 0 where
  pub cached_outcome : Option PushOutcome
  pub cached_seq : Option ℕ
  pub cached_kept : List String

-- A row of `sync_conflicts`.
pub record ConflictRow : Type 0 where
  pub of_entity : String
  pub of_record : String
  pub of_device : String
  pub of_user : String
  pub strategy : String
  pub client_json : Object
  pub server_json : Object
  pub kept_fields : List String

-- A row of `sync_change_log`.
pub record LogRow : Type 0 where
  pub log_seq : ℕ
  pub log_entity : String
  pub log_record : String
  pub is_delete_op : Bool
  pub log_version : ℕ
  pub payload : Object
  pub actor : Option String
  pub log_sub_dept : Option String

-- The columns of `devices` that the engine writes.
pub record Device : Type 0 where
  pub pending_ops : ℕ
  pub last_pull_cursor : ℕ

-- The tables: a row by its table and its id. `drawn` is how many numbers the log's sequence has given.
pub record Database : Type 0 where
  pub rows : String → String → Option Object
  pub remembered : List (String × Recorded)
  pub conflicts : List ConflictRow
  pub log : List LogRow
  pub drawn : ℕ
  pub numbers : String → ℕ
  pub devices : List (String × Device)

-- The statements that can be refused. A cell is the text of a value, or null.
pub data Statement : Type 0 where
  read_row query_scope mark_deleted : (table id : String) → Statement
  draw_number : (sequence prefix : String) → Statement
  insert_row update_row : (table id : String) → List (String × Option String) → Statement
  log_conflict : ConflictRow → Statement
  remember : String → Recorded → Statement
  update_device : String → Statement
  last_value max_seq : Statement

pub record Postgres : Type 0 where
  -- `information_schema.columns` of a table.
  pub columns : String → List String
  -- Those of `createdAt` and `updatedAt` that must be given and have no default.
  pub unfilled : String → List String
  -- What a column makes of a text that is cast to its type.
  pub cast : (table column text : String) → Value
  -- A new row before any column is given.
  pub defaults : String → Object
  -- A text cast to `uuid`, as text.
  pub uuid : String → String
  -- The sections of a department.
  pub sections_of : String → List String
  -- `next_business_number` for a prefix and the number drawn.
  pub number_text : String → ℕ → String
  -- `now()` as a column keeps it.
  pub now : Value
  pub refuses : Statement → Database → Option String

-- What a call leaves: its value, or the text of an exception.
pub data Attempt (A : Type 0) : Type 0 where
  finished : A → Database → Attempt A
  failed : String → Database → Attempt A

abbrev pub Action : Type 0 → Type 0
Action A = Database → Attempt A

abbrev pub resume : {A B : Type 0} → Attempt A → (A → Action B) → Attempt B
resume (finished a db) next = next a db
resume (failed e db) next = failed e db

infixl 6 ◌>>=◌ ◌>>◌
abbrev pub ◌>>=◌ : {A B : Type 0} → Action A → (A → Action B) → Action B
m >>= next = λ db. resume (m db) next

abbrev pub ◌>>◌ : {B : Type 0} → Action (Unit {0}) → Action B → Action B
m >> next = m >>= λ u. next

abbrev pub return : {A : Type 0} → A → Action A
return a = λ db. finished a db

abbrev pub raise : {A : Type 0} → String → Action A
raise e = λ db. failed e db

abbrev pub modify : (Database → Database) → Action (Unit {0})
modify f = λ db. finished tt (f db)

abbrev pub choose_refusal : {A : Type 0} → Option String → Action A → Action A
choose_refusal none act = act
choose_refusal (some e) act = raise e

-- A statement that the database may refuse.
abbrev pub tried : {A : Type 0} → Postgres → Statement → Action A → Action A
tried pg st act = λ db. choose_refusal (pg.refuses st db) act db

abbrev pub done : Attempt (Unit {0}) → Attempt (Unit {0})
done (finished u db) = finished tt db
done (failed e db) = finished tt db

-- `.catch(() => undefined)`
abbrev pub ignoring : Action (Unit {0}) → Action (Unit {0})
ignoring act = λ db. done (act db)

-- `COALESCE(MAX(seq), 0)` over the log.
abbrev pub last_logged : List LogRow → ℕ
last_logged [] = 0
last_logged (r ∷ rs) = max r.log_seq (last_logged rs)

-- `last_value` of the log's sequence, which is 1 before a number is drawn, or, if that query is refused,
-- the greatest number of the log.
abbrev pub seq_of : Option String → Database → ℕ
seq_of none db = max 1 db.drawn
seq_of (some e) db = last_logged db.log

-- The end of `currentSeq`, from the refusal of its first query.
abbrev pub current_seq_after : Postgres → Option String → Action ℕ
current_seq_after pg none db = finished (seq_of none db) db
current_seq_after pg (some e) db = tried pg max_seq (λ d. finished (seq_of (some e) d) d) db

-- `currentSeq()`: the first query's refusal is caught, the second's is not.
unfoldable pub current_seq : Postgres → Action ℕ
current_seq pg db = current_seq_after pg (pg.refuses last_value db) db

-- Whether neither query tells the number.
abbrev pub is_unread : Postgres → Database → Bool
is_unread pg db = is_some (pg.refuses last_value db) && is_some (pg.refuses max_seq db)

abbrev pub text_of : Option Value → Option String
text_of (some (str s)) = some s
text_of _ = none

abbrev pub or_text : Option String → String → String
or_text none t = t
or_text (some s) t = s

abbrev pub first_of : Option String → Option String → Option String
first_of none b = b
first_of (some a) b = some a

abbrev pub version_of : Option Value → ℕ
version_of (some (num n)) = n
version_of _ = 1

abbrev pub without : List String → Object → Object
without ks o = keep (λ (m : String × Value). not (includes ks m.0)) o
