-- ===== src/Client/Queue.antt =====
-- `SyncClient.queue`, `resolveConflict` and `entityOf` of packages/domain/src/client.ts: a change
-- made on the device, and the user's decision on a conflict. The new id and the time are arguments,
-- as is what `Number` gives of a value that the server sent as a version. The program's Arabic texts
-- are given in English.
pub mod Laws
use Prim.Native.String.{◌++◌ as str_append}
use newport_ms.Base.{
  length, ℕ, suc, ◌+◌, String, Bool, true, false, Option, none, some, List, [], ◌∷◌, str_eq, find,
  if◌then◌else◌,
}
use newport_ms.Base.Maps.{lookup, set}
use newport_ms.Json.{Value, num, Object, get, put, spread}
use newport_ms.Sync.Meta.{
  SyncEntityMeta, sync_meta, MergeStrategy, append_only, OpKind, upsert, patch, delete, ChangeOp,
  PushOutcome, conflict,
}
use newport_ms.Client.Store.{
  EntityRecord, LocalConflict, MemoryStore, key, read, write, add_pending, resolve_pending,
  conflicts, add_conflict, clear_conflict,
}
use newport_ms.Client.Remote.{data_of, is_append_only}

-- The fields of `SyncClient` that change: the store and the maps of the session.
pub record SyncClient : Type 0 where
  pub store : MemoryStore
  pub op_entity : List (String × String)
  pub rec_op : List (String × String)
  pub bound_user_id : Option String

-- `LocalMutation`
pub record LocalMutation : Type 0 where
  pub mutation_entity : String
  pub mutation_id : String
  pub mutation_kind : OpKind
  pub mutation_data : Option Object

abbrev pub version_of : Option EntityRecord → ℕ
version_of none = 0
version_of (some rec) = rec.record_version

abbrev pub or_empty : Option Object → Object
or_empty none = []
or_empty (some o) = o

-- `guard?.restOnly`
abbrev pub is_rest_only : Option SyncEntityMeta → Bool
is_rest_only none = false
is_rest_only (some meta) = meta.rest_only

-- The `data` of a change.
abbrev pub data_for : OpKind → Option EntityRecord → Option Object → Object
data_for patch current payload = spread (data_of current) (or_empty payload)
data_for _ current payload = or_empty payload

abbrev pub sent_data : OpKind → Object → Option Object
sent_data delete payload = none
sent_data _ payload = some payload

-- The record that is written for a change that does not delete.
abbrev pub changed_record : String → Option EntityRecord → Object → EntityRecord
changed_record id current payload = record {
  id = id;
  record_version = suc (version_of current);
  is_deleted = false;
  record_data = put "version" (num (suc (version_of current))) payload;
}

abbrev pub deleted_record : String → Option EntityRecord → EntityRecord
deleted_record id current = record {
  id = id;
  record_version = suc (version_of current);
  is_deleted = true;
  record_data = data_of current;
}

-- The write to the store; `none` is the exception on an entity that `SYNC_META` lacks.
abbrev pub write_change :
    OpKind → LocalMutation → Option SyncEntityMeta → Object → MemoryStore → Option MemoryStore
write_change delete m none payload s = none
write_change delete m (some meta) payload s =
    if is_append_only meta.merge
    then some s
    else some (
        write m.mutation_entity m.mutation_id
          (deleted_record m.mutation_id (read m.mutation_entity m.mutation_id s)) s)
write_change _ m meta payload s = some (
    write m.mutation_entity m.mutation_id
      (changed_record m.mutation_id (read m.mutation_entity m.mutation_id s) payload) s)

abbrev pub new_op : (new_id now : String) → LocalMutation → Option EntityRecord → ChangeOp
new_op new_id now m current = record {
  op_id = new_id;
  op_entity = m.mutation_entity;
  record_id = m.mutation_id;
  kind = m.mutation_kind;
  fields = sent_data m.mutation_kind (data_for m.mutation_kind current m.mutation_data);
  base_version = some (version_of current);
  client_timestamp = now;
}

abbrev pub enqueue :
    LocalMutation → ChangeOp → SyncClient → Option MemoryStore → Option (SyncClient × ChangeOp)
enqueue m op c none = none
enqueue m op c (some s) = some (
  record c {
    store = add_pending op s;
    op_entity = set op.op_id m.mutation_entity c.op_entity;
    rec_op = set (key m.mutation_entity m.mutation_id) op.op_id c.rec_op;
  },
  op,
)

-- `SyncClient.queue(m)`; `none` is an exception, before which nothing is written.
unfoldable pub queue_mutation :
    (new_id now : String) → LocalMutation → SyncClient → Option (SyncClient × ChangeOp)
queue_mutation new_id now m c =
    let meta = sync_meta m.mutation_entity in
    let current = read m.mutation_entity m.mutation_id c.store in
    if is_rest_only meta
    then none
    else enqueue m (new_op new_id now m current) c (
        write_change m.mutation_kind m meta (data_for m.mutation_kind current m.mutation_data)
          c.store)

-- `entityOf(opId)`
abbrev pub or_work_order : Option String → String
or_work_order none = "workOrder"
or_work_order (some entity) = entity

unfoldable pub entity_of : String → SyncClient → String
entity_of op_id c = or_work_order (lookup op_id c.op_entity)

-- `setUser(userId)` and `userId()`
unfoldable pub set_user : String → SyncClient → SyncClient
set_user user_id c = if str_eq user_id "" then c else record c { bound_user_id = some user_id }

abbrev pub or_user : Option String → String → String
or_user none user = user
or_user (some bound) user = bound

unfoldable pub user_id_of : String → SyncClient → String
user_id_of configured c = or_user c.bound_user_id configured

pub data Side : Type 0 where
  local_side server_side : Side

abbrev pub forced : String → String
forced op_id = str_append op_id "-forced"

-- `Number(value ?? otherwise)`
abbrev pub version_number : (Value → ℕ) → ℕ → Option Value → ℕ
version_number number_of otherwise none = otherwise
version_number number_of otherwise (some v) = number_of v

abbrev pub forced_op : String → LocalConflict → String → ChangeOp
forced_op op_id x now = record {
  op_id = forced op_id;
  op_entity = x.conflict_entity;
  record_id = x.conflict_record_id;
  kind = upsert;
  fields = some x.client;
  base_version = none;
  client_timestamp = now;
}

module _ (number_of : Value → ℕ) where
  -- The record that the server had.
  abbrev pub server_version : LocalConflict → EntityRecord
  server_version x = record {
    id = x.conflict_record_id;
    record_version = version_number number_of 0 (get "version" (or_empty x.server));
    is_deleted = false;
    record_data = or_empty x.server;
  }

  -- What is done for the conflict that was found.
  abbrev pub settle : Option LocalConflict → String → Side → String → MemoryStore → MemoryStore
  settle none op_id side now s = s
  settle (some x) op_id server_side now s =
      resolve_pending op_id
        (clear_conflict op_id (write x.conflict_entity x.conflict_record_id (server_version x) s))
  settle (some x) op_id local_side now s = add_pending (forced_op op_id x now) (
      resolve_pending op_id (
        clear_conflict op_id (
          add_conflict
            (record x {
              conflict_op_id = forced op_id;
              reason = "sent again after the device's version was chosen";
              conflict_outcome = conflict;
            })
            s)))

  -- `resolveConflict(opId, side)`
  unfoldable pub resolve_local_conflict : String → Side → String → SyncClient → SyncClient
  resolve_local_conflict op_id side now c = record c {
    store =
        settle (find (λ x. str_eq x.conflict_op_id op_id) (conflicts c.store)) op_id side now
          c.store;
  }

-- `pendingCount()` and `readLocal(entity, id)`
unfoldable pub pending_count : SyncClient → ℕ
pending_count c = length c.store.queue

unfoldable pub read_local : String → String → SyncClient → Option EntityRecord
read_local entity id c = read entity id c.store
