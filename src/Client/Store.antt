-- ===== src/Client/Store.antt =====
-- `MemoryStore` of packages/domain/src/client.ts. The time at which an operation failed is an
-- argument of `fail_pending`. The queue of documents that the class holds too is not modelled here.
pub mod Laws
use Prim.Native.String.{◌++◌ as str_append}
use newport_ms.Base.{
  ℕ, suc, ◌+◌, String, Bool, true, false, not, Option, none, some, List, [], ◌∷◌, ◌++◌, map, str_eq,
  any, keep, if◌then◌else◌,
}
use newport_ms.Base.Maps.{lookup, set}
use newport_ms.Base.Maps
use newport_ms.Json.{Object}
use newport_ms.Sync.Meta.{ChangeOp, PushOutcome, merged, applied, deduplicated}

-- `EntityRecord`
pub record EntityRecord : Type 0 where
  pub id : String
  pub record_version : ℕ
  pub is_deleted : Bool
  pub record_data : Object

-- `PendingOp`
pub record PendingOp : Type 0 where
  pub op : ChangeOp
  pub attempts : ℕ
  pub last_error_at : Option String
  pub last_error : Option String

-- `LocalConflict`
pub record LocalConflict : Type 0 where
  pub conflict_op_id : String
  pub conflict_entity : String
  pub conflict_record_id : String
  pub conflict_outcome : PushOutcome
  pub reason : String
  pub server : Option Object
  pub client : Object
  pub conflict_at : String

-- `SyncStateKey`
pub data SyncStateKey : Type 0 where
  cursor schema_version_key last_push_at last_pull_at clock_skew_ms : SyncStateKey
  pending_conflicts network_online : SyncStateKey

abbrev pub state_key : SyncStateKey → String
state_key cursor = "cursor"
state_key schema_version_key = "schemaVersion"
state_key last_push_at = "lastPushAt"
state_key last_pull_at = "lastPullAt"
state_key clock_skew_ms = "clockSkewMs"
state_key pending_conflicts = "pendingConflicts"
state_key network_online = "networkOnline"

-- The fields of `MemoryStore`.
pub record MemoryStore : Type 0 where
  pub recs : List (String × EntityRecord)
  pub state : List (String × String)
  pub queue : List PendingOp
  pub confl : List (String × LocalConflict)
  pub store_seq : ℕ

-- `key(entity, id)`
abbrev pub key : String → String → String
key entity id = str_append entity (str_append ":" id)

unfoldable pub read : String → String → MemoryStore → Option EntityRecord
read entity id s = lookup (key entity id) s.recs

unfoldable pub write : String → String → EntityRecord → MemoryStore → MemoryStore
write entity id rec s = record s { recs = set (key entity id) rec s.recs }

unfoldable pub remove : String → String → MemoryStore → MemoryStore
remove entity id s = record s { recs = Maps.delete (key entity id) s.recs }

abbrev pub is_op : String → PendingOp → Bool
is_op op_id p = str_eq p.op.op_id op_id

-- An operation whose id is in the queue is not added again.
unfoldable pub add_pending : ChangeOp → MemoryStore → MemoryStore
add_pending op s = if any (is_op op.op_id) s.queue then s else record s {
  queue = s.queue ++ record { op = op; attempts = 0; last_error_at = none; last_error = none } ∷ [];
  store_seq = suc s.store_seq;
}

unfoldable pub resolve_pending : String → MemoryStore → MemoryStore
resolve_pending op_id s = record s { queue = keep (λ p. not (is_op op_id p)) s.queue }

-- The first operation with the id notes the error.
unfoldable pub fail_first : String → (error now : String) → List PendingOp → List PendingOp
fail_first op_id error now [] = []
fail_first op_id error now (p ∷ ps) =
    if is_op op_id p
    then record p { attempts = suc p.attempts; last_error = some error; last_error_at = some now }
      ∷ ps
    else p ∷ fail_first op_id error now ps

unfoldable pub fail_pending : String → (error now : String) → MemoryStore → MemoryStore
fail_pending op_id error now s = record s { queue = fail_first op_id error now s.queue }

unfoldable pub get_state : SyncStateKey → MemoryStore → Option String
get_state k s = lookup (state_key k) s.state

unfoldable pub set_state : SyncStateKey → String → MemoryStore → MemoryStore
set_state k v s = record s { state = set (state_key k) v s.state }

unfoldable pub conflicts : MemoryStore → List LocalConflict
conflicts s = map (λ c. c.1) s.confl

unfoldable pub add_conflict : LocalConflict → MemoryStore → MemoryStore
add_conflict c s = record s { confl = set c.conflict_op_id c s.confl }

unfoldable pub clear_conflict : String → MemoryStore → MemoryStore
clear_conflict op_id s = record s { confl = Maps.delete op_id s.confl }

-- `okOutcome(o)`
unfoldable pub ok_outcome : PushOutcome → Bool
ok_outcome applied = true
ok_outcome merged = true
ok_outcome deduplicated = true
ok_outcome _ = false
