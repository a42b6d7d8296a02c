-- ===== src/Client/Remote.antt =====
-- `applyRemoteChange` and `mergeServerRecord` of packages/domain/src/client.ts. `none` is the
-- exception for an entity that `SYNC_META` lacks.
pub mod Laws
use newport_ms.Base.{
  str_eq, ◌==◌, not, [], ℕ, String, Bool, true, false, Option, none, some, ltb, if◌then◌else◌,
}
use newport_ms.Json.{null, get, str, Value, bool, num, Object, put, spread}
use newport_ms.Sync.Append.{append_value}
use newport_ms.Sync.Meta.{
  SyncEntityMeta, MergeStrategy, server_wins, field_merge, append_only, reject, sync_meta,
  PullChange,
}
use newport_ms.Sync.Merge.{merge_fieldwise}
use newport_ms.Client.Store.{EntityRecord, MemoryStore, write}

-- `local?.data ?? {}`
abbrev pub data_of : Option EntityRecord → Object
data_of none = []
data_of (some rec) = rec.record_data

-- The record that the server's change is, as it stands.
abbrev pub as_sent : PullChange → EntityRecord
as_sent change = record {
  id = change.change_record_id;
  record_version = change.version;
  is_deleted = false;
  record_data = change.change_data;
}

abbrev pub is_append_only : MergeStrategy → Bool
is_append_only append_only = true
is_append_only _ = false

-- The record for a change that deletes.
abbrev pub tombstone : SyncEntityMeta → PullChange → Option EntityRecord → EntityRecord
tombstone meta change local = record (as_sent change) {
  is_deleted = if is_append_only meta.merge then false else true;
  record_data = spread (data_of local) change.change_data;
}

-- `{ ...merged.merged, version: change.version, __localAhead: local.version > change.version }`
abbrev pub with_version : PullChange → EntityRecord → Object → Object
with_version change local merged =
    put "__localAhead" (bool (ltb change.version local.record_version))
      (put "version" (num change.version) merged)

-- The record for a change of a record that the device has.
abbrev pub by_merge : MergeStrategy → SyncEntityMeta → PullChange → EntityRecord → EntityRecord
by_merge field_merge meta change local = record {
  id = local.id;
  record_version = change.version;
  is_deleted = false;
  record_data =
      with_version change local (merge_fieldwise change.change_data local.record_data meta).merged;
}
by_merge _ meta change local = as_sent change

abbrev pub remote_record :
    Option SyncEntityMeta → PullChange → Option EntityRecord → Option EntityRecord
remote_record none change none = if change.deleted then none else some (as_sent change)
remote_record none change (some local) = none
remote_record (some meta) change none =
    if change.deleted then some (tombstone meta change none) else some (as_sent change)
remote_record (some meta) change (some local) =
    if change.deleted
    then some (tombstone meta change (some local))
    else some (by_merge meta.merge meta change local)

abbrev pub write_record :
    PullChange → Option EntityRecord → MemoryStore → Option (MemoryStore × EntityRecord)
write_record change none s = none
write_record change (some rec) s =
    some (write change.change_entity change.change_record_id rec s, rec)

-- `applyRemoteChange(store, change, local)`
unfoldable pub apply_remote_change :
    MemoryStore → PullChange → Option EntityRecord → Option (MemoryStore × EntityRecord)
apply_remote_change s change local =
    write_record change (remote_record (sync_meta change.change_entity) change local) s

abbrev pub by_strategy : MergeStrategy → SyncEntityMeta → (server client : Object) → Object
by_strategy append_only meta server client = server
by_strategy server_wins meta server client = server
by_strategy _ meta server client = (merge_fieldwise server client meta).merged

abbrev pub merge_with : Option SyncEntityMeta → (server client : Object) → Option Object
merge_with none server client = none
merge_with (some meta) server client = some (by_strategy meta.merge meta server client)

-- `mergeServerRecord(entity, server, client)`
unfoldable pub merge_server_record : String → (server client : Object) → Option Object
merge_server_record entity server client = merge_with (sync_meta entity) server client

abbrev pub is_truthy : Option Value → Bool
is_truthy none = false
is_truthy (some null) = false
is_truthy (some (bool b)) = b
is_truthy (some (num n)) = not (n == 0)
is_truthy (some (str s)) = not (str_eq s "")
is_truthy (some v) = true

-- `isLocalOnly(rec)`; a number is not the negative zero, and not NaN, which no record holds.
unfoldable pub is_local_only : Option EntityRecord → Bool
is_local_only rec = is_truthy (get "isOfflineCreated" (data_of rec))

abbrev pub text_or : Value → String → String
text_or (str s) text = s
text_or _ text = text

abbrev pub text_or_blank : Option String → String
text_or_blank none = ""
text_or_blank (some t) = t

-- `appendNote(serverText, clientText)`
unfoldable pub append_note : Option String → String → String
append_note server_text client_text =
    text_or (append_value (some (str (text_or_blank server_text))) (some (str client_text)))
      (text_or_blank server_text)
