-- ===== src/Client/Remote/Laws.antt =====
-- What a device has of a record after the server's change came in.
use newport_ms.Base.{
  ◌∙◌, not, ℕ, String, ◌≡◌, refl, Bool, true, false, Option, none, some, arith, includes, str_eq,
  ltb, if◌then◌else◌,
}
use newport_ms.Client.Remote.{
  with_version, as_sent, tombstone, by_merge, is_append_only, apply_remote_change, remote_record,
}
use newport_ms.Json.{bool, num, Object, get, put}
use newport_ms.Json.Laws.{UniqueKeys, get-put}
use newport_ms.Sync.Meta.{
  SyncEntityMeta, MergeStrategy, server_wins, field_merge, append_only, reject, sync_meta,
  PullChange,
}
use newport_ms.Sync.Merge.{merge_fieldwise}
use newport_ms.Sync.Merge.Laws.{get-merge_fieldwise}
use newport_ms.Sync.Resolve.Laws.{protected-merged}
use newport_ms.Client.Store.{EntityRecord, MemoryStore, read, write}
use newport_ms.Client.Store.Laws.{read-write}

by_merge-as_sent :
    (m : MergeStrategy) (meta : SyncEntityMeta) (change : PullChange) (local : EntityRecord)
    → ((by_merge m meta change local).record_version ≡ change.version)
      × ((by_merge m meta change local).is_deleted ≡ false)
by_merge-as_sent server_wins meta change local = (refl, refl)
by_merge-as_sent field_merge meta change local = (refl, refl)
by_merge-as_sent append_only meta change local = (refl, refl)
by_merge-as_sent reject meta change local = (refl, refl)

choose :
    (b : Bool) (x y : EntityRecord) (v : ℕ) (m : Bool)
    → x.record_version ≡ v
    → x.is_deleted ≡ m
    → y.record_version ≡ v
    → y.is_deleted ≡ false
    → (rec : EntityRecord) × ((if b then some x else some y) ≡ some rec)
      × (rec.record_version ≡ v)
      × (rec.is_deleted ≡ (if b then m else false))
choose true x y v m xv xd yv yd = (x, refl, xv, xd)
choose false x y v m xv xd yv yd = (y, refl, yv, yd)

-- The record of a change, with its version and its mark.
remote_record-some :
    (meta : SyncEntityMeta) (change : PullChange) (local : Option EntityRecord)
    → (rec : EntityRecord) × (remote_record (some meta) change local ≡ some rec)
      × (rec.record_version ≡ change.version)
      × (rec.is_deleted ≡ (if change.deleted then not (is_append_only meta.merge) else false))
remote_record-some meta change none =
    choose change.deleted (tombstone meta change none) (as_sent change) change.version
      (not (is_append_only meta.merge)) refl (ground arith) refl refl
remote_record-some meta change (some local) =
    let (v, d) = by_merge-as_sent meta.merge meta change local in
    choose change.deleted (tombstone meta change (some local))
      (by_merge meta.merge meta change local) change.version (not (is_append_only meta.merge)) refl
      (ground arith) v d

-- A change of an entity that is synchronised is always written: the device then has the record under
-- the change's id, in the change's version. It is deleted exactly if the change deletes and the
-- entity is not one of events, whose records are never deleted.
apply_remote_change_writes :
    (s : MemoryStore) (change : PullChange) (local : Option EntityRecord) (meta : SyncEntityMeta)
    → sync_meta change.change_entity ≡ some meta
    → (t : MemoryStore) × (rec : EntityRecord) × (apply_remote_change s change local
        ≡ some (t, rec))
      × (read change.change_entity change.change_record_id t ≡ some rec)
      × (rec.record_version ≡ change.version)
      × (rec.is_deleted ≡ (if change.deleted then not (is_append_only meta.merge) else false))
unfolding apply_remote_change
apply_remote_change_writes s change local meta m =
    let (rec, found, v, d) = remote_record-some meta change local in
    rw (m, found)
      (
        write change.change_entity change.change_record_id rec s,
        rec,
        refl,
        read-write change.change_entity change.change_record_id rec s,
        v,
        d,
      )

get-with_version :
    (change : PullChange) (local : EntityRecord) (o : Object) (field : String)
    → str_eq "version" field ≡ false
    → str_eq "__localAhead" field ≡ false
    → get field (with_version change local o) ≡ get field o
get-with_version change local o field v a = ground (
  arith,
  get-put "__localAhead" field (bool (ltb change.version local.record_version))
      (put "version" (num change.version) o),
  get-put "version" field (num change.version) o,
)

-- Where the changed record is one whose fields are merged, and the device has one of its own with
-- keys that differ from one another, the device then has the record under the change's id with each
-- protected field as the server has it, whatever the device had. (`version` and `__localAhead` are set on the device.)
pub remote_keeps_protected :
    (s : MemoryStore) (change : PullChange) (local : EntityRecord) (meta : SyncEntityMeta)
    (field : String)
    → sync_meta change.change_entity ≡ some meta
    → meta.merge ≡ field_merge
    → change.deleted ≡ false
    → UniqueKeys local.record_data
    → includes meta.protected_fields field ≡ true
    → str_eq "version" field ≡ false
    → str_eq "__localAhead" field ≡ false
    → (t : MemoryStore) × (rec : EntityRecord) × (apply_remote_change s change (some local)
        ≡ some (t, rec))
      × (read change.change_entity change.change_record_id t ≡ some rec)
      × (get field rec.record_data ≡ get field change.change_data)
unfolding apply_remote_change
remote_keeps_protected s change local meta field m g d u p v a =
    let rec = by_merge field_merge meta change local in
    (
      write change.change_entity change.change_record_id rec s,
      rec,
      simp (m, d, g) refl,
      read-write change.change_entity change.change_record_id rec s,
      get-with_version change local
            (merge_fieldwise change.change_data local.record_data meta).merged field v a
          ∙ get-merge_fieldwise meta change.change_data local.record_data field u
          ∙ protected-merged meta field (get field change.change_data) (get field local.record_data)
              p,
    )
