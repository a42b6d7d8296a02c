-- ===== src/Sync/Resolve.antt =====
-- `resolveConflict` of packages/domain/src/sync.ts. The Arabic reasons are left out.
pub mod Laws
use newport_ms.Base.{
  String, Bool, true, false, ◌&&◌, Option, none, some, List, [], ◌∷◌, if◌then◌else◌,
}
use newport_ms.Json.{Object}
use newport_ms.Sync.Meta.{
  SyncEntityMeta, MergeStrategy, server_wins, field_merge, append_only, reject, sync_meta,
}
use newport_ms.Sync.Merge.{MergeDecision, merge_fieldwise}

-- The action; a merge carries its decision.
pub data Resolution : Type 0 where
  apply_client : Resolution
  merge_fields : MergeDecision → Resolution
  keep_server : Resolution
  refuse : Resolution

abbrev pub is_nonempty {ℓ} : {A : Type ℓ} → List A → Bool
is_nonempty [] = false
is_nonempty (x ∷ xs) = true

-- The `switch` on the strategy.
abbrev pub by_strategy : MergeStrategy → Object → Object → SyncEntityMeta → Resolution
by_strategy append_only server client meta = apply_client
by_strategy field_merge server client meta = merge_fields (merge_fieldwise server client meta)
by_strategy server_wins server client meta = keep_server
by_strategy reject server client meta = refuse

-- What is done for a record that is approved on the server and has protected fields.
abbrev pub when_approved : MergeStrategy → Object → Object → SyncEntityMeta → Resolution
when_approved field_merge server client meta = merge_fields (merge_fieldwise server client meta)
when_approved _ server client meta = keep_server

abbrev pub resolve_meta : Option SyncEntityMeta → Object → Object → Bool → Resolution
resolve_meta none server client approved = refuse
resolve_meta (some meta) server client approved =
    if approved && is_nonempty meta.protected_fields
    then when_approved meta.merge server client meta
    else by_strategy meta.merge server client meta

-- `resolveConflict({ entity, server, client, serverApproved })`
unfoldable pub resolve_conflict : String → (server client : Object) → (approved : Bool) → Resolution
resolve_conflict entity server client approved =
    resolve_meta (sync_meta entity) server client approved
