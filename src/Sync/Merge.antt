-- ===== src/Sync/Merge.antt =====
-- `mergeFieldwise` of packages/domain/src/sync.ts.
pub mod Laws
use newport_ms.Base.{
  String, ◌≡◌, Bool, true, false, not, ◌&&◌, ◌||◌, Option, none, some, List, [], ◌∷◌, ◌++◌,
  includes, if◌then◌else◌,
}
use newport_ms.Json.{Value, Object, get, put, object_is, is_blank}
use newport_ms.Sync.Append.{append_value}
use newport_ms.Sync.Meta.{SyncEntityMeta}

pub record MergeDecision : Type 0 where
  pub merged : Object
  pub kept_from_server : List String
  pub conflict : Bool

-- A protected field for which the device has another value than the server.
abbrev pub disagrees : Object → String → Value → Bool
disagrees server key v = not (is_blank (get key server)) && not (object_is (get key server) v)

module _ (meta : SyncEntityMeta) (server : Object) where
  -- One turn of the loop over the members that the device sent.
  unfoldable pub merge_field : String → Value → MergeDecision → MergeDecision
  merge_field key v d =
      if includes meta.protected_fields key
      then record d {
        kept_from_server = d.kept_from_server ++ key ∷ [];
        conflict = disagrees server key v || d.conflict;
      }
      else if is_blank (some v)
      then d
      else if includes meta.append_fields key
      then record d { merged = put key (append_value (get key server) (some v)) d.merged }
      else record d { merged = put key v d.merged }

  unfoldable pub merge_loop : Object → MergeDecision → MergeDecision
  merge_loop [] d = d
  merge_loop ((key, v) ∷ client) d = merge_loop client (merge_field key v d)

-- `mergeFieldwise(server, client, meta)`
unfoldable pub merge_fieldwise : Object → Object → SyncEntityMeta → MergeDecision
merge_fieldwise server client meta =
    merge_loop meta server client
      (record { merged = server; kept_from_server = []; conflict = false })
