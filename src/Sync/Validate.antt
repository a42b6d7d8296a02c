-- ===== src/Sync/Validate.antt =====
-- `validatePush` of packages/domain/src/sync.ts. An error is its kind and the data that its text
-- names.
pub mod Laws
use newport_ms.Base.{
  ℕ, String, ◌≡◌, refl, Bool, true, false, not, ◌&&◌, ◌||◌, Option, none, some, List, [], ◌∷◌, ◌++◌,
  map, ◌==◌, str_eq, includes, is_some, if◌then◌else◌,
}
use newport_ms.Json.{Object}
use newport_ms.Sync.Meta.{
  schema_version, SyncEntityMeta, sync_meta, OpKind, upsert, patch, delete, ChangeOp, PushRequest,
}

pub data PushError : Type 0 where
  incompatible_schema : ℕ → PushError
  device_id_missing user_id_missing op_id_missing record_id_missing : PushError
  duplicate_op_id unknown_entity deleted_by_server : String → PushError
  delete_unsupported : PushError
  patch_without_fields : String → String → PushError

abbrev pub is_delete : OpKind → Bool
is_delete delete = true
is_delete _ = false

abbrev pub is_patch : OpKind → Bool
is_patch patch = true
is_patch _ = false

-- `!op.data || Object.keys(op.data).length === 0`
abbrev pub has_no_fields : Option Object → Bool
has_no_fields none = true
has_no_fields (some []) = true
has_no_fields (some (m ∷ o)) = false

-- `SYNC_META[entity]?.clientGeneratedIds === false`
abbrev pub is_server_made : Option SyncEntityMeta → Bool
is_server_made none = false
is_server_made (some m) = not m.client_generated_ids

abbrev pub report : Bool → PushError → List PushError
report wrong e = if wrong then e ∷ [] else []

-- The checks of one operation; `seen` holds the ids of those before it. `SYNC_ENTITY_SET` has the
-- names of the table `SYNC_META`.
unfoldable pub op_errors : List String → ChangeOp → List PushError
op_errors seen op =
    (if str_eq op.op_id ""
      then op_id_missing ∷ []
      else report (includes seen op.op_id) (duplicate_op_id op.op_id))
    ++ (report (not (is_some (sync_meta op.op_entity))) (unknown_entity op.op_entity)
        ++ (report (str_eq op.record_id "") record_id_missing
            ++ (report (is_delete op.kind && not (is_some (sync_meta op.op_entity)))
                  delete_unsupported
                ++ (report (is_delete op.kind && is_server_made (sync_meta op.op_entity))
                      (deleted_by_server op.op_entity)
                    ++ report (is_patch op.kind && has_no_fields op.fields)
                        (patch_without_fields op.op_entity op.record_id)))))

unfoldable pub ops_errors : List String → List ChangeOp → List PushError
ops_errors seen [] = []
ops_errors seen (op ∷ ops) = op_errors seen op ++ ops_errors (op.op_id ∷ seen) ops

-- `validatePush(req)`
unfoldable pub validate_push : PushRequest → List PushError
validate_push req =
    report (not (req.request_schema == schema_version)) (incompatible_schema req.request_schema)
    ++ (report (str_eq req.device_id "") device_id_missing
        ++ (report (str_eq req.user_id "") user_id_missing ++ ops_errors [] req.ops))
