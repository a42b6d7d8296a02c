-- ===== src/Sync/Batches.antt =====
-- `planPushBatches` of packages/domain/src/sync.ts. How two texts compare in the user's language
-- (`localeCompare`) is the parameter `not_after`: the first does not come after the second. A stable
-- sort, such as that of `Array`, puts each item before the first that is not less.
pub mod Laws
use newport_ms.Base.{
  ℕ, zero, suc, ◌+◌, ◌≡◌, String, Bool, true, false, ◌&&◌, ◌||◌, Option, none, some, List, [], ◌∷◌,
  ◌++◌, ◌==◌, ltb, length, take, drop, if◌then◌else◌,
}
use newport_ms.Sync.Meta.{SyncEntityMeta, sync_meta, ChangeOp}

abbrev pub priority_or_3 : Option SyncEntityMeta → ℕ
priority_or_3 none = 3
priority_or_3 (some m) = m.push_priority

-- `rank(e)`
unfoldable pub rank : ChangeOp → ℕ
rank op = priority_or_3 (sync_meta op.op_entity)

-- `sorted.slice(i, i + maxBatch)` for i = 0, maxBatch, …; `fuel` bounds the number of batches, and a
-- batch takes one operation at least.
unfoldable pub slices {ℓ} : {A : Type ℓ} → ℕ → ℕ → List A → List (List A)
slices zero max_batch ops = []
slices (suc fuel) max_batch [] = []
slices (suc fuel) max_batch (op ∷ ops) =
    take max_batch (op ∷ ops) ∷ slices fuel max_batch (drop max_batch (op ∷ ops))

module _ (not_after : String → String → Bool) where
  -- The comparison is not positive: by rank, and then by the time of the device.
  unfoldable pub comes_first : ChangeOp → ChangeOp → Bool
  comes_first a b =
      ltb (rank a) (rank b) || (rank a == rank b && not_after a.client_timestamp b.client_timestamp)

  unfoldable pub insert_op : ChangeOp → List ChangeOp → List ChangeOp
  insert_op a [] = a ∷ []
  insert_op a (b ∷ ops) = if comes_first a b then a ∷ b ∷ ops else b ∷ insert_op a ops

  unfoldable pub sort_ops : List ChangeOp → List ChangeOp
  sort_ops [] = []
  sort_ops (op ∷ ops) = insert_op op (sort_ops ops)

  -- `planPushBatches(ops, maxBatch)`
  unfoldable pub plan_push_batches : List ChangeOp → ℕ → List (List ChangeOp)
  unfolding slices
  plan_push_batches ops max_batch = slices (length (sort_ops ops)) max_batch (sort_ops ops)
