-- ===== src/Client/Queue/Laws.antt =====
-- What a change on the device, and a decision on a conflict, leave behind.
use newport_ms.Base.{[]}
use newport_ms.Base.{◌∷◌}
use newport_ms.Base.{◌++◌}
use newport_ms.Client.Queue.{conflict}
use newport_ms.Client.Store.{PendingOp}
use newport_ms.Sync.Meta.{conflict}
use newport_ms.Base.{List}
use newport_ms.Client.Queue.{resolve_pending}
use newport_ms.Client.Store.{resolve_pending}
use newport_ms.Base.{
  ap, ◌∙◌, ℕ, suc, String, ◌≡◌, ◌≢◌, refl, true, false, not, ◌&&◌, ◌||◌, Option, none, some, arith,
  eq_refl, str_eq, find,
}
use newport_ms.Base.Maps.{lookup, set, lookup-set}
use newport_ms.Client.Store.Laws.{
  read-clear_conflict, read-resolve_pending, read-add_pending, waits, waits-add_pending,
  waits-resolve_pending, read-write,
}
use newport_ms.Client.Queue.{
  forced_op, settle, data_for, changed_record, server_version, SyncClient, LocalMutation,
  queue_mutation, version_of, entity_of, resolve_local_conflict, local_side, server_side, forced,
  new_op,
}
use newport_ms.Client.Store.{
  add_conflict, clear_conflict, key, EntityRecord, LocalConflict, MemoryStore, read, write,
  add_pending, conflicts,
}
use newport_ms.Json.{Value}
use newport_ms.Sync.Meta.{SyncEntityMeta, sync_meta, OpKind, upsert, patch, delete, ChangeOp}

-- What is in place once a change was queued.
abbrev pub Recorded : (new_id now : String) → LocalMutation → SyncClient → Type 0
Recorded new_id now m c =
    let current = read m.mutation_entity m.mutation_id c.store in
    (d : SyncClient) × (rec : EntityRecord) × (queue_mutation new_id now m c
      ≡ some (d, new_op new_id now m current))
    × (waits new_id d.store ≡ true)
    × (entity_of new_id d ≡ m.mutation_entity)
    × (read m.mutation_entity m.mutation_id d.store ≡ some rec)
    × (rec.record_version ≡ suc (version_of current))
    × (rec.is_deleted ≡ false)

-- The session after an operation was added to a store in which its record was written.
abbrev queued : LocalMutation → ChangeOp → SyncClient → EntityRecord → SyncClient
queued m op c rec = record c {
  store = add_pending op (write m.mutation_entity m.mutation_id rec c.store);
  op_entity = set op.op_id m.mutation_entity c.op_entity;
  rec_op = set (key m.mutation_entity m.mutation_id) op.op_id c.rec_op;
}

queued-Recorded :
    (new_id now : String) (m : LocalMutation) (c : SyncClient) (rec : EntityRecord)
    → let op = new_op new_id now m (read m.mutation_entity m.mutation_id c.store) in
      queue_mutation new_id now m c ≡ some (queued m op c rec, op)
      → rec.record_version ≡ suc (version_of (read m.mutation_entity m.mutation_id c.store))
      → rec.is_deleted ≡ false
      → Recorded new_id now m c
unfolding entity_of
queued-Recorded new_id now m c rec e v d =
    let op = new_op new_id now m (read m.mutation_entity m.mutation_id c.store) in
    let s = write m.mutation_entity m.mutation_id rec c.store in
    (
      queued m op c rec,
      rec,
      e,
      ground (arith, waits-add_pending new_id op s, eq_refl new_id),
      ground (arith, lookup-set new_id new_id m.mutation_entity c.op_entity, eq_refl new_id),
      read-add_pending m.mutation_entity m.mutation_id op s
          ∙ read-write m.mutation_entity m.mutation_id rec c.store,
      v,
      d,
    )

queue_mutation-Recorded :
    (new_id now : String) (m : LocalMutation) (c : SyncClient) (meta : SyncEntityMeta) (k : OpKind)
    → m.mutation_kind ≡ k
    → sync_meta m.mutation_entity ≡ some meta
    → meta.rest_only ≡ false
    → k ≢ delete
    → Recorded new_id now m c
unfolding queue_mutation
queue_mutation-Recorded new_id now m c meta upsert e known writable kept =
    let current = read m.mutation_entity m.mutation_id c.store in
    queued-Recorded new_id now m c
      (changed_record m.mutation_id current (data_for upsert current m.mutation_data))
      (simp (known, writable, e) refl) refl refl
queue_mutation-Recorded new_id now m c meta patch e known writable kept =
    let current = read m.mutation_entity m.mutation_id c.store in
    queued-Recorded new_id now m c
      (changed_record m.mutation_id current (data_for patch current m.mutation_data))
      (simp (known, writable, e) refl) refl refl
queue_mutation-Recorded new_id now m c meta delete e known writable kept = absurd (kept refl)

-- A change that is no deletion, of an entity that may be written by synchronisation, is queued: its
-- operation waits to be sent, in the version that the device had, the session knows its entity, and
-- the device reads the record in the next version, not deleted.
pub queue_mutation_records :
    (new_id now : String) (m : LocalMutation) (c : SyncClient) (meta : SyncEntityMeta)
    → sync_meta m.mutation_entity ≡ some meta
    → meta.rest_only ≡ false
    → m.mutation_kind ≢ delete
    → Recorded new_id now m c
queue_mutation_records new_id now m c meta known writable kept =
    queue_mutation-Recorded new_id now m c meta m.mutation_kind refl known writable kept

-- An entity that is written over REST only is never queued.
pub rest_only_refused :
    (new_id now : String) (m : LocalMutation) (c : SyncClient) (meta : SyncEntityMeta)
    → sync_meta m.mutation_entity ≡ some meta
    → meta.rest_only ≡ true
    → queue_mutation new_id now m c ≡ none
unfolding queue_mutation
rest_only_refused new_id now m c meta known closed = rw (known, closed) refl

-- The find that found a conflict.
abbrev pub the_conflict : String → SyncClient → Option LocalConflict
the_conflict op_id c = find (λ y. str_eq y.conflict_op_id op_id) (conflicts c.store)

server_side_of :
    (number_of : Value → ℕ) (op_id now : String) (x : LocalConflict) (s : MemoryStore)
    → let d = settle number_of (some x) op_id server_side now s in
      ((k : String) → waits k d ≡ (waits k s && not (str_eq op_id k)))
      × (read x.conflict_entity x.conflict_record_id d ≡ some (server_version number_of x))
unfolding clear_conflict write
server_side_of number_of op_id now x s =
    let written = write x.conflict_entity x.conflict_record_id (server_version number_of x) s in
    (
      λ k. waits-resolve_pending k op_id _,
      read-resolve_pending x.conflict_entity x.conflict_record_id op_id
            (clear_conflict op_id written)
          ∙ read-clear_conflict x.conflict_entity x.conflict_record_id op_id written
          ∙ read-write x.conflict_entity x.conflict_record_id (server_version number_of x) s,
    )

local_side_of :
    (number_of : Value → ℕ) (op_id now : String) (x : LocalConflict) (s : MemoryStore) (k : String)
    → waits k (settle number_of (some x) op_id local_side now s)
      ≡ (str_eq (forced op_id) k || (waits k s && not (str_eq op_id k)))
unfolding add_conflict clear_conflict
local_side_of number_of op_id now x s k =
    waits-add_pending k (forced_op op_id x now) _
    ∙ ap (λ b. str_eq (forced op_id) k || b) (waits-resolve_pending k op_id _)

-- A conflict decided for the server: the operation no longer waits, the others wait as before, and the
-- device reads what the server had, in the server's version.
server_side_settles :
    (number_of : Value → ℕ) (op_id now : String) (x : LocalConflict) (c : SyncClient)
    → the_conflict op_id c ≡ some x
    → let d = resolve_local_conflict number_of op_id server_side now c in
      ((k : String) → waits k d.store ≡ (waits k c.store && not (str_eq op_id k)))
      × (read x.conflict_entity x.conflict_record_id d.store ≡ some (server_version number_of x))
unfolding resolve_local_conflict
server_side_settles number_of op_id now x c found =
    rw found (server_side_of number_of op_id now x c.store)

-- A conflict decided for the device: its operation leaves the queue, the forced one waits in its
-- place, and all others wait as before.
local_side_settles :
    (number_of : Value → ℕ) (op_id now : String) (x : LocalConflict) (c : SyncClient) (k : String)
    → the_conflict op_id c ≡ some x
    → waits k (resolve_local_conflict number_of op_id local_side now c).store
      ≡ (str_eq (forced op_id) k || (waits k c.store && not (str_eq op_id k)))
unfolding resolve_local_conflict
local_side_settles number_of op_id now x c k found =
    rw found (local_side_of number_of op_id now x c.store k)

-- An operation whose id does not wait is put at the end of the queue.
forced_queued :
    (op_id now : String) (x : LocalConflict) (s : MemoryStore)
    → waits (forced op_id) s ≡ false
    → (before : List PendingOp) × (p : PendingOp) × ((add_pending (forced_op op_id x now) s).queue
        ≡ before ++ p ∷ [])
      × (p.op.op_id ≡ forced op_id)
      × (p.op.op_entity ≡ x.conflict_entity)
      × (p.op.record_id ≡ x.conflict_record_id)
      × (p.op.fields ≡ some x.client)
unfolding add_pending
forced_queued op_id now x s h = (
  s.queue,
  record { op = forced_op op_id x now; attempts = 0; last_error_at = none; last_error = none },
  simp (h),
  refl,
  refl,
  refl,
  refl,
)

-- The forced operation does not wait before it is added.
forced_free :
    (op_id : String) (x : LocalConflict) (s : MemoryStore)
    → waits (forced op_id) s ≡ false
    → waits (forced op_id) (
        resolve_pending op_id (
          clear_conflict op_id (
            add_conflict
              (record x {
                conflict_op_id = forced op_id;
                reason = "sent again after the device's version was chosen";
                conflict_outcome = conflict;
              })
              s)))
      ≡ false
unfolding add_conflict clear_conflict
forced_free op_id x s h = waits-resolve_pending (forced op_id) op_id _ ∙ ground (arith, h)

-- A conflict that is found and decided for the device: its operation no longer waits, and the forced
-- one, on the record of the conflict and with what the device had, is queued in its place. But the
-- session does not learn its entity: what the server answers to it is taken for the answer to a work
-- order, whatever the entity of the conflict was. (No operation of the forced one's id is known or
-- waits before.)
pub forced_taken_for_work_order :
    (number_of : Value → ℕ) (op_id now : String) (x : LocalConflict) (c : SyncClient)
    → the_conflict op_id c ≡ some x
    → lookup (forced op_id) c.op_entity ≡ none
    → waits (forced op_id) c.store ≡ false
    → str_eq (forced op_id) op_id ≡ false
    → let d = resolve_local_conflict number_of op_id local_side now c in
      (waits op_id d.store ≡ false)
      × ((before : List PendingOp) × (p : PendingOp) × (d.store.queue ≡ before ++ p ∷ [])
          × (p.op.op_id ≡ forced op_id)
          × (p.op.op_entity ≡ x.conflict_entity)
          × (p.op.record_id ≡ x.conflict_record_id)
          × (p.op.fields ≡ some x.client))
      × (entity_of (forced op_id) d ≡ "workOrder")
unfolding resolve_local_conflict entity_of
forced_taken_for_work_order number_of op_id now x c found h free apart = (
  local_side_settles number_of op_id now x c op_id found ∙ ground (arith, apart, eq_refl op_id),
  rw found (forced_queued op_id now x _ (forced_free op_id x c.store free)),
  rw h refl,
)
