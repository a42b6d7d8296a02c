-- ===== src/Client/Store/Laws.antt =====
-- What each operation of the store does to its queue and to its records.
use newport_ms.Base.{
  ◌∙◌, inr, inl, Bool-cases, String, ◌≡◌, refl, Bool, false, not, ◌&&◌, ◌||◌, none, some, List, [],
  ◌∷◌, ◌++◌, arith, str_eq, eq_iff, any, keep, any-append,
}
use newport_ms.Base.Maps.{lookup-set}
use newport_ms.Sync.Meta.{ChangeOp}
use newport_ms.Client.Store.{
  EntityRecord, PendingOp, MemoryStore, key, is_op, read, write, add_pending, resolve_pending,
  fail_first, fail_pending, clear_conflict,
}

-- An operation with the id waits in the queue.
abbrev pub waits : String → MemoryStore → Bool
waits k s = any (is_op k) s.queue

-- No two operations of the queue have the same id.
abbrev pub UniqueOps : List PendingOp → Type 0
UniqueOps [] = Unit
UniqueOps (p ∷ ps) = (any (is_op p.op.op_id) ps ≡ false) × UniqueOps ps

pub waits-add_pending :
    (k : String) (op : ChangeOp) (s : MemoryStore)
    → waits k (add_pending op s) ≡ (str_eq op.op_id k || waits k s)
unfolding add_pending
waits-add_pending k op s = ground (
  arith,
  eq_iff op.op_id k,
  any-append (is_op k) s.queue
      (record { op = op; attempts = 0; last_error_at = none; last_error = none } ∷ []),
)

waits-keep :
    (k j : String) (ps : List PendingOp)
    → any (is_op k) (keep (λ p. not (is_op j p)) ps) ≡ (any (is_op k) ps && not (str_eq j k))
waits-keep k j [] = refl
waits-keep k j (p ∷ ps) =
    ground (arith, waits-keep k j ps, eq_iff p.op.op_id k, eq_iff p.op.op_id j, eq_iff j k)

pub waits-resolve_pending :
    (k j : String) (s : MemoryStore)
    → waits k (resolve_pending j s) ≡ (waits k s && not (str_eq j k))
unfolding resolve_pending
waits-resolve_pending k j s = waits-keep k j s.queue

waits-fail_first :
    (k j error now : String) (ps : List PendingOp)
    → any (is_op k) (fail_first j error now ps) ≡ any (is_op k) ps
unfolding fail_first
waits-fail_first k j error now [] = refl
waits-fail_first k j error now (p ∷ ps) = ground (arith, waits-fail_first k j error now ps)

pub waits-fail_pending :
    (k j error now : String) (s : MemoryStore) → waits k (fail_pending j error now s) ≡ waits k s
unfolding fail_pending
waits-fail_pending k j error now s = waits-fail_first k j error now s.queue

UniqueOps-append :
    (ps : List PendingOp) (q : PendingOp)
    → any (is_op q.op.op_id) ps ≡ false
    → UniqueOps ps
    → UniqueOps (ps ++ q ∷ [])
UniqueOps-append [] q h u = (refl, tt)
UniqueOps-append (p ∷ ps) q h u = (
  ground (
    arith,
    any-append (is_op p.op.op_id) ps (q ∷ []),
    eq_iff p.op.op_id q.op.op_id,
    eq_iff q.op.op_id p.op.op_id,
    u.0,
  ),
  UniqueOps-append ps q (ground arith) u.1,
)

pub add_pending-UniqueOps :
    (op : ChangeOp) (s : MemoryStore) → UniqueOps s.queue → UniqueOps (add_pending op s).queue
unfolding add_pending
add_pending-UniqueOps op s u = elim (Bool-cases (any (is_op op.op_id) s.queue)) [
  | inl there ↦ rw there u
  | inr new ↦ rw new (UniqueOps-append s.queue _ new u)
]

keep-UniqueOps :
    (j : String) (ps : List PendingOp) → UniqueOps ps → UniqueOps (keep (λ p. not (is_op j p)) ps)
keep-UniqueOps j [] u = tt
keep-UniqueOps j (p ∷ ps) u = elim (Bool-cases (is_op j p)) [
  | inl same ↦ rw same (keep-UniqueOps j ps u.1)
  | inr other ↦ rw other (ground (arith, waits-keep p.op.op_id j ps, u.0), keep-UniqueOps j ps u.1)
]

pub resolve_pending-UniqueOps :
    (j : String) (s : MemoryStore) → UniqueOps s.queue → UniqueOps (resolve_pending j s).queue
unfolding resolve_pending
resolve_pending-UniqueOps j s u = keep-UniqueOps j s.queue u

fail_first-UniqueOps :
    (j error now : String) (ps : List PendingOp)
    → UniqueOps ps
    → UniqueOps (fail_first j error now ps)
unfolding fail_first
fail_first-UniqueOps j error now [] u = tt
fail_first-UniqueOps j error now (p ∷ ps) u = elim (Bool-cases (is_op j p)) [
  | inl same ↦ rw same u
  | inr other ↦
      rw other
        (waits-fail_first p.op.op_id j error now ps ∙ u.0, fail_first-UniqueOps j error now ps u.1)
]

pub fail_pending-UniqueOps :
    (j error now : String) (s : MemoryStore)
    → UniqueOps s.queue
    → UniqueOps (fail_pending j error now s).queue
unfolding fail_pending
fail_pending-UniqueOps j error now s u = fail_first-UniqueOps j error now s.queue u

-- A record that was written is read.
pub read-write :
    (entity id : String) (rec : EntityRecord) (s : MemoryStore)
    → read entity id (write entity id rec s) ≡ some rec
unfolding read write
read-write entity id rec s = ground (
  arith,
  lookup-set (key entity id) (key entity id) rec s.recs,
  eq_iff (key entity id) (key entity id),
)

pub read-add_pending :
    (entity id : String) (op : ChangeOp) (s : MemoryStore)
    → read entity id (add_pending op s) ≡ read entity id s
unfolding read add_pending
read-add_pending entity id op s = ground arith

pub read-resolve_pending :
    (entity id op_id : String) (s : MemoryStore)
    → read entity id (resolve_pending op_id s) ≡ read entity id s
unfolding read resolve_pending
read-resolve_pending entity id op_id s = refl

pub read-clear_conflict :
    (entity id op_id : String) (s : MemoryStore)
    → read entity id (clear_conflict op_id s) ≡ read entity id s
unfolding read clear_conflict
read-clear_conflict entity id op_id s = refl
