-- ===== src/Client/Session/Settled.antt =====
-- What the results of a push do to the queue and to the report.
use newport_ms.Base.{
  ℕ, suc, ◌+◌, String, ◌≡◌, refl, Bool, true, false, not, ◌&&◌, Option, none, some, is_some, List,
  [], ◌∷◌, All, any, arith, str_eq, length, ◌∙◌, ap, Option-cases, inl, inr,
}
use newport_ms.Base.Maps.{lookup}
use newport_ms.Client.Queue.{or_work_order, SyncClient, entity_of}
use newport_ms.Client.Remote.{by_strategy, data_of, merge_server_record}
use newport_ms.Json.{Value, Object}
use newport_ms.Sync.Meta.{
  sync_meta, PushOutcome, applied, merged, conflict, rejected, deduplicated, PushResult,
}
use newport_ms.Client.Store.{MemoryStore, read, write, add_conflict, ok_outcome, is_op}
use newport_ms.Client.Store.Laws.{waits, waits-resolve_pending, waits-fail_pending}
use newport_ms.Client.Session.{
  Pushed, SyncRunReport, done, accept, take_result, apply_result, apply_results, report_with,
}
use newport_ms.Client.Session.Kept.{queue-accept}

-- The session's operations are of entities that are synchronised.
abbrev pub KnownEntities : List (String × String) → Type 0
KnownEntities m = All (λ e. is_some (sync_meta e.1) ≡ true) m

-- The results accept the operation.
abbrev pub accepts : String → List PushResult → Bool
accepts k results = any (λ r. ok_outcome r.outcome && str_eq r.result_op_id k) results

-- How many results the report has counted.
abbrev pub total : Pushed → ℕ
total p = p.applied_count + p.merged_count + p.dedup_count + p.conflict_count + p.rejected_count

known-lookup :
    (k : String) (m : List (String × String))
    → KnownEntities m
    → is_some (sync_meta (or_work_order (lookup k m))) ≡ true
unfolding lookup sync_meta
known-lookup k [] h = refl
known-lookup k ((j, e) ∷ m) h = ground (arith, known-lookup k m h.1, h.0)

merge_known :
    (entity : String) (server client : Object)
    → is_some (sync_meta entity) ≡ true
    → (o : Object) × (merge_server_record entity server client ≡ some o)
unfolding merge_server_record
merge_known entity server client h = elim (Option-cases (sync_meta entity)) [
  | inl e ↦ absurd (ground arith)
  | inr (meta, e) ↦ rw e (by_strategy meta.merge meta server client, refl)
]

accepted :
    (entity : String) (r : PushResult) (s : MemoryStore) (k : String)
    → waits k (accept entity r s) ≡ (waits k s && not (str_eq r.result_op_id k))
accepted entity r s k =
    ap (any (is_op k)) (queue-accept entity r s) ∙ waits-resolve_pending k r.result_op_id s

module _ (number_of : Value → ℕ) (now type_error : String) where
  take_result_settles :
      (entity : String) (r : PushResult) (o : PushOutcome) (theirs : Option Object)
      (s : MemoryStore)
      → is_some (sync_meta entity) ≡ true
      → (t : MemoryStore) × (failed : Bool) × (take_result number_of now type_error entity r o
            theirs s
          ≡ done (t, failed))
        × ((k : String) → waits k t ≡ (waits k s && not (ok_outcome o && str_eq r.result_op_id k)))
  unfolding ok_outcome write add_conflict
  take_result_settles entity r applied theirs s known =
      (accept entity r s, false, refl, accepted entity r s)
  take_result_settles entity r merged theirs s known =
      (accept entity r s, false, refl, accepted entity r s)
  take_result_settles entity r deduplicated theirs s known =
      (accept entity r s, false, refl, accepted entity r s)
  take_result_settles entity r conflict (some theirs) s known =
      let (o, e) = merge_known entity theirs (data_of (read entity r.result_record_id s)) known in
      rw e (_, false, refl, λ k. ground arith)
  take_result_settles entity r conflict none s known =
      (_, true, refl, λ k. waits-fail_pending k r.result_op_id _ now s ∙ ground arith)
  take_result_settles entity r rejected theirs s known =
      (_, true, refl, λ k. waits-fail_pending k r.result_op_id _ now s ∙ ground arith)

  total-report_with :
      (r : PushResult) (report : SyncRunReport) (failed : Bool)
      → total (report_with number_of now type_error r report failed).pushed
        ≡ suc (total report.pushed)
  total-report_with r report failed = ground arith

  -- If the session's operations are of entities that are synchronised, the results of a push are all
  -- taken in, without an exception. An operation then waits exactly if it waited before and no result
  -- accepts it, and each result is counted once in the report.
  pub apply_results_settles :
      (results : List PushResult) (c : SyncClient) (report : SyncRunReport)
      → KnownEntities c.op_entity
      → (d : SyncClient) × (after : SyncRunReport) × (apply_results number_of now type_error results
            (c, report)
          ≡ done (d, after))
        × (d.op_entity ≡ c.op_entity)
        × ((k : String) → waits k d.store ≡ (waits k c.store && not (accepts k results)))
        × (total after.pushed ≡ total report.pushed + length results)
  unfolding apply_results apply_result entity_of
  apply_results_settles [] c report known = (c, report, refl, refl, λ k. ground arith, omega arith)
  apply_results_settles (r ∷ results) c report known =
      let (t, failed, e, kept) =
        take_result_settles (entity_of r.result_op_id c) r r.outcome r.server_record c.store
          (known-lookup r.result_op_id c.op_entity known) in
      let (d, after, e2, same, kept2, n) =
        apply_results_settles results (record c { store = t })
          (report_with number_of now type_error r report failed) known in
      (
        d,
        after,
        rw e e2,
        same,
        λ k. ground (arith, kept k, kept2 k),
        omega (arith, n, total-report_with r report failed),
      )
