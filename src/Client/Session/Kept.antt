-- ===== src/Client/Session/Kept.antt =====
-- What a run of the synchronisation keeps of the queue, whatever the server answers and wherever an
-- exception ends the run.
use newport_ms.Base.{
  Option-cases, ℕ, zero, suc, String, ◌≡◌, refl, Bool, true, false, Option, none, some, List, [],
  ◌∷◌, All, arith, Bool-cases, inl, inr, subst, sym,
}
use newport_ms.Sync.Meta.{
  sync_meta, PushOutcome, applied, merged, conflict, rejected, deduplicated, PushRequest,
  PushResponse, PushResult, ChangeOp, PullChange, PullResponse,
}
use newport_ms.Client.Remote.{remote_record, apply_remote_change, merge_server_record, data_of}
use newport_ms.Client.Session.{
  finish, SyncRunReport, Ran, done, thrown, and_then, SyncClientOptions, accept, take_result,
  apply_result, apply_results,
}
use newport_ms.Client.Session.Run.{
  end_page, push_request, Run, World, sync_once, push_all, push_queue, pull_all, pull_pages,
  push_batches, push_batch, push_answer, with_results, pull_changes, count_pulled, next_page,
  take_page, settle_run,
}
use newport_ms.Json.{Object}
use newport_ms.Client.Store.{
  PendingOp, EntityRecord, MemoryStore, read, write, resolve_pending, fail_pending, set_state,
  add_conflict, clear_conflict, ok_outcome,
}
use newport_ms.Client.Queue.{SyncClient, entity_of}

-- The property holds of what is left, also where an exception was thrown.
abbrev pub AllRan : {S : Type 0} → (S → Type 0) → Ran S → Type 0
AllRan P (done s) = P s
AllRan P (thrown s message) = P s

AllRan-and_then :
    {S : Type 0} (P : S → Type 0) (r : Ran S) (f : S → Ran S)
    → AllRan P r
    → ((s : S) → P s → AllRan P (f s))
    → AllRan P (and_then r f)
AllRan-and_then P (done s) f h k = k s h
AllRan-and_then P (thrown s message) f h k = h

pub queue-accept :
    (entity : String) (r : PushResult) (s : MemoryStore)
    → (accept entity r s).queue ≡ (resolve_pending r.result_op_id s).queue
unfolding write clear_conflict
queue-accept entity r s = ground arith

module _ {Server : Type 0} (w : World Server) (opts : SyncClientOptions)
    (P : List PendingOp → Type 0) (Q : PushResult → Type 0)
    (resolves : (r : PushResult) (s : MemoryStore)
      → Q r
      → ok_outcome r.outcome ≡ true
      → P s.queue
      → P (resolve_pending r.result_op_id s).queue)
    (fails : (r : PushResult) (error now : String) (s : MemoryStore)
      → P s.queue
      → P (fail_pending r.result_op_id error now s).queue) where
  open w use {push, number_of, now, type_error}

  abbrev KeptStore : MemoryStore × Bool → Type 0
  KeptStore (s, failed) = P s.queue

  abbrev KeptClient : SyncClient × SyncRunReport → Type 0
  KeptClient (c, report) = P c.store.queue

  abbrev Kept : Run Server → Type 0
  Kept run = P run.client.store.queue

  accept-kept :
      (entity : String) (r : PushResult) (s : MemoryStore)
      → Q r
      → ok_outcome r.outcome ≡ true
      → P s.queue
      → P (accept entity r s).queue
  accept-kept entity r s q o h = subst P (sym (queue-accept entity r s)) (resolves r s q o h)

  take_result-kept :
      (entity : String) (r : PushResult) (o : PushOutcome) (theirs : Option Object)
      (s : MemoryStore)
      → Q r
      → r.outcome ≡ o
      → P s.queue
      → AllRan KeptStore (take_result number_of now type_error entity r o theirs s)
  unfolding write add_conflict ok_outcome
  take_result-kept entity r applied theirs s q e h = accept-kept entity r s q (rw e refl) h
  take_result-kept entity r merged theirs s q e h = accept-kept entity r s q (rw e refl) h
  take_result-kept entity r deduplicated theirs s q e h = accept-kept entity r s q (rw e refl) h
  take_result-kept entity r conflict (some theirs) s q e h =
      elim (Option-cases
        (merge_server_record entity theirs (data_of (read entity r.result_record_id s)))) [
          | inl unknown ↦ rw unknown h
          | inr (o, known) ↦ rw known h
        ]
  take_result-kept entity r conflict none s q e h = fails r _ now s h
  take_result-kept entity r rejected theirs s q e h = fails r _ now s h

  finish-kept :
      (r : PushResult) (c : SyncClient) (report : SyncRunReport) (t : Ran (MemoryStore × Bool))
      → AllRan KeptStore t
      → AllRan KeptClient (finish number_of now type_error r c report t)
  finish-kept r c report (done (s, failed)) h = h
  finish-kept r c report (thrown (s, failed) message) h = h

  apply_result-kept :
      (r : PushResult) (run : SyncClient × SyncRunReport)
      → Q r
      → KeptClient run
      → AllRan KeptClient (apply_result number_of now type_error r run)
  unfolding apply_result
  apply_result-kept r (c, report) q h =
      finish-kept r c report _
        (take_result-kept (entity_of r.result_op_id c) r r.outcome r.server_record c.store q refl h)

  apply_results-kept :
      (results : List PushResult) (run : SyncClient × SyncRunReport)
      → All Q results
      → KeptClient run
      → AllRan KeptClient (apply_results number_of now type_error results run)
  unfolding apply_results
  apply_results-kept [] run q h = h
  apply_results-kept (r ∷ results) run q h =
      AllRan-and_then KeptClient _ _ (apply_result-kept r run q.0 h)
        (λ run h. apply_results-kept results run q.1 h)

  with_results-Kept :
      (run : Run Server) (t : Ran (SyncClient × SyncRunReport))
      → AllRan KeptClient t
      → AllRan Kept (with_results w opts run t)
  with_results-Kept run (done (c, report)) h = h
  with_results-Kept run (thrown (c, report) message) h = h

  -- What the server answers has the property `Q`.
  abbrev pub Answers : Type 0
  Answers =
      (server : Server) (req : PushRequest) (response : PushResponse)
      → (push server req).1 ≡ some response
      → All Q response.results

  push_answer-Kept :
      (run : Run Server) (response : Option PushResponse)
      → ((r : PushResponse) → response ≡ some r → All Q r.results)
      → Kept run
      → AllRan Kept (push_answer w opts run response)
  unfolding set_state
  push_answer-Kept run none q h = h
  push_answer-Kept run (some response) q h =
      AllRan-and_then Kept _ _
        (with_results-Kept run _ (apply_results-kept response.results _ (q response refl) h))
        (λ run h. h)

  push_batch-Kept :
      (batch : List ChangeOp) (run : Run Server)
      → Answers
      → Kept run
      → AllRan Kept (push_batch w opts batch run)
  unfolding push_batch
  push_batch-Kept batch run a h =
      push_answer-Kept _ (push run.server (push_request w opts batch run)).1
        (λ r e. a run.server (push_request w opts batch run) r e) h

  push_batches-Kept :
      (batches : List (List ChangeOp)) (run : Run Server)
      → Answers
      → Kept run
      → AllRan Kept (push_batches w opts batches run)
  unfolding push_batches set_state
  push_batches-Kept [] run a h = h
  push_batches-Kept (batch ∷ batches) run a h =
      AllRan-and_then Kept _ _ (push_batch-Kept batch run a h)
        (λ run h. push_batches-Kept batches run a h)

  push_queue-Kept :
      (ps : List PendingOp) (run : Run Server)
      → Answers
      → Kept run
      → AllRan Kept (push_queue w opts run ps)
  unfolding set_state
  push_queue-Kept [] run a h = h
  push_queue-Kept (p ∷ ps) run a h = push_batches-Kept _ _ a (subst P (sym (ground arith)) h)

  count_pulled-Kept :
      (change : PullChange) (local : Option EntityRecord) (run : Run Server)
      → Kept run
      → AllRan Kept (count_pulled w opts run (apply_remote_change run.client.store change local))
  unfolding apply_remote_change write
  count_pulled-Kept change local run h =
      elim (Option-cases (remote_record (sync_meta change.change_entity) change local)) [
        | inl unknown ↦ rw unknown h
        | inr (rec, known) ↦ rw known h
      ]

  pull_changes-Kept :
      (changes : List PullChange) (run : Run Server)
      → Kept run
      → AllRan Kept (pull_changes w opts changes run)
  unfolding pull_changes
  pull_changes-Kept [] run h = h
  pull_changes-Kept (change ∷ changes) run h =
      AllRan-and_then Kept _ _ (count_pulled-Kept change _ run h)
        (λ run h. pull_changes-Kept changes run h)

  end_page-Kept :
      (response : PullResponse) (run : Run Server) → Kept run → Kept (end_page w opts response run)
  unfolding set_state
  end_page-Kept response run h = subst P (ground arith) h

  next_page-Kept :
      (response : PullResponse) (more : ℕ → Run Server → Ran (Run Server)) (b : Bool)
      (run : Run Server)
      → ((at : ℕ) (run : Run Server) → Kept run → AllRan Kept (more at run))
      → Kept run
      → AllRan Kept (next_page w opts response more b run)
  unfolding set_state
  next_page-Kept response more false run k h = h
  next_page-Kept response more true run k h = k response.response_cursor run h

  take_page-Kept :
      (more : ℕ → Run Server → Ran (Run Server)) (response : Option PullResponse) (run : Run Server)
      → ((at : ℕ) (run : Run Server) → Kept run → AllRan Kept (more at run))
      → Kept run
      → AllRan Kept (take_page w opts more run response)
  unfolding set_state
  take_page-Kept more none run k h = h
  take_page-Kept more (some response) run k h = elim (Bool-cases response.full_resync_required) [
    | inl again ↦ rw again h
    | inr page ↦ rw page (
        AllRan-and_then Kept _ _ (pull_changes-Kept response.changes run h) (λ run h.
          next_page-Kept response more response.has_more _ k (end_page-Kept response run h)))
  ]

  pull_pages-Kept :
      (pages at : ℕ) (run : Run Server) → Kept run → AllRan Kept (pull_pages w opts pages at run)
  unfolding pull_pages set_state
  pull_pages-Kept zero at run h = h
  pull_pages-Kept (suc pages) at run h =
      take_page-Kept (pull_pages w opts pages) _ _ (pull_pages-Kept pages) h

  settle_run-Kept : (r : Ran (Run Server)) → AllRan Kept r → Kept (settle_run w opts r)
  unfolding set_state
  settle_run-Kept (done run) h = h
  settle_run-Kept (thrown run message) h = h

  -- A run keeps the property.
  pub sync_once-kept :
      (server : Server) (c : SyncClient)
      → Answers
      → P c.store.queue
      → P (sync_once w opts server c).client.store.queue
  unfolding sync_once push_all pull_all
  sync_once-kept server c a h = settle_run-Kept _ (
      AllRan-and_then Kept _ _ (push_queue-Kept c.store.queue _ a h)
        (λ run h. pull_pages-Kept opts.max_pull_pages _ run h))
