-- ===== src/Client/Session/Safe.antt =====
-- What a run of the synchronisation keeps of the queue.
use newport_ms.Base.{
  String, ◌≡◌, true, false, ◌&&◌, some, List, [], ◌∷◌, All, any, arith, str_eq, ◌∙◌,
}
use newport_ms.Sync.Meta.{PushRequest, PushResponse, PushResult}
use newport_ms.Client.Store.{is_op, ok_outcome}
use newport_ms.Client.Store.Laws.{
  waits, UniqueOps, waits-resolve_pending, waits-fail_pending, resolve_pending-UniqueOps,
  fail_pending-UniqueOps,
}
use newport_ms.Client.Queue.{SyncClient}
use newport_ms.Client.Session.{SyncClientOptions}
use newport_ms.Client.Session.Run.{World, sync_once}
use newport_ms.Client.Session.Kept.{sync_once-kept}

-- An operation that the server never accepts is never lost: it waits in the queue after a run of the
-- synchronisation if it waited before, whatever the server answers besides, and also where the network
-- fails or an exception ends the run.
pub unaccepted_waits :
    {Server : Type 0} (w : World Server) (opts : SyncClientOptions) (k : String) (server : Server)
    (c : SyncClient)
    → ((s : Server) (req : PushRequest) (response : PushResponse)
        → (w.push s req).1 ≡ some response
        → All (λ r. (ok_outcome r.outcome && str_eq r.result_op_id k) ≡ false) response.results)
    → waits k c.store ≡ true
    → waits k (sync_once w opts server c).client.store ≡ true
unaccepted_waits w opts k server c a h =
    sync_once-kept w opts (λ ps. any (is_op k) ps ≡ true)
      (λ r. (ok_outcome r.outcome && str_eq r.result_op_id k) ≡ false)
      (λ r s q o h. waits-resolve_pending k r.result_op_id s ∙ ground arith)
      (λ r error now s h. waits-fail_pending k r.result_op_id error now s ∙ h) server c a h

every : (rs : List PushResult) → All {0, 0} (λ (r : PushResult). Unit) rs
every [] = tt
every (r ∷ rs) = (tt, every rs)

-- After a run no operation is in the queue twice, if none was before: whatever the server answers, and
-- also where an exception ends the run.
pub sync_once-UniqueOps :
    {Server : Type 0} (w : World Server) (opts : SyncClientOptions) (server : Server)
    (c : SyncClient)
    → UniqueOps c.store.queue
    → UniqueOps (sync_once w opts server c).client.store.queue
sync_once-UniqueOps w opts server c u =
    sync_once-kept w opts UniqueOps (λ r. Unit)
      (λ r s q o h. resolve_pending-UniqueOps r.result_op_id s h)
      (λ r error now s h. fail_pending-UniqueOps r.result_op_id error now s h) server c
      (λ s req response e. every response.results) u
