-- ===== src/Client/Session.antt =====
-- `SyncClient.applyResults` of packages/domain/src/client.ts: what the device makes of the server's
-- answer. Parameters are what `Number` gives of a value, the time and the text of the exception on an
-- entity that `SYNC_META` lacks. The program's Arabic texts are given in English.
pub mod Run
pub mod Kept
pub mod Safe
pub mod Settled
use newport_ms.Base.{
  ℕ, zero, suc, ◌+◌, max, String, Bool, true, false, not, Option, none, some, List, [], ◌∷◌, ◌==◌,
  map, if◌then◌else◌,
}
use newport_ms.Json.{Value, num, str, Object, get, put}
use newport_ms.Json.Show.{decimal}
use newport_ms.Sync.Meta.{
  schema_version, ChangeOp, PushOutcome, applied, merged, conflict, rejected, deduplicated,
  PushRequest, PushResponse, PushResult, PullChange, PullRequest, PullResponse,
}
use newport_ms.Sync.Batches.{plan_push_batches}
use newport_ms.Client.Store.{
  EntityRecord, LocalConflict, MemoryStore, read, write, resolve_pending, fail_pending, get_state,
  set_state, add_conflict, clear_conflict, ok_outcome, cursor, schema_version_key, last_push_at,
  last_pull_at, clock_skew_ms, network_online,
}
use newport_ms.Client.Remote.{data_of, apply_remote_change, merge_server_record}
use newport_ms.Client.Queue.{SyncClient, entity_of, user_id_of, version_number, version_of}

-- The members of `SyncRunReport.pushed`.
pub record Pushed : Type 0 where
  pub applied_count : ℕ
  pub merged_count : ℕ
  pub conflict_count : ℕ
  pub rejected_count : ℕ
  pub dedup_count : ℕ
  pub failed_count : ℕ

-- `SyncRunReport`
pub record SyncRunReport : Type 0 where
  pub pushed : Pushed
  pub pulled : ℕ
  pub report_cursor : ℕ
  pub report_has_more : Bool
  pub report_full_resync : Bool
  pub report_reason : Option String
  pub online : Bool

-- What a step leaves, or what was there when an exception with a text was thrown.
pub data Ran (S : Type 0) : Type 0 where
  done : S → Ran S
  thrown : S → String → Ran S

abbrev pub and_then : {S : Type 0} → Ran S → (S → Ran S) → Ran S
and_then (done s) f = f s
and_then (thrown s message) f = thrown s message

pub record SyncClientOptions : Type 0 where
  pub device : String
  pub user : String
  pub batch_size : ℕ
  pub max_pull_pages : ℕ

abbrev pub count : PushOutcome → Pushed → Pushed
count applied p = record p { applied_count = suc p.applied_count }
count merged p = record p { merged_count = suc p.merged_count }
count deduplicated p = record p { dedup_count = suc p.dedup_count }
count conflict p = record p { conflict_count = suc p.conflict_count }
count rejected p = record p { rejected_count = suc p.rejected_count }

abbrev pub or_text : Option String → String → String
or_text none text = text
or_text (some t) text = t

-- The device's record takes the version that the server gave it.
abbrev pub accept_version :
    String → PushResult → Option EntityRecord → Option ℕ → MemoryStore → MemoryStore
accept_version entity r (some rec) (some v) s =
    write entity r.result_record_id
      (record rec { record_version = v; record_data = put "version" (num v) rec.record_data }) s
accept_version entity r _ _ s = s

abbrev pub accept : String → PushResult → MemoryStore → MemoryStore
accept entity r s =
    let resolved = resolve_pending r.result_op_id s in
    let written =
      accept_version entity r (read entity r.result_record_id resolved) r.server_version resolved in
    after r.outcome written
  where
    after : PushOutcome → MemoryStore → MemoryStore
    after deduplicated s = clear_conflict r.result_op_id s
    after _ s = s

module _ (number_of : Value → ℕ) (now type_error : String) where
  abbrev pub noted_conflict :
      String → PushResult → Object → Option EntityRecord → MemoryStore → MemoryStore
  noted_conflict entity r theirs rec s =
      add_conflict
        (record {
          conflict_op_id = r.result_op_id;
          conflict_entity = entity;
          conflict_record_id = r.result_record_id;
          conflict_outcome = conflict;
          reason = or_text r.reason_ar "conflict with the server's version";
          server = some theirs;
          client = data_of rec;
          conflict_at = now;
        })
        s

  abbrev pub write_merged :
      String
      → PushResult
      → Object
      → Option EntityRecord
      → Option Object
      → MemoryStore
      → Ran MemoryStore
  write_merged entity r theirs rec none s = thrown s type_error
  write_merged entity r theirs rec (some o) s = done (
      write entity r.result_record_id
        (record {
          id = r.result_record_id;
          record_version = version_number number_of (version_of rec) (get "version" theirs);
          is_deleted = false;
          record_data = o;
        })
        s)

  abbrev pub take_conflict : String → PushResult → Object → MemoryStore → Ran MemoryStore
  take_conflict entity r theirs s =
      let rec = read entity r.result_record_id s in
      write_merged entity r theirs rec (merge_server_record entity theirs (data_of rec))
        (noted_conflict entity r theirs rec s)

  abbrev pub refuse_op : PushResult → MemoryStore → MemoryStore
  refuse_op r s = fail_pending r.result_op_id (or_text r.reason_ar "refused by the server") now s

  -- The store after one result, and whether the operation failed.
  abbrev pub take_result :
      String → PushResult → PushOutcome → Option Object → MemoryStore → Ran (MemoryStore × Bool)
  take_result entity r applied theirs s = done (accept entity r s, false)
  take_result entity r merged theirs s = done (accept entity r s, false)
  take_result entity r deduplicated theirs s = done (accept entity r s, false)
  take_result entity r conflict (some theirs) s = mark (take_conflict entity r theirs s)
    where
      mark : Ran MemoryStore → Ran (MemoryStore × Bool)
      mark (done s) = done (s, false)
      mark (thrown s message) = thrown (s, false) message
  take_result entity r _ _ s = done (refuse_op r s, true)

  abbrev pub fail_count : Bool → Pushed → Pushed
  fail_count false p = p
  fail_count true p = record p { failed_count = suc p.failed_count }

  abbrev pub report_with : PushResult → SyncRunReport → Bool → SyncRunReport
  report_with r report failed = record report {
    pushed = fail_count failed (count r.outcome report.pushed);
  }

  abbrev pub finish :
      PushResult
      → SyncClient
      → SyncRunReport
      → Ran (MemoryStore × Bool)
      → Ran (SyncClient × SyncRunReport)
  finish r c report (done (s, failed)) = done (record c { store = s }, report_with r report failed)
  finish r c report (thrown (s, failed) message) =
      thrown (record c { store = s }, report_with r report failed) message

  -- One turn of the loop of `applyResults`.
  unfoldable pub apply_result :
      PushResult → SyncClient × SyncRunReport → Ran (SyncClient × SyncRunReport)
  apply_result r (c, report) =
      finish r c report
        (take_result (entity_of r.result_op_id c) r r.outcome r.server_record c.store)

  -- `applyResults(results, report)`
  unfoldable pub apply_results :
      List PushResult → SyncClient × SyncRunReport → Ran (SyncClient × SyncRunReport)
  apply_results [] run = done run
  apply_results (r ∷ results) run = and_then (apply_result r run) (apply_results results)
