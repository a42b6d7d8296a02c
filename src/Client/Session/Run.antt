-- ===== src/Client/Session/Run.antt =====
-- `SyncClient.syncOnce` of packages/domain/src/client.ts, with `pushAll` and `pullAll`. The server is a
-- parameter: its states, and how it answers a request; `none` is an exception of the transport, whose
-- text is `network_error`. Further parameters are the order of texts, what `Number` gives of a value,
-- the time (one text for a run) and the clock's skew for a time of the server (`none` up to 30 seconds).
use newport_ms.Base.{
  ℕ, zero, suc, max, String, Bool, true, false, Option, none, some, List, [], ◌∷◌, ◌==◌, map,
  if◌then◌else◌,
}
use newport_ms.Client.Store.{
  PendingOp, EntityRecord, MemoryStore, read, get_state, set_state, cursor, schema_version_key,
  last_push_at, last_pull_at, clock_skew_ms, network_online,
}
use newport_ms.Json.{Value, str}
use newport_ms.Json.Show.{decimal}
use newport_ms.Sync.Meta.{
  schema_version, ChangeOp, PushRequest, PushResponse, PullChange, PullRequest, PullResponse,
}
use newport_ms.Sync.Batches.{plan_push_batches}
use newport_ms.Client.Remote.{apply_remote_change}
use newport_ms.Client.Queue.{SyncClient, user_id_of}
use newport_ms.Client.Session.{
  Pushed, SyncRunReport, Ran, done, thrown, and_then, SyncClientOptions, apply_results,
}

-- The server, the device and the report of the run.
pub record Run (Server : Type 0) : Type 0 where
  pub server : Server
  pub client : SyncClient
  pub report : SyncRunReport

-- What a run depends on that is not the program.
pub record World (Server : Type 0) : Type 0 where
  pub push : Server → PushRequest → Server × Option PushResponse
  pub pull : Server → PullRequest → Server × Option PullResponse
  pub not_after : String → String → Bool
  pub number_of : Value → ℕ
  pub skew : String → Option String
  pub now : String
  pub network_error : String
  pub type_error : String

abbrev pub no_pushed : Pushed
no_pushed = record {
  applied_count = 0;
  merged_count = 0;
  conflict_count = 0;
  rejected_count = 0;
  dedup_count = 0;
  failed_count = 0;
}

module _ {Server : Type 0} (w : World Server) (opts : SyncClientOptions) where
  open w use {push, pull, not_after, number_of, skew, now, network_error, type_error}

  abbrev pub keep_state : (MemoryStore → MemoryStore) → Run Server → Run Server
  keep_state f run = record run { client = record (run.client) { store = f run.client.store } }

  -- `raw ? Number(raw) : 0`; no cursor is kept as the empty text.
  abbrev pub cursor_of : Option String → ℕ
  cursor_of none = 0
  cursor_of (some raw) = number_of (str raw)

  -- `readCursor()`
  unfoldable pub read_cursor : SyncClient → ℕ
  read_cursor c = cursor_of (get_state cursor c.store)

  abbrev pub with_results : Run Server → Ran (SyncClient × SyncRunReport) → Ran (Run Server)
  with_results run (done (c, report)) = done (record run { client = c; report = report })
  with_results run (thrown (c, report) message) =
      thrown (record run { client = c; report = report }) message

  abbrev pub push_answer : Run Server → Option PushResponse → Ran (Run Server)
  push_answer run none = thrown run network_error
  push_answer run (some response) =
      and_then
        (with_results run (
          apply_results number_of now type_error response.results (
            run.client,
            record (run.report) {
              report_cursor = max run.report.report_cursor response.next_cursor;
            },
          )))
        (λ run. done (keep_state (set_state last_push_at now) run))

  abbrev pub push_request : List ChangeOp → Run Server → PushRequest
  push_request batch run = record {
    device_id = opts.device;
    user_id = user_id_of opts.user run.client;
    request_schema = schema_version;
    ops = batch;
  }

  -- One turn of the loop over the batches.
  unfoldable pub push_batch : List ChangeOp → Run Server → Ran (Run Server)
  push_batch batch run =
      let answer = push run.server (push_request batch run) in
      push_answer (record run { server = answer.0 }) answer.1

  unfoldable pub push_batches : List (List ChangeOp) → Run Server → Ran (Run Server)
  push_batches [] run = done (keep_state (set_state cursor (decimal run.report.report_cursor)) run)
  push_batches (batch ∷ batches) run = and_then (push_batch batch run) (push_batches batches)

  abbrev pub is_current : Option String → Bool
  is_current none = number_of (str (decimal schema_version)) == schema_version
  is_current (some local) = number_of (str local) == schema_version

  -- A device with another schema notes the present one, and reports it.
  abbrev pub check_schema : Run Server → Run Server
  check_schema run =
      if is_current (get_state schema_version_key run.client.store)
      then run
      else keep_state (set_state schema_version_key (decimal schema_version)) (record run {
        report = record (run.report) {
          report_full_resync = true;
          report_reason = some "the database schema changed: all will be synchronised again";
        };
      })

  abbrev pub push_queue : Run Server → List PendingOp → Ran (Run Server)
  push_queue run [] = done run
  push_queue run (p ∷ ps) =
      push_batches (plan_push_batches not_after (map (λ p. p.op) (p ∷ ps)) opts.batch_size)
        (check_schema run)

  -- `pushAll(report)`
  unfoldable pub push_all : Run Server → Ran (Run Server)
  push_all run = push_queue run run.client.store.queue

  abbrev pub count_pulled : Run Server → Option (MemoryStore × EntityRecord) → Ran (Run Server)
  count_pulled run none = thrown run type_error
  count_pulled run (some (s, rec)) = done (
      keep_state (λ old. s)
        (record run { report = record (run.report) { pulled = suc run.report.pulled } }))

  unfoldable pub pull_changes : List PullChange → Run Server → Ran (Run Server)
  pull_changes [] run = done run
  pull_changes (change ∷ changes) run =
      and_then
        (count_pulled run (
          apply_remote_change run.client.store change
            (read change.change_entity change.change_record_id run.client.store)))
        (pull_changes changes)

  abbrev pub note_skew : Option String → Run Server → Run Server
  note_skew none run = run
  note_skew (some time) run = go (skew time)
    where
      go : Option String → Run Server
      go none = run
      go (some ms) = keep_state (set_state clock_skew_ms ms) run

  -- What follows the last page.
  abbrev pub end_pull : ℕ → Run Server → Run Server
  end_pull at run =
      keep_state (set_state last_pull_at now) (keep_state (set_state cursor (decimal at)) run)

  -- The report and the clock after the changes of a page.
  abbrev pub end_page : PullResponse → Run Server → Run Server
  end_page response run = note_skew response.server_time (record run {
    report = record (run.report) {
      report_cursor = response.response_cursor;
      report_has_more = response.has_more;
    };
  })

  abbrev pub start_again : PullResponse → Run Server → Run Server
  start_again response run = keep_state (set_state cursor "0") (record run {
    report = record (run.report) {
      report_full_resync = true;
      report_reason = response.resync_reason;
      report_cursor = 0;
    };
  })

  abbrev pub next_page :
      PullResponse → (ℕ → Run Server → Ran (Run Server)) → Bool → Run Server → Ran (Run Server)
  next_page response more false run = done (end_pull response.response_cursor run)
  next_page response more true run = more response.response_cursor run

  abbrev pub take_page :
      (ℕ → Run Server → Ran (Run Server)) → Run Server → Option PullResponse → Ran (Run Server)
  take_page more run none = thrown run network_error
  take_page more run (some response) =
      if response.full_resync_required
      then done (start_again response run)
      else and_then (pull_changes response.changes run)
          (λ run. next_page response more response.has_more (end_page response run))

  abbrev pub pull_request : ℕ → PullRequest
  pull_request at = record { pull_device_id = opts.device; since_cursor = at; limit = 500 }

  -- The pages, at most `pages` of them, from the cursor `at`.
  unfoldable pub pull_pages : (pages at : ℕ) → Run Server → Ran (Run Server)
  pull_pages zero at run = done (end_pull at run)
  pull_pages (suc pages) at run =
      take_page (pull_pages pages) (record run { server = (pull run.server (pull_request at)).0 })
        (pull run.server (pull_request at)).1

  -- `pullAll(report)`
  unfoldable pub pull_all : Run Server → Ran (Run Server)
  pull_all run = pull_pages opts.max_pull_pages (read_cursor run.client) run

  abbrev pub first_report : SyncClient → SyncRunReport
  first_report c = record {
    pushed = no_pushed;
    pulled = 0;
    report_cursor = read_cursor c;
    report_has_more = false;
    report_full_resync = false;
    report_reason = none;
    online = true;
  }

  -- `offline(report, e)`: an exception ends the run, and the device is off the net.
  abbrev pub settle_run : Ran (Run Server) → Run Server
  settle_run (done run) = keep_state (set_state network_online "1") run
  settle_run (thrown run message) =
      keep_state (set_state network_online "0") (record run {
        report = record (run.report) { online = false; report_reason = some message };
      })

  -- `syncOnce()`
  unfoldable pub sync_once : Server → SyncClient → Run Server
  sync_once server c = settle_run (
      and_then (push_all (record { server = server; client = c; report = first_report c }))
        pull_all)

  -- `fullResync(entities)`: the reads of the records at its end change nothing.
  unfoldable pub full_resync : Server → SyncClient → Ran (Run Server)
  full_resync server c = pull_all (record {
    server = server;
    client = record c { store = set_state cursor "0" c.store };
    report = record (first_report c) { report_cursor = 0 };
  })
