-- ===== src/Engine/Pull.antt =====
-- `pull` of apps/api/src/sync/sync-engine.service.ts. The log's rows stand in the order of their numbers,
-- which is the order that the query asks for; the response's time is left out, and
-- where the log's sequence cannot be read, the greatest number of the log is.
use newport_ms.Base.{
  ℕ, suc, ◌-◌, max, min, String, Bool, true, false, ◌&&◌, ◌||◌, Option, none, some, is_some, List,
  [], ◌∷◌, map, keep, includes, take, length, if◌then◌else◌, ltb,
}
use newport_ms.Engine.Database.{
  failed, finished, Attempt, seq_of, last_value, Database, LogRow, Postgres,
}
use newport_ms.Engine.Statements.{set_device}
use newport_ms.Engine.Values.{strip_secrets}
use newport_ms.Json.{Value, null, get}
use newport_ms.Sync.Meta.{PullRequest, PullResponse, PullChange}
use newport_ms.Security.Guard.{AccessContext}

-- `Math.min(Math.max(1, input.limit), 2000)`
abbrev pub page_size : ℕ → ℕ
page_size limit = min (max 1 limit) 2000

abbrev is_set : Option Value → Bool
is_set none = false
is_set (some null) = false
is_set (some v) = true

-- A change as it is sent.
unfoldable pub change_of : LogRow → PullChange
change_of r = record {
  seq = r.log_seq;
  change_entity = r.log_entity;
  change_record_id = r.log_record;
  version = r.log_version;
  deleted = r.is_delete_op || is_set (get "deletedAt" r.payload);
  change_data = strip_secrets r.payload;
}

abbrev pub is_one_of : Option String → List String → Bool
is_one_of none ts = false
is_one_of (some s) ts = includes ts s

-- The condition on the entity; an empty list asks for every one.
abbrev pub asked_for : Option (List String) → LogRow → Bool
asked_for none r = true
asked_for (some []) r = true
asked_for (some (e ∷ es)) r = includes (e ∷ es) r.log_entity

-- The number of the last change, or the cursor if there is none.
abbrev pub cursor_after : ℕ → List LogRow → ℕ
cursor_after cursor [] = cursor
cursor_after cursor (r ∷ page) = cursor_after r.log_seq page

-- The database that an attempt leaves.
abbrev pub left_by : Attempt (Unit {0}) → Database
left_by (finished u db) = db
left_by (failed e db) = db

abbrev pub has_rows : List LogRow → Bool
has_rows [] = false
has_rows (r ∷ rs) = true

module _ (pg : Postgres) (a : AccessContext) (entities : Option (List String)) where
  -- `pullScope(access)`
  unfoldable pub in_pull_scope : Database → LogRow → Bool
  in_pull_scope db r =
      a.profile.is_facility_wide
      || is_one_of r.log_sub_dept (pg.sections_of a.profile.dept)
      || is_one_of r.actor (a.profile.profile_user ∷ [])
      || is_some (db.rows "users" r.log_record)

  -- The conditions on the entity and on the user.
  abbrev pub seen : Database → LogRow → Bool
  seen db r = asked_for entities r && in_pull_scope db r

  -- The rows that the query selects.
  unfoldable pub visible : ℕ → Database → List LogRow
  visible cursor db = keep (λ r. ltb cursor r.log_seq && seen db r) db.log

  abbrev pub page_of : PullRequest → Database → List LogRow
  page_of input db =
      take (page_size input.limit)
        (take (suc (page_size input.limit)) (visible input.since_cursor db))

  abbrev pub moved : PullRequest → List LogRow → Database → Database
  moved input page db =
      if has_rows page
      then left_by (
          set_device pg input.pull_device_id
            (λ d. record d { last_pull_cursor = cursor_after input.since_cursor page }) db)
      else db

  abbrev pub max_gap : ℕ
  max_gap = 500000

  abbrev pub full_resync : PullRequest → PullResponse
  full_resync input = record {
    server_time = none;
    response_cursor = input.since_cursor;
    has_more = false;
    changes = [];
    full_resync_required = true;
    resync_reason = some "the log no longer reaches back far enough";
  }

  abbrev pub page_response : PullRequest → Database → List LogRow → PullResponse
  page_response input db page = record {
    server_time = none;
    response_cursor = cursor_after input.since_cursor page;
    has_more =
        ltb (page_size input.limit)
          (length (take (suc (page_size input.limit)) (visible input.since_cursor db)));
    changes = map change_of page;
    full_resync_required = false;
    resync_reason = none;
  }

  -- How far the log has gone past the page.
  abbrev pub gap : PullRequest → Database → ℕ
  gap input db =
      seq_of (pg.refuses last_value db) db - cursor_after input.since_cursor (page_of input db)

  -- `pull(input, access)`
  unfoldable pub pull : PullRequest → Database → Database × PullResponse
  pull input db = (
    moved input (page_of input db) db,
    if ltb max_gap (gap input db)
        then full_resync input
        else page_response input db (page_of input db),
  )
