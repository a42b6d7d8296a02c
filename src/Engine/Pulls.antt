-- ===== src/Engine/Pulls.antt =====
-- What `pull` answers, apps/api/src/sync/sync-engine.service.ts: its bounds, what a device has
-- after several pulls, and what a push makes of them.
use newport_ms.Base.{
  length-take-le, ℕ, ◌+◌, ◌≤◌, ◌≡◌, refl, sym, ap, ◌∙◌, subst, String, Bool, true, false, ◌&&◌,
  ◌||◌, Option, none, some, is_some, List, [], ◌∷◌, ◌++◌, map, arith, keep, take, drop, length, All,
  if◌then◌else◌, ltb,
}
use newport_ms.Base.Maps.{lookup}
use newport_ms.Engine.Slices.{
  take-All, Rises-Ascending, Rising-le, length-map, take-drop-append, Ascending, keep-All,
  map-append, take-all, take-take,
}
use newport_ms.Engine.Pull.{
  is_one_of, seen, left_by, asked_for, in_pull_scope, moved, full_resync, page_response, gap,
  max_gap, visible, cursor_after, page_of, page_size, pull, change_of,
}
use newport_ms.Engine.Triple.{tried-Triple, ignoring-Triple, Leaves}
use newport_ms.Engine.Database.{failed, finished, Attempt, Device, Database, LogRow, Postgres}
use newport_ms.Engine.Statements.{change_device, set_device}
use newport_ms.Engine.Pages.{after, after-cursor_after, after-Rises, take-Rises, Rises}
use newport_ms.Engine.Order.{Rising}
use newport_ms.Json.{Object}
use newport_ms.Sync.Meta.{PullRequest, PullResponse}
use newport_ms.Security.Guard.{AccessContext}

module _ (pg : Postgres) (a : AccessContext) (entities : Option (List String)) where
  abbrev pub page : PullRequest → Database → List LogRow
  page input db = take (page_size input.limit) (visible pg a entities input.since_cursor db)

  page_of-page :
      (input : PullRequest) (db : Database) → page_of pg a entities input db ≡ page input db
  page_of-page input db =
      take-take (page_size input.limit) (visible pg a entities input.since_cursor db)

  -- A response without a full resynchronisation is the page with its cursor.
  pull-page :
      (input : PullRequest) (db : Database)
      → (pull pg a entities input db).1.full_resync_required ≡ false
      → (pull pg a entities input db).1 ≡ page_response pg a entities input db (page input db)
  unfolding pull
  pull-page input db h =
      go (ltb (max_gap pg a entities) (gap pg a entities input db)) h
      ∙ ap (page_response pg a entities input db) (page_of-page input db)
    where
      go :
          (b : Bool)
          → (if b
              then full_resync pg a entities input
              else page_response pg a entities input db
                  (page_of pg a entities input db)).full_resync_required
            ≡ false
          → (if b
              then full_resync pg a entities input
              else page_response pg a entities input db (page_of pg a entities input db))
            ≡ page_response pg a entities input db (page_of pg a entities input db)
      go true e = cc
      go false e = refl

  visible-after :
      (c : ℕ) (db : Database) → visible pg a entities c db ≡ after (seen pg a entities db) c db.log
  unfolding visible
  visible-after c db = refl

  visible-Rises :
      (c : ℕ) (db : Database) → Rising 0 db.log db.drawn → Rises c (visible pg a entities c db)
  unfolding visible
  visible-Rises c db h = after-Rises (seen pg a entities db) 0 db.drawn c db.log h

  visible-le :
      (c : ℕ) (db : Database)
      → Rising 0 db.log db.drawn
      → All (λ r. r.log_seq ≤ db.drawn) (visible pg a entities c db)
  unfolding visible
  visible-le c db h =
      keep-All (λ r. r.log_seq ≤ db.drawn) (λ r. ltb c r.log_seq && seen pg a entities db r) db.log
        (Rising-le 0 db.drawn db.log h)

  -- A page has at most as many changes as were asked for, and never more than 2000; their
  -- numbers rise, from above the cursor that was sent to the last number that was drawn.
  pub pull-Ascending :
      (input : PullRequest) (db : Database)
      → Rising 0 db.log db.drawn
      → (pull pg a entities input db).1.full_resync_required ≡ false
      → (length (pull pg a entities input db).1.changes ≤ page_size input.limit)
        × (length (pull pg a entities input db).1.changes ≤ 2000)
        × Ascending input.since_cursor db.drawn (pull pg a entities input db).1.changes
  pull-Ascending input db h e =
      subst
        (λ r.
          (length r.changes ≤ page_size input.limit)
          × (length r.changes ≤ 2000)
          × Ascending input.since_cursor db.drawn r.changes)
        (sym (pull-page input db e))
        (
          omega (arith, fits, length-map change_of (page input db)),
          omega (arith, fits, length-map change_of (page input db)),
          Rises-Ascending input.since_cursor db.drawn (page input db)
              (take-Rises input.since_cursor (page_size input.limit)
                (visible pg a entities input.since_cursor db)
                (visible-Rises input.since_cursor db h))
              (take-All (λ r. r.log_seq ≤ db.drawn) (page_size input.limit)
                (visible pg a entities input.since_cursor db) (visible-le input.since_cursor db h)),
        )
    where
      fits : length (page input db) ≤ page_size input.limit
      fits = length-take-le (page_size input.limit) (visible pg a entities input.since_cursor db)

  -- A response that says that there is no more holds every change that the user may see, after the
  -- cursor that was sent.
  pub pull_complete :
      (input : PullRequest) (db : Database)
      → (pull pg a entities input db).1.full_resync_required ≡ false
      → (pull pg a entities input db).1.has_more ≡ false
      → (pull pg a entities input db).1.changes
        ≡ map change_of (visible pg a entities input.since_cursor db)
  pull_complete input db e f =
      ap (λ (r : PullResponse). r.changes) (pull-page input db e)
      ∙ ap (map change_of) (
          take-all (page_size input.limit) (visible pg a entities input.since_cursor db)
            (ground (arith, f, ap (λ (r : PullResponse). r.has_more) (pull-page input db e))))

  abbrev SameLog : Database → Database → Type 0
  SameLog db d = (d.log ≡ db.log) × (d.rows ≡ db.rows)

  change_device-SameLog :
      (db d : Database) (id : String) (f : Device → Device) (o : Option Device)
      → SameLog db d
      → SameLog db (change_device pg id f o d)
  change_device-SameLog db d id f none i = i
  change_device-SameLog db d id f (some x) i = i

  set_device-SameLog :
      (db : Database) (id : String) (f : Device → Device)
      → SameLog db (left_by (set_device pg id f db))
  unfolding set_device
  set_device-SameLog db id f = left (set_device pg id f db) (
      ignoring-Triple (SameLog db) (SameLog db) _
        (tried-Triple (SameLog db) (SameLog db) (λ u. SameLog db) pg _ _ (λ d i. i)
          (λ d i. change_device-SameLog db d id f (lookup id d.devices) i))
        db (refl, refl))
    where
      left :
          (t : Attempt (Unit {0}))
          → Leaves (λ u. SameLog db) (SameLog db) t
          → SameLog db (left_by t)
      left (finished u d) l = l
      left (failed e d) l = l

  moved-SameLog :
      (input : PullRequest) (rs : List LogRow) (db : Database)
      → SameLog db (moved pg a entities input rs db)
  moved-SameLog input [] db = (refl, refl)
  moved-SameLog input (r ∷ rs) db = set_device-SameLog db input.pull_device_id _

  -- The query, on the two tables that it reads.
  abbrev visible_in : (String → String → Option Object) → List LogRow → ℕ → List LogRow
  visible_in rows log c =
      keep
        (λ r.
          ltb c r.log_seq
          && (asked_for entities r
              && (a.profile.is_facility_wide
                  || is_one_of r.log_sub_dept (pg.sections_of a.profile.dept)
                  || is_one_of r.actor (a.profile.profile_user ∷ [])
                  || is_some (rows "users" r.log_record))))
        log

  visible-same :
      (c : ℕ) (db d : Database)
      → SameLog db d
      → visible pg a entities c d ≡ visible pg a entities c db
  unfolding visible in_pull_scope
  visible-same c db d s = ap (λ l. visible_in d.rows l c) s.0 ∙ ap (λ t. visible_in t db.log c) s.1

  second_page :
      (first second : PullRequest) (db d : Database)
      → SameLog db d
      → Rising 0 db.log db.drawn
      → second.since_cursor ≡ cursor_after first.since_cursor (page first db)
      → page second d
        ≡ take
            (page_size second.limit)
            (drop (page_size first.limit) (visible pg a entities first.since_cursor db))
  unfolding visible
  second_page first second db d s h e = ap (take (page_size second.limit)) (
      visible-same second.since_cursor db d s
      ∙ ap (λ k. visible pg a entities k db) e
      ∙ after-cursor_after (seen pg a entities db) 0 db.drawn (page_size first.limit)
          first.since_cursor db.log h)

  pull-SameLog : (input : PullRequest) (db : Database) → SameLog db (pull pg a entities input db).0
  unfolding pull
  pull-SameLog input db = moved-SameLog input (page_of pg a entities input db) db

  changes_of :
      (input : PullRequest) (db : Database)
      → (pull pg a entities input db).1.full_resync_required ≡ false
      → (pull pg a entities input db).1.changes ≡ map change_of (page input db)
  changes_of input db e = ap (λ (r : PullResponse). r.changes) (pull-page input db e)

  -- Two pulls, the second from the cursor that the first one gave, bring together exactly the first
  -- changes that the user may see, as many as the two pages hold: none is lost, none comes twice.
  pub pull-pull :
      (first second : PullRequest) (db : Database)
      → Rising 0 db.log db.drawn
      → (pull pg a entities first db).1.full_resync_required ≡ false
      → second.since_cursor ≡ (pull pg a entities first db).1.response_cursor
      → (pull pg a entities second (pull pg a entities first db).0).1.full_resync_required ≡ false
      → (pull pg a entities first db).1.changes
          ++ (pull pg a entities second (pull pg a entities first db).0).1.changes
        ≡ map change_of (
            take
              (page_size first.limit + page_size second.limit)
              (visible pg a entities first.since_cursor db))
  pull-pull first second db h e f g =
      ap (λ cs. cs ++ (pull pg a entities second later).1.changes) (changes_of first db e)
      ∙ ap (λ cs. map change_of (page first db) ++ cs)
          (changes_of second later g
            ∙ ap (map change_of) (
                second_page first second db later (pull-SameLog first db) h
                  (f ∙ ap (λ (r : PullResponse). r.response_cursor) (pull-page first db e))))
      ∙ map-append change_of (page first db) _
      ∙ ap (map change_of) (
          take-drop-append (page_size first.limit) (page_size second.limit)
            (visible pg a entities first.since_cursor db))
    where
      later : Database
      later = (pull pg a entities first db).0
