-- ===== src/Engine/Feed.antt =====
-- From `push` to `pull`, apps/api/src/sync/sync-engine.service.ts: what one device writes and another one
-- is sent.
use newport_ms.Base.{
  ℕ, ◌≤◌, ◌≡◌, refl, sym, ap, ◌∙◌, subst, String, Bool, true, false, Option, none, List, [], ◌∷◌,
  ◌++◌, map, arith, eq_iff, eq_refl, includes, All, if◌then◌else◌, ltb,
}
use newport_ms.Engine.Pages.{Rising-Above, Above, after}
use newport_ms.Engine.Slices.{Rising-le}
use newport_ms.Engine.Pull.{
  gap, seen, max_gap, page_of, page_response, full_resync, in_pull_scope, change_of, pull, visible,
}
use newport_ms.Engine.Order.{Rising-join, apply_ops-Grown, Rising}
use newport_ms.Engine.Pulls.{pull_complete}
use newport_ms.Engine.Push.{apply_ops}
use newport_ms.Engine.Database.{Database, LogRow, Postgres, without}
use newport_ms.Engine.Values.{strip_secrets, secret_keys}
use newport_ms.Json.{Object, get}
use newport_ms.Sync.Meta.{ChangeOp, PullRequest, PullChange}
use newport_ms.Security.Guard.{AccessContext}

get-without :
    (k : String) (ks : List String) (o : Object)
    → includes ks k ≡ true
    → get k (without ks o) ≡ none
unfolding get
get-without k ks [] h = refl
get-without k ks ((j, v) ∷ o) h = ground (arith, eq_iff j k, get-without k ks o h)

-- A change that carries none of the members that are secret.
abbrev pub Stripped : PullChange → Type 0
Stripped c = All (λ k. get k c.change_data ≡ none) secret_keys

change_of-Stripped : (r : LogRow) → Stripped (change_of r)
unfolding change_of strip_secrets
change_of-Stripped r = go secret_keys (λ k h. h)
  where
    go :
        (ks : List String)
        → ((k : String) → includes ks k ≡ true → includes secret_keys k ≡ true)
        → All (λ k. get k (without secret_keys r.payload) ≡ none) ks
    go [] f = tt
    go (k ∷ ks) f = (
      get-without k secret_keys r.payload (f k (ground (arith, eq_refl k))),
      go ks (λ j h. f j (ground (arith, h))),
    )

-- Whatever a row of the log holds, no change that is sent has a password's hash, an operation's id, a
-- cursor, or the record of failed logins.
pub pull-Stripped :
    (pg : Postgres) (a : AccessContext) (entities : Option (List String)) (input : PullRequest)
    (db : Database)
    → All Stripped (pull pg a entities input db).1.changes
unfolding pull
pull-Stripped pg a entities input db = go (ltb (max_gap pg a entities) (gap pg a entities input db))
  where
    stripped : (rs : List LogRow) → All Stripped (map change_of rs)
    stripped [] = tt
    stripped (r ∷ rs) = (change_of-Stripped r, stripped rs)

    go :
        (b : Bool)
        → All Stripped
            (if b
              then full_resync pg a entities input
              else page_response pg a entities input db (page_of pg a entities input db)).changes
    go true = tt
    go false = stripped (page_of pg a entities input db)

-- The rows that a batch adds follow the log's order, and so the whole log does.
pub apply_ops-Rising :
    (pg : Postgres) (a : AccessContext) (ops : List ChangeOp) (db : Database)
    → Rising 0 db.log db.drawn
    → Rising 0 (apply_ops pg a ops db).0.log (apply_ops pg a ops db).0.drawn
apply_ops-Rising pg a ops db h =
    let (more, e, r) = apply_ops-Grown pg a ops db in
    subst (λ l. Rising 0 l (apply_ops pg a ops db).0.drawn) (sym e)
      (Rising-join 0 db.drawn (apply_ops pg a ops db).0.drawn db.log more h r)

after-append :
    (g : LogRow → Bool) (c : ℕ) (xs ys : List LogRow)
    → All (λ r. r.log_seq ≤ c) xs
    → after g c (xs ++ ys) ≡ after g c ys
after-append g c [] ys h = refl
after-append g c (x ∷ xs) ys h = ground (arith, h.0, after-append g c xs ys h.1)

after-every :
    (g : LogRow → Bool) (c : ℕ) (xs : List LogRow)
    → ((r : LogRow) → g r ≡ true)
    → Above c xs
    → after g c xs ≡ xs
after-every g c [] t h = refl
after-every g c (x ∷ xs) t h = ground (arith, t x, h.0, after-every g c xs t h.1)

-- A user for the whole facility who pulls from the last number that was drawn before a batch, and is
-- told that there is no more, gets the rows that the batch added to the log, each of them once and
-- in their order, and nothing else.
pub push-pull :
    (pg : Postgres) (a b : AccessContext) (ops : List ChangeOp) (db : Database)
    (input : PullRequest)
    → Rising 0 db.log db.drawn
    → b.profile.is_facility_wide ≡ true
    → input.since_cursor ≡ db.drawn
    → (pull pg b none input (apply_ops pg a ops db).0).1.full_resync_required ≡ false
    → (pull pg b none input (apply_ops pg a ops db).0).1.has_more ≡ false
    → (more : List LogRow) × ((apply_ops pg a ops db).0.log ≡ db.log ++ more)
      × ((pull pg b none input (apply_ops pg a ops db).0).1.changes ≡ map change_of more)
unfolding visible in_pull_scope
push-pull pg a b ops db input h w c e f =
    let (more, g, r) = apply_ops-Grown pg a ops db in
    (
      more,
      g,
      pull_complete pg b none input (apply_ops pg a ops db).0 e f
          ∙ ap (map change_of) (
              ap (λ k. visible pg b none k (apply_ops pg a ops db).0) c
              ∙ ap (after (seen pg b none (apply_ops pg a ops db).0) db.drawn) g
              ∙ after-append _ db.drawn db.log more (Rising-le 0 db.drawn db.log h)
              ∙ after-every (seen pg b none (apply_ops pg a ops db).0) db.drawn more
                  (λ x. ground (arith, w))
                  (Rising-Above db.drawn db.drawn (apply_ops pg a ops db).0.drawn more (omega arith)
                    r)),
    )
