-- ===== src/Engine/Guarded.antt =====
-- What a device cannot write: apps/api/src/sync/sync-engine.service.ts.

use newport_ms.Engine.Statements.{is_clash}
use newport_ms.Base.{
  suc, ◌≡◌, refl, String, Bool, true, false, not, none, some, List, [], ◌∷◌, arith, includes, ◌⊎◌,
  if◌then◌else◌,
}
use newport_ms.Engine.Write.{project}
use newport_ms.Engine.Plan.{Plan}
use newport_ms.Engine.Values.{safe_columns, is_truthy, is_approved}
use newport_ms.Engine.Triple.{Triple}
use newport_ms.Engine.Database.{Database, Postgres}
use newport_ms.Engine.Statements.{has_column, put_if}
use newport_ms.Engine.Entities.{denied_columns}
use newport_ms.Json.{Object, num, get}
use newport_ms.Engine.Denied.{includes_apart}

-- What an operation on the record `i` of the table `t` leaves. Each row is what it was; or there was
-- no record, and a row is new where none was; or the record was there, and the row is the record's, or
-- stands where none was: then the record is kept, with the same in a column, under that row's id or, if
-- no row is left at it, under another one.
abbrev pub Untouched : String → String → String → Database → Database → Type 0
Untouched c t i old db =
    (u j : String)
    → (db.rows u j ≡ old.rows u j)
      ⊎ ((u ≡ t) × (old.rows t i ≡ none) × (old.rows t j ≡ none))
      ⊎ ((u ≡ t)
          × ((j ≡ i) ⊎ (old.rows t j ≡ none))
          × (before : Object) × (old.rows t i ≡ some before)
          × (k : String) × (row : Object) × (db.rows t k ≡ some row)
          × (get c row ≡ get c before)
          × ((k ≡ j) ⊎ (db.rows t j ≡ none)))

abbrev SameRows : Database → Database → Type 0
SameRows old db = db.rows ≡ old.rows

module _ (pg : Postgres) (c t i : String) (old db : Database) (row : Object)
    (same : SameRows old db) (free : is_clash pg t i row db ≡ false) where
  -- The row with the number of the log.
  abbrev numbered_row : Object
  numbered_row = put_if (has_column pg t "syncSeq") "syncSeq" (num (suc db.drawn)) row

safe_columns-denied :
    (c : String) (cols : List String)
    → includes denied_columns c ≡ true
    → includes (safe_columns cols) c ≡ false
safe_columns-denied c [] h = refl
safe_columns-denied c (k ∷ cols) h =
    go (includes denied_columns k) refl (safe_columns-denied c cols h)
  where
    go :
        (d : Bool)
        → includes denied_columns k ≡ d
        → includes (safe_columns cols) c ≡ false
        → includes (if not d then k ∷ safe_columns cols else safe_columns cols) c ≡ false
    go true e rest = rest
    go false e rest = ground (arith, rest, includes_apart denied_columns c k h e)

get-project :
    (c : String) (cols : List String) (row : Object)
    → includes cols c ≡ false
    → get c (project cols row) ≡ none
unfolding get
get-project c [] row h = refl
get-project c (k ∷ cols) row h = ground (arith, h, get-project c cols row)

-- The approval of a work order is not seen: the column that holds it is among those that the
-- engine does not read, so no work order counts as approved.
pub work_order_never_approved :
    (cols : List String) (row : Object)
    → is_approved (project (safe_columns cols) row) "workOrder" ≡ false
unfolding is_approved is_truthy
work_order_never_approved cols row = ground (
  arith,
  get-project "approverId" (safe_columns cols) row (safe_columns-denied "approverId" cols refl),
)
