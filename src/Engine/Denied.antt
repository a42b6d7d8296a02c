-- ===== src/Engine/Denied.antt =====
-- The columns that apps/api/src/sync/sync-engine.service.ts does not write: what `sanitize`, the
-- statements and the triggers leave of them.
use newport_ms.Base.{
  ◌≡◌, refl, ap, ◌∙◌, String, Bool, true, false, not, ◌&&◌, ◌||◌, Option, none, some, List, [], ◌∷◌,
  arith, str_eq, eq_iff, keep, includes, Bool-cases, inl, inr, ◌⊎◌, if◌then◌else◌,
}
use newport_ms.Engine.Values.{encoded, sanitize}
use newport_ms.Engine.Database.{text_of, or_text, Postgres}
use newport_ms.Engine.Statements.{has_column, cells, is_versioned, place, put_if, touched}
use newport_ms.Engine.Entities.{denied_columns}
use newport_ms.Json.{Value, Object, get, put, spread, keys}
use newport_ms.Json.Laws.{get-put}

-- The columns that a trigger writes.
abbrev pub trigger_columns : List String
trigger_columns = "version" ∷ "updatedAt" ∷ "syncSeq" ∷ []

-- A column that only the server and its other handlers write.
abbrev pub is_denied : String → Bool
is_denied c = includes denied_columns c && not (includes trigger_columns c)

pub includes_apart :
    (xs : List String) (c k : String)
    → includes xs c ≡ true
    → includes xs k ≡ false
    → str_eq k c ≡ false
includes_apart xs c k h e = elim (Bool-cases (str_eq k c)) [
  | inl t ↦ cc (ap (includes xs) ((eq_iff k c).0 t), h, e)
  | inr t ↦ t
]

pub sanitize-denied :
    (c : String) (o : Object) (cols : List String)
    → includes denied_columns c ≡ true
    → includes (keys (sanitize o cols)) c ≡ false
unfolding sanitize
sanitize-denied c [] cols h = refl
sanitize-denied c ((k, v) ∷ o) cols h =
    go (not (includes cols k)) (includes denied_columns k) refl (sanitize-denied c o cols h)
  where
    go :
        (b d : Bool)
        → includes denied_columns k ≡ d
        → includes (keys (sanitize o cols)) c ≡ false
        → includes (keys (if b || d then sanitize o cols else (k, v) ∷ sanitize o cols)) c ≡ false
    go true d e rest = rest
    go false true e rest = rest
    go false false e rest = ground (arith, rest, includes_apart denied_columns c k h e)

pub keep-absent :
    (c : String) (t : String × Value → Bool) (o : Object)
    → includes (keys o) c ≡ false
    → includes (keys (keep t o)) c ≡ false
keep-absent c t [] h = refl
keep-absent c t (m ∷ o) h = ground (arith, h, keep-absent c t o)

pub encoded-absent :
    (pg : Postgres) (table c : String) (o : Object)
    → includes (keys o) c ≡ false
    → includes (keys (cells pg table (encoded o))) c ≡ false
encoded-absent pg table c [] h = refl
encoded-absent pg table c (m ∷ o) h = ground (arith, h, encoded-absent pg table c o)

pub get-spread-absent :
    (c : String) (a b : Object) → includes (keys b) c ≡ false → get c (spread a b) ≡ get c a
unfolding spread
get-spread-absent c a [] h = refl
get-spread-absent c a ((k, v) ∷ b) h =
    ground (arith, h, get-spread-absent c (put k v a) b (ground (arith, h)), get-put k c v a)

pub put_if-other :
    (b : Bool) (k c : String) (v : Value) (o : Object)
    → str_eq k c ≡ false
    → get c (put_if b k v o) ≡ get c o
put_if-other false k c v o h = refl
put_if-other true k c v o h = ground (arith, h, get-put k c v o)

pub touched-other :
    (pg : Postgres) (table c : String) (old row : Object)
    → includes trigger_columns c ≡ false
    → get c (touched pg table old row) ≡ get c row
unfolding touched
touched-other pg table c old row h =
    put_if-other (is_versioned pg table) "version" c _ _ (ground (arith, h))
    ∙ put_if-other (is_versioned pg table) "syncSeq" c _ _ (ground (arith, h))
    ∙ put_if-other (has_column pg table "updatedAt") "updatedAt" c _ _ (ground (arith, h))

pub place-cases :
    (t i : String) (r : Object) (rows : String → String → Option Object) (u j : String)
    (row : Object)
    → place t i r rows u j ≡ some row
    → (r ≡ row) ⊎ (rows u j ≡ some row)
unfolding place
place-cases t i r rows u j row h =
    go (str_eq t u && str_eq (or_text (text_of (get "id" r)) i) j) (str_eq t u && str_eq i j) h
  where
    go :
        (b c : Bool)
        → (if b then some r else if c then none else rows u j) ≡ some row
        → (r ≡ row) ⊎ (rows u j ≡ some row)
    go true c e = inl (cc e)
    go false true e = cc e
    go false false e = inr e
