-- ===== src/Engine/Frame.antt =====
-- Where the statements of apps/api/src/sync/sync-engine.service.ts place a row.
use newport_ms.Base.{Bool-cases}
use newport_ms.Base.{eq_iff}
use newport_ms.Base.{is_some}
use newport_ms.Base.{eq_refl}
use newport_ms.Base.{str_eq}
use newport_ms.Engine.Database.{text_of}
use newport_ms.Engine.Database.{or_text}
use newport_ms.Engine.Statements.{place}
use newport_ms.Json.{Value}
use newport_ms.Base.{
  ◌≡◌, refl, sym, ap, subst, String, Bool, true, false, not, ◌&&◌, Option, none, some, arith, inl,
  inr, ◌⊎◌,
}
use newport_ms.Engine.Statements.{put_if}
use newport_ms.Json.{Object, get}
use newport_ms.Engine.Denied.{put_if-other}

-- The id that a row is kept under.
abbrev pub own_id : Object → String → String
own_id row i = or_text (text_of (get "id" row)) i

pub own_id-put_if :
    (b : Bool) (v : Value) (row : Object) (i : String)
    → own_id (put_if b "syncSeq" v row) i ≡ own_id row i
own_id-put_if b v row i = ap (λ x. or_text (text_of x) i) (put_if-other b "syncSeq" "id" v row refl)

-- Where a row that takes no other row's id is placed: the other rows stay, it is under its own id,
-- and none is left under the id that it had.
pub place-frame :
    (t i : String) (r : Object) (rows : String → String → Option Object) (u j : String)
    → not (str_eq (own_id r i) i) && is_some (rows t (own_id r i)) ≡ false
    → (place t i r rows u j ≡ rows u j)
      ⊎ ((u ≡ t)
          × ((j ≡ i) ⊎ (rows t j ≡ none))
          × ((own_id r i ≡ j) ⊎ (place t i r rows t j ≡ none)))
unfolding place
place-frame t i r rows u j free =
    go (str_eq t u) (str_eq (own_id r i) j) (str_eq i j) refl refl refl
  where
    apart_sym : (x y : String) → str_eq x y ≡ false → str_eq y x ≡ false
    apart_sym x y h = elim (Bool-cases (str_eq y x)) [
      | inl e ↦ cc (ap (str_eq x) ((eq_iff y x).0 e), eq_refl x, h)
      | inr e ↦ e
    ]

    absent :
        (o : Option Object) → not (str_eq j i) && is_some o ≡ false → str_eq j i ≡ false → o ≡ none
    absent none h k = refl
    absent (some x) h k = ground (arith, h, k)

    go :
        (b c d : Bool)
        → str_eq t u ≡ b
        → str_eq (own_id r i) j ≡ c
        → str_eq i j ≡ d
        → (place t i r rows u j ≡ rows u j)
          ⊎ ((u ≡ t)
              × ((j ≡ i) ⊎ (rows t j ≡ none))
              × ((own_id r i ≡ j) ⊎ (place t i r rows t j ≡ none)))
    go false c d e f g = inl (simp (e))
    go true false false e f g = inl (simp (e, f, g))
    go true false true e f g = inr (
      sym ((eq_iff t u).0 e),
      inl (sym ((eq_iff i j).0 g)),
      inr (ground (arith, eq_refl t, f, g)),
    )
    go true true true e f g =
        inr
          (sym ((eq_iff t u).0 e), inl (sym ((eq_iff i j).0 g)), inl ((eq_iff (own_id r i) j).0 f))
    go true true false e f g = inr (
      sym ((eq_iff t u).0 e),
      inr (
          absent (rows t j)
            (subst (λ k. not (str_eq k i) && is_some (rows t k) ≡ false)
              ((eq_iff (own_id r i) j).0 f) free)
            (apart_sym i j g)),
      inl ((eq_iff (own_id r i) j).0 f),
    )

-- The row stands under its own id.
pub place-own :
    (t i : String) (r : Object) (rows : String → String → Option Object)
    → place t i r rows t (own_id r i) ≡ some r
unfolding place
place-own t i r rows = simp (eq_refl t, eq_refl (own_id r i))
