-- ===== src/Base/Maps.antt =====
-- A `Map` with keys that are texts: its entries in their order.
use Prim.Native.String.{String}
use mathlib.Core.Path.{◌≡◌, refl}
use mathlib.Core.Option.{Option, none, some}
use mathlib.Core.List.{List, [], ◌∷◌}
use native.Mathlib.Omega.{arith}
use text.Mathlib.Text.{◌==◌ as str_eq}
use text.Mathlib.TextEquality.{eq_iff}
use newport_ms.Base.Tests.{if◌then◌else◌}

module _ {ℓ} {A : Type ℓ} where
  -- `m.get(k)`
  unfoldable pub lookup : String → List (String × A) → Option A
  lookup k [] = none
  lookup k ((j, a) ∷ m) = if str_eq j k then some a else lookup k m

  -- `m.set(k, a)`: a key that is there keeps its place.
  unfoldable pub set : String → A → List (String × A) → List (String × A)
  set k a [] = (k, a) ∷ []
  set k a ((j, b) ∷ m) = if str_eq j k then (k, a) ∷ m else (j, b) ∷ set k a m

  -- `m.delete(k)`
  unfoldable pub delete : String → List (String × A) → List (String × A)
  delete k [] = []
  delete k ((j, b) ∷ m) = let rest = delete k m in if str_eq j k then rest else (j, b) ∷ rest

pub lookup-set {ℓ} :
    {A : Type ℓ} (k j : String) (a : A) (m : List (String × A))
    → lookup k (set j a m) ≡ (if str_eq j k then some a else lookup k m)
unfolding lookup set
lookup-set k j a [] = refl
lookup-set k j a ((i, b) ∷ m) =
    ground (arith, eq_iff j k, eq_iff i k, eq_iff i j, lookup-set k j a m)

pub lookup-delete {ℓ} :
    {A : Type ℓ} (k j : String) (m : List (String × A))
    → lookup k (delete j m) ≡ (if str_eq j k then none else lookup k m)
unfolding lookup delete
lookup-delete k j [] = ground arith
lookup-delete k j ((i, b) ∷ m) =
    ground (arith, eq_iff j k, eq_iff i k, eq_iff i j, lookup-delete k j m)
