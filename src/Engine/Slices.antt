-- ===== src/Engine/Slices.antt =====
-- Pieces of the log of apps/api/src/sync/sync-engine.service.ts, and the changes made of them.
use newport_ms.Base.{
  ℕ, zero, suc, ◌+◌, ◌≤◌, ◌<◌, ◌≡◌, refl, sym, ap, ◌∙◌, Bool, true, false, List, [], ◌∷◌, ◌++◌, map,
  arith, keep, take, drop, length, All, if◌then◌else◌,
}
use newport_ms.Engine.Order.{Rising}
use newport_ms.Engine.Pages.{Rises}
use newport_ms.Engine.Database.{LogRow}
use newport_ms.Engine.Pull.{change_of}
use newport_ms.Sync.Meta.{PullChange}

pub take-take : (n : ℕ) (xs : List LogRow) → take n (take (suc n) xs) ≡ take n xs
take-take zero xs = refl
take-take (suc n) [] = refl
take-take (suc n) (x ∷ xs) = ap (◌∷◌ x) (take-take n xs)

pub take-all : (n : ℕ) (xs : List LogRow) → length (take (suc n) xs) ≤ n → take n xs ≡ xs
take-all zero [] h = refl
take-all zero (x ∷ xs) h = ground (arith, h)
take-all (suc n) [] h = refl
take-all (suc n) (x ∷ xs) h = ap (◌∷◌ x) (take-all n xs (omega (arith, h)))

take-nil : (n : ℕ) → take {A = LogRow} n [] ≡ []
take-nil zero = refl
take-nil (suc n) = refl

pub length-map : (f : LogRow → PullChange) (xs : List LogRow) → length (map f xs) ≡ length xs
length-map f [] = refl
length-map f (x ∷ xs) = ap suc (length-map f xs)

suc_add : (m n : ℕ) → suc (m + n) ≡ suc m + n
suc_add m n = omega arith

pub take-drop-append :
    (m n : ℕ) (xs : List LogRow) → take m xs ++ take n (drop m xs) ≡ take (m + n) xs
take-drop-append zero n xs = ground arith
take-drop-append (suc m) n [] = take-nil n ∙ sym (take-nil (suc m + n))
take-drop-append (suc m) n (x ∷ xs) =
    ap (◌∷◌ x) (take-drop-append m n xs) ∙ ap (λ k. take k (x ∷ xs)) (suc_add m n)

pub map-append :
    (f : LogRow → PullChange) (xs ys : List LogRow) → map f xs ++ map f ys ≡ map f (xs ++ ys)
map-append f [] ys = refl
map-append f (x ∷ xs) ys = ap (◌∷◌ (f x)) (map-append f xs ys)

-- The numbers of the changes rise from above a bound, to another bound at most.
abbrev pub Ascending : ℕ → ℕ → List PullChange → Type 0
Ascending lo hi [] = Unit
Ascending lo hi (c ∷ cs) = ((lo < c.seq) × (c.seq ≤ hi)) × Ascending c.seq hi cs

pub Rising-le : (lo hi : ℕ) (rs : List LogRow) → Rising lo rs hi → All (λ r. r.log_seq ≤ hi) rs
Rising-le lo hi [] h = tt
Rising-le lo hi (r ∷ rs) h = (below r.log_seq rs h.1, Rising-le r.log_seq hi rs h.1)
  where
    below : (l : ℕ) (xs : List LogRow) → Rising l xs hi → l ≤ hi
    below l [] k = k
    below l (x ∷ xs) k = omega (arith, k.0, below x.log_seq xs k.1)

pub keep-All :
    (P : LogRow → Type 0) (t : LogRow → Bool) (xs : List LogRow) → All P xs → All P (keep t xs)
keep-All P t [] h = tt
keep-All P t (x ∷ xs) h = go (t x) (keep-All P t xs h.1)
  where
    go : (b : Bool) → All P (keep t xs) → All P (if b then x ∷ keep t xs else keep t xs)
    go true k = (h.0, k)
    go false k = k

pub take-All : (P : LogRow → Type 0) (n : ℕ) (xs : List LogRow) → All P xs → All P (take n xs)
take-All P zero xs h = tt
take-All P (suc n) [] h = tt
take-All P (suc n) (x ∷ xs) h = (h.0, take-All P n xs h.1)

pub Rises-Ascending :
    (lo hi : ℕ) (rs : List LogRow)
    → Rises lo rs
    → All (λ r. r.log_seq ≤ hi) rs
    → Ascending lo hi (map change_of rs)
unfolding change_of
Rises-Ascending lo hi [] h k = tt
Rises-Ascending lo hi (r ∷ rs) h k = ((h.0, k.0), Rises-Ascending r.log_seq hi rs h.1 k.1)
