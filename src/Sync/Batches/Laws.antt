-- ===== src/Sync/Batches/Laws.antt =====
-- What the batches hold, and how they are ordered.
use newport_ms.Base.{All-mono}
use mathlib.Core.List.{Perm, flatten}
use mathlib.Core.List.Perm
use newport_ms.Base.{
  ℕ, zero, suc, ◌≡◌, ◌≤◌, ◌<◌, refl, String, Bool, true, false, List, [], ◌∷◌, ◌++◌, arith, length,
  take, drop, take-append-drop, length-take-le, length-drop, All, Bool-cases, inl, inr, ap, ◌∙◌,
}
use newport_ms.Sync.Meta.{ChangeOp}
use newport_ms.Sync.Batches.{rank, slices, comes_first, insert_op, sort_ops, plan_push_batches}

-- With fuel for every item, the slices are the list, cut up.
flatten-slices {ℓ} :
    {A : Type ℓ} (fuel m : ℕ) (xs : List A)
    → 0 < m
    → length xs ≤ fuel
    → flatten (slices fuel m xs) ≡ xs
unfolding slices flatten
flatten-slices zero m [] p h = refl
flatten-slices zero m (x ∷ xs) p h = absurd (omega arith)
flatten-slices (suc fuel) m [] p h = refl
flatten-slices (suc fuel) zero (x ∷ xs) p h = absurd (omega arith)
flatten-slices (suc fuel) (suc m) (x ∷ xs) p h =
    ap (λ ys. take (suc m) (x ∷ xs) ++ ys)
      (flatten-slices fuel (suc m) (drop (suc m) (x ∷ xs)) p (omega (arith, length-drop m xs)))
    ∙ take-append-drop (suc m) (x ∷ xs)

-- Each slice has an item, and at most m of them.
slices-sized {ℓ} :
    {A : Type ℓ} (fuel m : ℕ) (xs : List A)
    → 0 < m
    → All (λ b. (0 < length b) × (length b ≤ m)) (slices fuel m xs)
unfolding slices flatten
slices-sized zero m xs p = tt
slices-sized (suc fuel) m [] p = tt
slices-sized (suc fuel) zero (x ∷ xs) p = absurd (omega arith)
slices-sized (suc fuel) (suc m) (x ∷ xs) p =
    ((omega arith, omega (arith, length-take-le m xs)), slices-sized fuel (suc m) (drop m xs) p)

module _ (not_after : String → String → Bool) where
  insert_op-perm : (a : ChangeOp) (ops : List ChangeOp) → Perm (insert_op not_after a ops) (a ∷ ops)
  unfolding insert_op
  insert_op-perm a [] = Perm.refl _
  insert_op-perm a (b ∷ ops) = elim (Bool-cases (comes_first not_after a b)) [
    | inl first ↦ rw first (Perm.refl _)
    | inr later ↦ rw later (Perm.trans (Perm.cons b (insert_op-perm a ops)) (Perm.swap a b ops))
  ]

  sort_ops-perm : (ops : List ChangeOp) → Perm (sort_ops not_after ops) ops
  unfolding sort_ops
  sort_ops-perm [] = Perm.refl _
  sort_ops-perm (op ∷ ops) =
      Perm.trans (insert_op-perm op (sort_ops not_after ops)) (Perm.cons op (sort_ops-perm ops))

  -- No operation of the list ranks before the given one.
  abbrev pub RanksFrom : ChangeOp → List ChangeOp → Type 0
  RanksFrom a = All (λ b. rank a ≤ rank b)

  abbrev pub RankSorted : List ChangeOp → Type 0
  RankSorted [] = Unit
  RankSorted (a ∷ ops) = RanksFrom a ops × RankSorted ops

  RanksFrom-trans :
      (a b : ChangeOp) (ops : List ChangeOp) → rank a ≤ rank b → RanksFrom b ops → RanksFrom a ops
  RanksFrom-trans a b ops h = All-mono ops (λ c k. omega arith)

  RanksFrom-insert_op :
      (c a : ChangeOp) (ops : List ChangeOp)
      → rank c ≤ rank a
      → RanksFrom c ops
      → RanksFrom c (insert_op not_after a ops)
  unfolding insert_op
  RanksFrom-insert_op c a [] h k = (h, tt)
  RanksFrom-insert_op c a (b ∷ ops) h k = elim (Bool-cases (comes_first not_after a b)) [
    | inl first ↦ rw first (h, k)
    | inr later ↦ rw later (k.0, RanksFrom-insert_op c a ops h k.1)
  ]

  comes_first-rank : (a b : ChangeOp) → comes_first not_after a b ≡ true → rank a ≤ rank b
  unfolding comes_first
  comes_first-rank a b h = ground arith

  later-rank : (a b : ChangeOp) → comes_first not_after a b ≡ false → rank b ≤ rank a
  unfolding comes_first
  later-rank a b h = ground arith

  insert_op-RankSorted :
      (a : ChangeOp) (ops : List ChangeOp) → RankSorted ops → RankSorted (insert_op not_after a ops)
  unfolding insert_op
  insert_op-RankSorted a [] s = (tt, tt)
  insert_op-RankSorted a (b ∷ ops) s = elim (Bool-cases (comes_first not_after a b)) [
    | inl first ↦
        let h = comes_first-rank a b first in rw first ((h, RanksFrom-trans a b ops h s.0), s)
    | inr later ↦
        rw later
          (RanksFrom-insert_op b a ops (later-rank a b later) s.0, insert_op-RankSorted a ops s.1)
  ]

  sort_ops-RankSorted : (ops : List ChangeOp) → RankSorted (sort_ops not_after ops)
  unfolding sort_ops
  sort_ops-RankSorted [] = tt
  sort_ops-RankSorted (op ∷ ops) =
      insert_op-RankSorted op (sort_ops not_after ops) (sort_ops-RankSorted ops)

  -- For a positive limit, and however texts compare: the batches hold every operation as often as
  -- the queue does, those of a more urgent entity before the others; and no batch is empty or longer
  -- than the limit.
  pub plan_push_batches_lem :
      (ops : List ChangeOp) (max_batch : ℕ)
      → 0 < max_batch
      → Perm (flatten (plan_push_batches not_after ops max_batch)) ops
        × RankSorted (flatten (plan_push_batches not_after ops max_batch))
        × All
            (λ b. (0 < length b) × (length b ≤ max_batch))
            (plan_push_batches not_after ops max_batch)
  plan_push_batches_lem ops max_batch p =
      let whole : flatten (plan_push_batches not_after ops max_batch) ≡ sort_ops not_after ops =
        unfold plan_push_batches in
        flatten-slices (length (sort_ops not_after ops)) max_batch (sort_ops not_after ops) p
          (omega arith) in
      (
        rw whole (sort_ops-perm ops),
        rw whole (sort_ops-RankSorted ops),
        unfold plan_push_batches in slices-sized (length (sort_ops not_after ops)) max_batch _ p,
      )
