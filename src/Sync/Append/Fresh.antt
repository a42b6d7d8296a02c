-- ===== src/Sync/Append/Fresh.antt =====
-- What the loop over `seen` keeps: generic facts on `fresh_by`.
use newport_ms.Base.{
  All-mono, ◌≡◌, refl, Bool, true, ◌||◌, List, [], ◌∷◌, ◌++◌, map, arith, All, Bool-cases, inl, inr,
  ap,
}
use newport_ms.Sync.Append.{has, fresh_by}

module _ {A K : Type 0} (same : K → K → Bool) (key : A → K)
    (trans : (i j k : K) → same i j ≡ true → same j k ≡ true → same i k ≡ true) where
  abbrev pub Known : List K → List A → Type 0
  Known seen = All (λ x. has same seen (key x) ≡ true)

  -- Nothing is fresh where all keys have been seen.
  pub fresh_of_Known :
      (seen : List K) (xs : List A) → Known seen xs → fresh_by same key seen xs ≡ []
  unfolding fresh_by
  fresh_of_Known seen [] h = refl
  fresh_of_Known seen (x ∷ xs) h = rw (h.0, fresh_by) (fresh_of_Known seen xs h.1)

  has_trans :
      (seen : List K) (j k : K) → has same seen j ≡ true → same j k ≡ true → has same seen k ≡ true
  has_trans [] j k h s = cc
  has_trans (i ∷ seen) j k h s = ground (arith, trans i j k, has_trans seen j k)

  -- A key that an item has is known after the fresh items, if it equals itself.
  pub known-fresh :
      (seen : List K) (xs : List A) (k : K)
      → (has same seen k || has same (map key xs) k) ≡ true
      → (has same seen k || has same (map key (fresh_by same key seen xs)) k) ≡ true
  unfolding fresh_by
  known-fresh seen [] k h = h
  known-fresh seen (x ∷ xs) k h = elim (Bool-cases (has same seen (key x))) [
    | inl old ↦
        rw (old, fresh_by) (known-fresh seen xs k (ground (arith, has_trans seen (key x) k)))
    | inr new ↦ rw (new, fresh_by) (ground (arith, known-fresh (key x ∷ seen) xs k))
  ]

  -- Taking the fresh items again, with items that are known, changes nothing.
  pub fresh_again :
      (seen : List K) (xs ys : List A)
      → All
          (λ y.
            (has same seen (key y) || has same (map key (fresh_by same key seen xs)) (key y))
            ≡ true)
          ys
      → fresh_by same key seen (fresh_by same key seen xs ++ ys) ≡ fresh_by same key seen xs
  unfolding fresh_by
  fresh_again seen [] ys h = fresh_of_Known seen ys (All-mono ys (λ y k. ground arith) h)
  fresh_again seen (x ∷ xs) ys h = elim (Bool-cases (has same seen (key x))) [
    | inl old ↦ rw (old, fresh_by) (fresh_again seen xs ys (rw (old, fresh_by) at h))
    | inr new ↦
        rw (new, fresh_by)
          (rw (new, fresh_by)
            (ap (◌∷◌ x) (
              fresh_again (key x ∷ seen) xs ys
                (All-mono ys (λ y k. ground arith) (rw (new, fresh_by) at h)))))
  ]

  -- Every item of a list is known by its own keys, if keys equal themselves.
  pub known_self :
      (xs : List A)
      → All (λ x. same (key x) (key x) ≡ true) xs
      → All (λ y. has same (map key xs) (key y) ≡ true) xs
  known_self [] h = tt
  known_self (x ∷ xs) h = (ground arith, All-mono xs (λ y k. ground arith) (known_self xs h.1))

  -- The fresh items are items of the list.
  pub fresh-subset :
      (seen : List K) (xs : List A) (k : K)
      → has same (map key (fresh_by same key seen xs)) k ≡ true
      → has same (map key xs) k ≡ true
  unfolding fresh_by
  fresh-subset seen [] k h = h
  fresh-subset seen (x ∷ xs) k h = elim (Bool-cases (has same seen (key x))) [
    | inl old ↦ ground (arith, fresh-subset seen xs k (rw (old, fresh_by) at h))
    | inr new ↦ let h' = rw (new, fresh_by) at h in ground (arith, fresh-subset (key x ∷ seen) xs k)
  ]

  pub All-fresh {κ} :
      (P : A → Type κ) (seen : List K) (xs : List A) → All P xs → All P (fresh_by same key seen xs)
  unfolding fresh_by
  All-fresh P seen [] h = tt
  All-fresh P seen (x ∷ xs) h = elim (Bool-cases (has same seen (key x))) [
    | inl old ↦ rw (old, fresh_by) (All-fresh P seen xs h.1)
    | inr new ↦ rw (new, fresh_by) (h.0, All-fresh P (key x ∷ seen) xs h.1)
  ]
