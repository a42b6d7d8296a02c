-- ===== src/Engine/Pages.antt =====
-- The pages of `pull`, apps/api/src/sync/sync-engine.service.ts.
use newport_ms.Base.{
  ℕ, zero, suc, ◌≤◌, ◌<◌, ◌≡◌, refl, sym, ap, ◌∙◌, subst, Bool, true, false, ◌&&◌, List, [], ◌∷◌,
  arith, keep, take, drop, All, Bool-cases, inl, inr, ltb,
}
use newport_ms.Engine.Order.{Rising}
use newport_ms.Engine.Pull.{cursor_after}
use newport_ms.Engine.Database.{LogRow}

-- The rows after a number that pass a test.
abbrev pub after : (LogRow → Bool) → ℕ → List LogRow → List LogRow
after g c rs = keep (λ r. ltb c r.log_seq && g r) rs

-- Every row of a list has a number above a bound.
abbrev pub Above : ℕ → List LogRow → Type 0
Above c rs = All (λ r. c < r.log_seq) rs

pub Rising-Above : (c lo hi : ℕ) (rs : List LogRow) → c ≤ lo → Rising lo rs hi → Above c rs
Rising-Above c lo hi [] h k = tt
Rising-Above c lo hi (r ∷ rs) h k =
    (omega (arith, h, k.0), Rising-Above c r.log_seq hi rs (omega (arith, h, k.0)) k.1)

-- A cursor that every row is above of, or one below it: the same rows come after.
after-Above :
    (g : LogRow → Bool) (c d : ℕ) (rs : List LogRow)
    → Above c rs
    → Above d rs
    → after g c rs ≡ after g d rs
after-Above g c d [] h k = refl
after-Above g c d (r ∷ rs) h k = ground (arith, h.0, k.0, after-Above g c d rs h.1 k.1)

after-skip :
    (g : LogRow → Bool) (c : ℕ) (r : LogRow) (rs : List LogRow)
    → ltb c r.log_seq && g r ≡ false
    → after g c (r ∷ rs) ≡ after g c rs
after-skip g c r rs e = simp (e)

after-take :
    (g : LogRow → Bool) (c : ℕ) (r : LogRow) (rs : List LogRow)
    → ltb c r.log_seq && g r ≡ true
    → after g c (r ∷ rs) ≡ r ∷ after g c rs
after-take g c r rs e = simp (e)

-- The numbers rise from above a bound.
abbrev pub Rises : ℕ → List LogRow → Type 0
Rises lo [] = Unit
Rises lo (r ∷ rs) = (lo < r.log_seq) × Rises r.log_seq rs

-- Past a row that is kept, the rows after the cursor are those after the row.
after-next :
    (g : LogRow → Bool) (c hi : ℕ) (r : LogRow) (rs : List LogRow)
    → ltb c r.log_seq && g r ≡ true
    → Rising r.log_seq rs hi
    → after g c rs ≡ after g r.log_seq rs
after-next g c hi r rs e h =
    after-Above g c r.log_seq rs (Rising-Above c r.log_seq hi rs (ground (arith, e)) h)
      (Rising-Above r.log_seq r.log_seq hi rs (omega arith) h)

pub after-Rises :
    (g : LogRow → Bool) (lo hi c : ℕ) (rs : List LogRow) → Rising lo rs hi → Rises c (after g c rs)
after-Rises g lo hi c [] h = tt
after-Rises g lo hi c (r ∷ rs) h = elim (Bool-cases (ltb c r.log_seq && g r)) [
  | inl e ↦ subst (Rises c) (sym (after-take g c r rs e)) (
    ground (arith, e),
    subst (Rises r.log_seq) (sym (after-next g c hi r rs e h.1))
        (after-Rises g r.log_seq hi r.log_seq rs h.1),
  )
  | inr e ↦ subst (Rises c) (sym (after-skip g c r rs e)) (after-Rises g r.log_seq hi c rs h.1)
]

pub take-Rises : (c n : ℕ) (rs : List LogRow) → Rises c rs → Rises c (take n rs)
take-Rises c zero rs h = tt
take-Rises c (suc n) [] h = tt
take-Rises c (suc n) (r ∷ rs) h = (h.0, take-Rises r.log_seq n rs h.1)

cursor_after-ge : (c : ℕ) (page : List LogRow) → Rises c page → c ≤ cursor_after c page
cursor_after-ge c [] h = omega arith
cursor_after-ge c (r ∷ page) h = omega (arith, h.0, cursor_after-ge r.log_seq page h.1)

-- What comes after the cursor that a page leaves is what the page did not hold.
pub after-cursor_after :
    (g : LogRow → Bool) (lo hi n c : ℕ) (rs : List LogRow)
    → Rising lo rs hi
    → after g (cursor_after c (take n (after g c rs))) rs ≡ drop n (after g c rs)
after-cursor_after g lo hi zero c rs h = refl
after-cursor_after g lo hi (suc n) c [] h = refl
after-cursor_after g lo hi (suc n) c (r ∷ rs) h = elim (Bool-cases (ltb c r.log_seq && g r)) [
  | inl e ↦
      subst (λ x. after g (cursor_after c (take (suc n) x)) (r ∷ rs) ≡ drop (suc n) x)
        (sym (after-take g c r rs e ∙ ap (◌∷◌ r) (after-next g c hi r rs e h.1)))
        (after-skip g (cursor_after r.log_seq (take n (after g r.log_seq rs))) r rs (
            ground (
              arith,
              cursor_after-ge r.log_seq (take n (after g r.log_seq rs)) (
                  take-Rises r.log_seq n (after g r.log_seq rs)
                    (after-Rises g r.log_seq hi r.log_seq rs h.1)),
            ))
          ∙ after-cursor_after g r.log_seq hi n r.log_seq rs h.1)
  | inr e ↦
      subst (λ x. after g (cursor_after c (take (suc n) x)) (r ∷ rs) ≡ drop (suc n) x)
        (sym (after-skip g c r rs e))
        (after-skip g (cursor_after c (take (suc n) (after g c rs))) r rs (
            ground (
              arith,
              e,
              cursor_after-ge c (take (suc n) (after g c rs))
                  (take-Rises c (suc n) (after g c rs) (after-Rises g r.log_seq hi c rs h.1)),
            ))
          ∙ after-cursor_after g r.log_seq hi (suc n) c rs h.1)
]
