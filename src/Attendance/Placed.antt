-- ===== src/Attendance/Placed.antt =====
-- The shift that `assignShift` of packages/domain/src/attendance.ts gives to a punch.
use newport_ms.Base.{
  All-append, All-mono, any-append, ℕ, ◌≤◌, ◌≡◌, refl, ◌∙◌, subst, String, Bool, true, false, ◌&&◌,
  ◌||◌, some, List, [], ◌∷◌, ◌++◌, arith, str_eq, eq_refl, any, All, if◌then◌else◌, ◌==◌,
}
use newport_ms.Attendance.{
  first_candidate, RawPunch, assign_shift, candidate, is_better, shift_window, Candidate, is_inside,
  is_near, ShiftWindowDef, best, candidates_on, Calendar,
}

module _ (cal : Calendar) (t : ℕ) where
  -- Whether a candidate is of one of the shifts, on a day, with the instant near its window, and is
  -- exact if the instant lies inside.
  abbrev pub is_placed : String → List (String × ShiftWindowDef) → Candidate → Bool
  is_placed date ss c =
      str_eq c.work_date date
      && any
          (λ e.
            str_eq e.1.shift_code c.candidate_code
            && is_near t (shift_window cal date e.1)
            && c.exact == (if is_inside t (shift_window cal date e.1) then 0 else 1))
          ss

  -- Whether the instant lies in the window of some shift on a day.
  abbrev pub is_covered : String → List (String × ShiftWindowDef) → Bool
  is_covered date ss = any (λ e. is_inside t (shift_window cal date e.1)) ss

  candidates_on-placed :
      (date : String) (ss every : List (String × ShiftWindowDef))
      → ((c : Candidate) → is_placed date ss c ≡ true → is_placed date every c ≡ true)
      → All (λ c. is_placed date every c ≡ true) (candidates_on cal t date ss)
  unfolding candidates_on
  candidates_on-placed date [] every f = tt
  candidates_on-placed date ((k, s) ∷ ss) every f =
      go (is_near t (shift_window cal date s)) refl
        (candidates_on-placed date ss every (λ c h. f c (ground (arith, h))))
    where
      go :
          (b : Bool)
          → is_near t (shift_window cal date s) ≡ b
          → All (λ c. is_placed date every c ≡ true) (candidates_on cal t date ss)
          → All
              (λ c. is_placed date every c ≡ true)
              (if b
                then candidate t s.shift_code date (shift_window cal date s)
                  ∷ candidates_on cal t date ss
                else candidates_on cal t date ss)
      go true e rest = (
        f (candidate t s.shift_code date (shift_window cal date s))
            (ground (arith, e, eq_refl date, eq_refl s.shift_code)),
        rest,
      )
      go false e rest = rest

  candidates_on-covered :
      (date : String) (ss : List (String × ShiftWindowDef))
      → is_covered date ss ≡ true
      → any (λ c. c.exact == 0) (candidates_on cal t date ss) ≡ true
  unfolding candidates_on
  candidates_on-covered date [] h = h
  candidates_on-covered date ((k, s) ∷ ss) h =
      go (is_near t (shift_window cal date s)) (is_inside t (shift_window cal date s)) refl refl h
        (candidates_on-covered date ss)
    where
      found : Bool → Bool
      found b =
          any (λ c. c.exact == 0)
            (if b
              then candidate t s.shift_code date (shift_window cal date s)
                ∷ candidates_on cal t date ss
              else candidates_on cal t date ss)

      go :
          (b d : Bool)
          → is_near t (shift_window cal date s) ≡ b
          → is_inside t (shift_window cal date s) ≡ d
          → d || is_covered date ss ≡ true
          → (is_covered date ss ≡ true
              → any (λ c. c.exact == 0) (candidates_on cal t date ss) ≡ true)
          → found b ≡ true
      go true true e f k rest = ground (arith, f)
      go false true e f k rest = ground (arith, e, f)
      go true false e f k rest = ground (arith, rest k)
      go false false e f k rest = rest k

  best-All :
      (P : Candidate → Type 0) (cs : List Candidate) (c : Candidate)
      → P c
      → All P cs
      → P (best cal t c cs)
  unfolding best
  best-All P [] c h k = h
  best-All P (d ∷ ds) c h k = best-All P ds _ (pick (is_better cal t d c)) k.1
    where
      pick : (b : Bool) → P (if b then d else c)
      pick true = k.0
      pick false = h

  better-exact :
      (c d : Candidate)
      → ((if is_better cal t d c then d else c).exact ≤ c.exact)
        × ((if is_better cal t d c then d else c).exact ≤ d.exact)
  better-exact c d = go (is_better cal t d c) refl
    where
      go :
          (b : Bool)
          → is_better cal t d c ≡ b
          → ((if b then d else c).exact ≤ c.exact) × ((if b then d else c).exact ≤ d.exact)
      go true e = (ground (arith, e), omega arith)
      go false e = (omega arith, ground (arith, e))

  best-exact :
      (cs : List Candidate) (c : Candidate)
      → any (λ x. x.exact == 0) (c ∷ cs) ≡ true
      → (best cal t c cs).exact ≡ 0
  unfolding best
  best-exact [] c h = ground (arith, h)
  best-exact (d ∷ ds) c h =
      best-exact ds (if is_better cal t d c then d else c) (ground (arith, h, better-exact c d))

  first_candidate-cases :
      (cs : List Candidate) (c : Candidate) (P : Candidate → Type 0)
      → first_candidate cal t cs ≡ some c
      → All P cs
      → P c × (any (λ x. x.exact == 0) cs ≡ true → c.exact ≡ 0)
  first_candidate-cases [] c P h k = cc
  first_candidate-cases (d ∷ ds) c P h k =
      subst (λ x. P x × (any (λ y. y.exact == 0) (d ∷ ds) ≡ true → x.exact ≡ 0)) (same _ _ h)
        (best-All P ds d k.0 k.1, best-exact ds d)
    where
      same : (x y : Candidate) → some x ≡ some y → x ≡ y
      same x y e = cc e

-- The shift that a punch is given is one of the shifts, on the day that was asked for or the day
-- before, and the punch lies within four hours of its window; and if the punch lies inside the window of
-- some shift on one of the two days, it lies inside the window of the shift that it is given.
pub assign_shift_lem :
    (cal : Calendar) (punch : RawPunch) (shifts : List (String × ShiftWindowDef)) (date : String)
    (c : Candidate)
    → assign_shift cal punch shifts (some date) ≡ some c
    → (is_placed cal (cal.parse punch.punched_at) date shifts c
          || is_placed cal (cal.parse punch.punched_at) (cal.previous_date date) shifts c
        ≡ true)
      × (is_covered cal (cal.parse punch.punched_at) date shifts
              || is_covered cal (cal.parse punch.punched_at) (cal.previous_date date) shifts
            ≡ true
          → c.exact ≡ 0)
unfolding assign_shift
assign_shift_lem cal punch shifts date c h =
    let t = cal.parse punch.punched_at in
    let cs = candidates_on cal t date shifts in
    let ds = candidates_on cal t (cal.previous_date date) shifts in
    let (p, q) =
      first_candidate-cases cal t (cs ++ ds) c
        (λ x.
          is_placed cal t date shifts x || is_placed cal t (cal.previous_date date) shifts x ≡ true)
        h
        (All-append _ cs ds
          (All-mono cs (λ x k. ground (arith, k))
            (candidates_on-placed cal t date shifts shifts (λ x k. k)))
          (All-mono ds (λ x k. ground (arith, k))
            (candidates_on-placed cal t (cal.previous_date date) shifts shifts (λ x k. k)))) in
    (
      p,
      λ k. q (
          any-append (λ (x : Candidate). x.exact == 0) cs ds
          ∙ ground (
            arith,
            k,
            candidates_on-covered cal t date shifts,
            candidates_on-covered cal t (cal.previous_date date) shifts,
          )),
    )
