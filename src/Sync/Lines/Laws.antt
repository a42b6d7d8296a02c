-- ===== src/Sync/Lines/Laws.antt =====
-- Splitting and joining lines.
use Prim.Native.Char.{Char, code}
use Prim.Native.String.{◌++◌}
use text.Mathlib.TextLemmas.{cons-append, nil-append}
use newport_ms.Base.{
  String, ◌≡◌, refl, Bool, true, false, not, ◌||◌, List, [], ◌∷◌, map, ◌==◌, str_eq, arith, keep,
  All, Bool-cases, inl, inr, ap,
}
use newport_ms.Sync.Lines.{
  is_space, trim_start, before_trimmed, trim_end, trim, onto_first, split_lines, to_lines, newline,
  join_lines,
}

abbrev pub has_newline : String → Bool
has_newline String.[] = false
has_newline (String.◌∷◌ c s) = code c == 10 || has_newline s

-- A line as `toLines` leaves it: within one line, trimmed, and not empty.
pub record IsLine (l : String) : Type 0 where
  pub one_line : has_newline l ≡ false
  pub trimmed : trim l ≡ l
  pub not_empty : str_eq l "" ≡ false

abbrev starts_clean : String → Bool
starts_clean String.[] = true
starts_clean (String.◌∷◌ c s) = not (is_space (code c))

trim_start-clean : (s : String) → starts_clean (trim_start s) ≡ true
unfolding trim_start
trim_start-clean String.[] = refl
trim_start-clean (String.◌∷◌ c s) = ground (arith, trim_start-clean s)

trim_start_of_clean : (s : String) → starts_clean s ≡ true → trim_start s ≡ s
unfolding trim_start
trim_start_of_clean String.[] h = refl
trim_start_of_clean (String.◌∷◌ c s) h = ground arith

trim_end-clean : (s : String) → starts_clean s ≡ true → starts_clean (trim_end s) ≡ true
unfolding trim_end
trim_end-clean String.[] h = refl
trim_end-clean (String.◌∷◌ c s) h = clean (trim_end s)
  where
    clean : (r : String) → starts_clean (before_trimmed c r) ≡ true
    clean String.[] = ground arith
    clean (String.◌∷◌ d r) = h

trim_end-before_trimmed :
    (c : Char) (r : String) → trim_end r ≡ r → trim_end (before_trimmed c r) ≡ before_trimmed c r
unfolding trim_end
trim_end-before_trimmed c String.[] h = elim (Bool-cases (is_space (code c))) [
  | inl space ↦ rw space refl
  | inr other ↦ rw other (rw other refl)
]
trim_end-before_trimmed c (String.◌∷◌ d r) h = rw h refl

trim_end_idem : (s : String) → trim_end (trim_end s) ≡ trim_end s
unfolding trim_end
trim_end_idem String.[] = refl
trim_end_idem (String.◌∷◌ c s) = trim_end-before_trimmed c (trim_end s) (trim_end_idem s)

pub trim_idem : (s : String) → trim (trim s) ≡ trim s
unfolding trim
trim_idem s =
    rw
      (trim_start_of_clean (trim_end (trim_start s))
        (trim_end-clean (trim_start s) (trim_start-clean s)))
      (trim_end_idem (trim_start s))

newline-trim_start : (s : String) → has_newline s ≡ false → has_newline (trim_start s) ≡ false
unfolding trim_start
newline-trim_start String.[] h = refl
newline-trim_start (String.◌∷◌ c s) h = ground (arith, newline-trim_start s)

newline-before_trimmed :
    (c : Char) (r : String)
    → (code c == 10) ≡ false
    → has_newline r ≡ false
    → has_newline (before_trimmed c r) ≡ false
newline-before_trimmed c String.[] h k = elim (Bool-cases (is_space (code c))) [
  | inl space ↦ rw space refl
  | inr other ↦ rw other (ground arith)
]
newline-before_trimmed c (String.◌∷◌ d r) h k = ground arith

newline-trim_end : (s : String) → has_newline s ≡ false → has_newline (trim_end s) ≡ false
unfolding trim_end
newline-trim_end String.[] h = refl
newline-trim_end (String.◌∷◌ c s) h =
    newline-before_trimmed c (trim_end s) (ground arith) (newline-trim_end s (ground arith))

newline-trim : (s : String) → has_newline s ≡ false → has_newline (trim s) ≡ false
unfolding trim
newline-trim s h = newline-trim_end (trim_start s) (newline-trim_start s h)

abbrev OneLine : String → Type 0
OneLine l = has_newline l ≡ false

onto_first-OneLine :
    (c : Char) (ls : List String)
    → (code c == 10) ≡ false
    → All OneLine ls
    → All OneLine (onto_first c ls)
onto_first-OneLine c [] h k = k
onto_first-OneLine c (l ∷ ls) h k = (ground (arith, k.0), k.1)

split_lines-OneLine : (s : String) → All OneLine (split_lines s)
unfolding split_lines
split_lines-OneLine String.[] = (refl, tt)
split_lines-OneLine (String.◌∷◌ c s) = elim (Bool-cases (code c == 10)) [
  | inl at_end ↦ rw at_end (refl, split_lines-OneLine s)
  | inr inside ↦ rw inside (onto_first-OneLine c (split_lines s) inside (split_lines-OneLine s))
]

kept-IsLine :
    (ls : List String) → All OneLine ls → All IsLine (keep (λ l. not (str_eq l "")) (map trim ls))
kept-IsLine [] h = tt
kept-IsLine (l ∷ ls) h = elim (Bool-cases (str_eq (trim l) "")) [
  | inl empty ↦ rw empty (kept-IsLine ls h.1)
  | inr full ↦ rw full (
    record { one_line = newline-trim l h.0; trimmed = trim_idem l; not_empty = full },
    kept-IsLine ls h.1,
  )
]

-- Every line that `toLines` returns is one.
pub to_lines-IsLine : (s : String) → All IsLine (to_lines s)
unfolding to_lines
to_lines-IsLine s = kept-IsLine (split_lines s) (split_lines-OneLine s)

split-line : (l : String) → has_newline l ≡ false → split_lines l ≡ l ∷ []
unfolding split_lines
split-line String.[] h = refl
split-line (String.◌∷◌ c l) h = ground (arith, split-line l)

split-append_newline :
    (l rest : String)
    → has_newline l ≡ false
    → split_lines (l ++ String.◌∷◌ newline rest) ≡ l ∷ split_lines rest
unfolding split_lines
split-append_newline String.[] rest h = rw nil-append refl
split-append_newline (String.◌∷◌ c l) rest h =
    rw cons-append (ground (arith, split-append_newline l rest))

split-join :
    (l : String) (ls : List String)
    → All IsLine (l ∷ ls)
    → split_lines (join_lines (l ∷ ls)) ≡ l ∷ ls
unfolding join_lines
split-join l [] h = split-line l h.0.one_line
split-join l (m ∷ ls) h =
    rw (split-append_newline l (join_lines (m ∷ ls)) h.0.one_line)
      (ap (◌∷◌ l) (split-join m ls h.1))

kept_lines : (ls : List String) → All IsLine ls → keep (λ l. not (str_eq l "")) (map trim ls) ≡ ls
kept_lines [] h = refl
kept_lines (l ∷ ls) h = rw (h.0.trimmed, h.0.not_empty) (ap (◌∷◌ l) (kept_lines ls h.1))

-- Joining lines and splitting the text gives the same lines.
pub to_lines-join : (ls : List String) → All IsLine ls → to_lines (join_lines ls) ≡ ls
unfolding to_lines
to_lines-join [] h = unfold join_lines trim in refl
to_lines-join (l ∷ ls) h = rw (split-join l ls h) (kept_lines (l ∷ ls) h)
