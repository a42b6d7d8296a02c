-- ===== src/Sync/Lines.antt =====
-- The lines of a text, as `appendValue` of packages/domain/src/sync.ts takes them: split at each
-- newline, trimmed, without the empty ones, and joined again.
pub mod Laws
use Prim.Native.Char.{Char, code}
use Prim.Native.String.{◌++◌}
use text.Mathlib.TextLemmas.{append-nil}
use newport_ms.Base.{
  ℕ, String, ◌≡◌, refl, Bool, true, false, not, ◌||◌, ◌&&◌, List, [], ◌∷◌, map, ◌==◌, leb, str_eq,
  eq_iff, arith, keep, if◌then◌else◌, All, Bool-cases, inl, inr, ap,
}

-- The white space that `trim` takes off, line ends included.
unfoldable pub is_space : ℕ → Bool
is_space c =
    (leb 9 c && leb c 13)
    || c == 32
    || c == 160
    || c == 5760
    || (leb 8192 c && leb c 8202)
    || c == 8232
    || c == 8233
    || c == 8239
    || c == 8287
    || c == 12288
    || c == 65279

unfoldable pub trim_start : String → String
trim_start String.[] = String.[]
trim_start (String.◌∷◌ c s) = if is_space (code c) then trim_start s else String.◌∷◌ c s

-- A character before a text that has been trimmed at its end.
abbrev before_trimmed : Char → String → String
before_trimmed c String.[] = if is_space (code c) then String.[] else String.◌∷◌ c String.[]
before_trimmed c (String.◌∷◌ d s) = String.◌∷◌ c (String.◌∷◌ d s)

unfoldable pub trim_end : String → String
trim_end String.[] = String.[]
trim_end (String.◌∷◌ c s) = before_trimmed c (trim_end s)

-- `s.trim()`
unfoldable pub trim : String → String
unfolding trim_start trim_end
trim s = trim_end (trim_start s)

-- A character at the head of the first line.
abbrev onto_first : Char → List String → List String
onto_first c [] = []
onto_first c (l ∷ ls) = String.◌∷◌ c l ∷ ls

-- `s.split('\n')`
unfoldable pub split_lines : String → List String
split_lines String.[] = String.[] ∷ []
split_lines (String.◌∷◌ c s) =
    let rest = split_lines s in if code c == 10 then String.[] ∷ rest else onto_first c rest

-- `v.split('\n').map((x) => x.trim()).filter(Boolean)`
unfoldable pub to_lines : String → List String
unfolding split_lines
to_lines s = keep (λ l. not (str_eq l "")) (map trim (split_lines s))

abbrev pub newline : Char
newline = "\n"

-- `lines.join('\n')`
unfoldable pub join_lines : List String → String
join_lines [] = String.[]
join_lines (l ∷ []) = l
join_lines (l ∷ m ∷ ls) = l ++ String.◌∷◌ newline (join_lines (m ∷ ls))
