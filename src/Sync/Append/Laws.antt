-- ===== src/Sync/Append/Laws.antt =====
-- What appending does to lines and items.
use mathlib.Core.List.{append-nil, map-append}
use newport_ms.Base.{
  any-append, All-append, All-mono, subst, String, ◌≡◌, refl, sym, ◌∙◌, Bool, true, false, ◌||◌,
  Option, none, some, List, [], ◌∷◌, ◌++◌, map, arith, str_eq, eq_iff, eq_refl, includes, All,
  Bool-cases, inl, inr, ap,
}
use newport_ms.Json.{Value, str, arr, to_list, from_list}
use newport_ms.Json.Laws.{object_is-eq}
use newport_ms.Sync.Lines.{to_lines, join_lines}
use newport_ms.Sync.Lines.Laws.{IsLine, to_lines-IsLine, to_lines-join}
use newport_ms.Sync.Append.{
  has, fresh_by, same_line, is_text, lines_of, to_array, item_key, same_key, append_lines,
  append_items, append_value,
}
use newport_ms.Sync.Append.Fresh.{
  fresh_of_Known, known-fresh, fresh_again, known_self, fresh-subset, All-fresh,
}

line_trans : (i j k : String) → str_eq i j ≡ true → str_eq j k ≡ true → str_eq i k ≡ true
line_trans i j k p q = ground (arith, eq_iff i j, eq_iff j k, eq_iff i k)

key_trans : (i j k : Value) → same_key i j ≡ true → same_key j k ≡ true → same_key i k ≡ true
key_trans i j k p q = subst (λ v. same_key v k ≡ true) (sym (object_is-eq i j p)) q

map-same_line : (xs : List String) → map same_line xs ≡ xs
map-same_line [] = refl
map-same_line (x ∷ xs) = ap (◌∷◌ x) (map-same_line xs)

lines_refl : (xs : List String) → All (λ x. str_eq x x ≡ true) xs
lines_refl [] = tt
lines_refl (x ∷ xs) = (eq_refl x, lines_refl xs)

-- Appending the same lines again changes nothing.
append_lines_again : (a b : List String) → append_lines (append_lines a b) b ≡ append_lines a b
unfolding append_lines
append_lines_again a b =
    let f = fresh_by str_eq same_line a b in
    let known =
      All-mono b
        (λ y (h : has str_eq (map same_line b) y ≡ true).
          any-append (λ j. str_eq j y) a f
          ∙ rw (map-same_line f) at
              (known-fresh str_eq same_line line_trans a b y (ground (arith, h))))
        (known_self str_eq same_line line_trans b (lines_refl b)) in
    rw (fresh_of_Known str_eq same_line line_trans (a ++ f) b known) (append-nil _)

-- Appending the same items again changes nothing, if the key of each is one that equals itself.
append_items_again :
    (a b : List Value)
    → All (λ v. same_key (item_key v) (item_key v) ≡ true) b
    → append_items (append_items a b) b ≡ append_items a b
unfolding append_items
append_items_again a b h = fresh_again same_key item_key key_trans [] (a ++ b) b (
    All-mono b
      (λ y (k : has same_key (map item_key b) (item_key y) ≡ true).
        known-fresh same_key item_key key_trans [] (a ++ b) (item_key y) (
          rw map-append (
            any-append (λ j. same_key j (item_key y)) (map item_key a) (map item_key b)
            ∙ ground (arith, k))))
      (known_self same_key item_key key_trans b h))

to_list-from_list : (vs : List Value) → to_list (from_list vs) ≡ vs
to_list-from_list [] = refl
to_list-from_list (v ∷ vs) = ap (◌∷◌ v) (to_list-from_list vs)

lines_of-IsLine : (v : Option Value) → All IsLine (lines_of v)
lines_of-IsLine none = tt
lines_of-IsLine (some (str s)) = to_lines-IsLine s
lines_of-IsLine (some _) = tt

append_lines-IsLine :
    (a b : List String) → All IsLine a → All IsLine b → All IsLine (append_lines a b)
unfolding append_lines
append_lines-IsLine a b h k =
    All-append IsLine a (fresh_by str_eq same_line a b) h
      (All-fresh str_eq same_line line_trans IsLine a b k)

-- The lines of a text that was made by appending are the lines that were appended.
lines_of-appended :
    (server client : Option Value)
    → lines_of (some (str (join_lines (append_lines (lines_of server) (lines_of client)))))
      ≡ append_lines (lines_of server) (lines_of client)
lines_of-appended server client =
    to_lines-join _ (append_lines-IsLine _ _ (lines_of-IsLine server) (lines_of-IsLine client))

-- The keys by which the device's entries are told apart equal themselves: none is an object or a
-- list.
abbrev pub PlainKeys : Option Value → Type 0
PlainKeys v = All (λ x. same_key (item_key x) (item_key x) ≡ true) (to_array v)

-- Sending the same entries again adds nothing: if the keys of the device's entries are no objects or
-- lists, appending the device's value to the result gives the result.
pub append_value_again :
    (server client : Option Value)
    → PlainKeys client
    → append_value (some (append_value server client)) client ≡ append_value server client
unfolding append_value
append_value_again server client h = elim (Bool-cases (is_text server)) [
  | inl text ↦ rw text again
  | inr other ↦ elim (Bool-cases (is_text client)) [
    | inl text ↦ rw (other, text) again
    | inr other' ↦ rw (other, other') again_items
  ]
]
  where
    again :
        str (
          join_lines (
            append_lines
              (lines_of
                (some (str (join_lines (append_lines (lines_of server) (lines_of client))))))
              (lines_of client)))
        ≡ str (join_lines (append_lines (lines_of server) (lines_of client)))
    again =
        rw (lines_of-appended server client)
          (ap (λ (ls : List String). str (join_lines ls)) (append_lines_again _ _))

    again_items :
        arr (
          from_list (
            append_items
              (to_array (some (arr (from_list (append_items (to_array server) (to_array client))))))
              (to_array client)))
        ≡ arr (from_list (append_items (to_array server) (to_array client)))
    again_items =
        ap (λ (vs : List Value). arr (from_list vs))
          (unfold to_array in
            rw to_list-from_list (append_items_again (to_array server) (to_array client) h))

Bool-ext : (a b : Bool) → (a ≡ true → b ≡ true) → (b ≡ true → a ≡ true) → a ≡ b
Bool-ext true b f g = sym (f refl)
Bool-ext false true f g = g refl
Bool-ext false false f g = refl

members :
    (a b : List String) (l : String)
    → (includes a l || includes (fresh_by str_eq same_line a b) l) ≡ (includes a l || includes b l)
members a b l =
    Bool-ext _ _
      (λ h. ground (
        arith,
        h,
        λ (k : includes (fresh_by str_eq same_line a b) l ≡ true). rw map-same_line at (
            fresh-subset str_eq same_line line_trans a b l
              (rw (map-same_line (fresh_by str_eq same_line a b)) k)),
      ))
      (λ h.
        rw map-same_line at
          (known-fresh str_eq same_line line_trans a b l (rw (map-same_line b) h)))

-- A text that takes in a text begins with its own lines, in their order, and has, beyond them, the
-- lines of the other and no more; no line of its own is taken twice.
append_value_lines :
    (s c : String)
    → (rest : List String) × (lines_of (some (append_value (some (str s)) (some (str c))))
        ≡ to_lines s ++ rest)
      × ((l : String)
          → (includes (to_lines s) l || includes rest l)
            ≡ (includes (to_lines s) l || includes (to_lines c) l))
unfolding append_value
append_value_lines s c = (
  fresh_by str_eq same_line (to_lines s) (to_lines c),
  lines_of-appended (some (str s)) (some (str c)) ∙ (unfold append_lines in refl),
  λ l. members (to_lines s) (to_lines c) l,
)
