-- ===== src/Sync/Append.antt =====
-- `appendValue` of packages/domain/src/sync.ts: how a field that collects entries takes in those
-- of the device.
mod Fresh
pub mod Laws
use newport_ms.Base.{
  any, String, ◌≡◌, refl, Bool, true, false, Option, none, some, List, [], ◌∷◌, ◌++◌, map, str_eq,
  includes, if◌then◌else◌,
}
use newport_ms.Json.{
  object_is, Value, null, bool, num, dec, str, arr, obj, Items, nil, cons, Fields, end, field,
  to_list, from_list,
}
use newport_ms.Json.Show.{decimal, stringify}
use newport_ms.Sync.Lines.{to_lines, join_lines}

-- `seen.has(k)`
abbrev pub has : {K : Type 0} → (K → K → Bool) → List K → K → Bool
has same seen k = any (λ j. same j k) seen

module _ {A K : Type 0} (same : K → K → Bool) (key : A → K) where
  -- The items of `xs` whose key is neither in `seen` nor the key of an earlier item.
  unfoldable pub fresh_by : List K → List A → List A
  fresh_by seen [] = []
  fresh_by seen (x ∷ xs) = elim (has same seen (key x)) [
    | true ↦ fresh_by seen xs
    | false ↦ x ∷ fresh_by (key x ∷ seen) xs
  ]

abbrev pub same_line : String → String
same_line l = l

abbrev pub is_text : Option Value → Bool
is_text (some (str s)) = true
is_text _ = false

-- `toLines(v)`
abbrev pub lines_of : Option Value → List String
lines_of (some (str s)) = to_lines s
lines_of _ = []

-- `toArray(v)`
unfoldable pub to_array : Option Value → List Value
to_array none = []
to_array (some null) = []
to_array (some (arr vs)) = to_list vs
to_array (some v) = v ∷ []

-- The member `id` of an object.
abbrev pub id_of : Fields → Option Value
id_of end = none
id_of (field k v fs) = if str_eq k "id" then some v else id_of fs

-- `item.id ?? JSON.stringify(item)`
abbrev pub object_key : Option Value → String → Value
object_key none json = str json
object_key (some null) json = str json
object_key (some id) json = id

-- The key by which the entries of a list are told apart: an object's `id`, whatever it is, else its
-- JSON; the text of any other value.
unfoldable pub item_key : Value → Value
unfolding decimal
item_key null = str "null"
item_key (bool true) = str "true"
item_key (bool false) = str "false"
item_key (num n) = str (decimal n)
item_key (dec t) = str t
item_key (str s) = str s
item_key (arr vs) = str (stringify (arr vs))
item_key (obj fs) = object_key (id_of fs) (stringify (obj fs))

-- How a `Set` compares keys: as `Object.is` does.
abbrev pub same_key : Value → Value → Bool
same_key j k = object_is (some j) k

unfoldable pub append_lines : List String → List String → List String
append_lines a b = a ++ fresh_by str_eq same_line a b

unfoldable pub append_items : List Value → List Value → List Value
append_items a b = fresh_by same_key item_key [] (a ++ b)

-- `appendValue(serverVal, clientVal)`
unfoldable pub append_value : Option Value → Option Value → Value
append_value server client =
    if is_text server
    then str (join_lines (append_lines (lines_of server) (lines_of client)))
    else if is_text client
    then str (join_lines (append_lines (lines_of server) (lines_of client)))
    else arr (from_list (append_items (to_array server) (to_array client)))
