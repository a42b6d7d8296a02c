-- ===== src/Json.antt =====
-- The values that travel between a device and the server, and the objects that hold them.
-- A number is `num n` if it is natural, and else `dec t` by the text that `String` gives of it.
-- An object is the list of its members in their order; the field names of the program are no
-- array indices, which JavaScript would list first.
pub mod Show
pub mod Laws
use newport_ms.Base.{
  ℕ, String, ◌≡◌, refl, Bool, true, false, ◌&&◌, ◌||◌, Option, none, some, List, [], ◌∷◌, map, ◌==◌,
  str_eq, if◌then◌else◌,
}

mutual
  -- The members of an object.
  pub data Fields : Type 0 where
    field : (name : String) (value : Value) → Fields → Fields
    end : Fields

  pub data Value : Type 0 where
    obj : Fields → Value
    arr : Items → Value
    str dec : String → Value
    num : ℕ → Value
    bool : Bool → Value
    null : Value

  -- The items of a list.
  pub data Items : Type 0 where
    cons : (first : Value) → Items → Items
    nil : Items

abbrev pub to_list : Items → List Value
to_list nil = []
to_list (cons v vs) = v ∷ to_list vs

abbrev pub from_list : List Value → Items
from_list [] = nil
from_list (v ∷ vs) = cons v (from_list vs)

-- `Record<string, unknown>`
abbrev pub Object : Type 0
Object = List (String × Value)

abbrev pub keys : Object → List String
keys = map (λ m. m.0)

-- `o[k]`; `none` is `undefined`.
unfoldable pub get : String → Object → Option Value
get k [] = none
get k ((j, v) ∷ o) = if str_eq j k then some v else get k o

-- `o[k] = v`: a key that is there keeps its place.
unfoldable pub put : String → Value → Object → Object
put k v [] = (k, v) ∷ []
put k v ((j, w) ∷ o) = if str_eq j k then (k, v) ∷ o else (j, w) ∷ put k v o

-- `{ ...a, ...b }`
unfoldable pub spread : Object → Object → Object
unfolding put
spread a [] = a
spread a ((k, v) ∷ b) = spread (put k v a) b

-- `Object.is(a, b)` on a member that may be absent and a value. Two objects, or two arrays, come
-- from two documents that were parsed apart, so they are never one reference.
unfoldable pub object_is : Option Value → Value → Bool
object_is (some null) null = true
object_is (some (bool true)) (bool true) = true
object_is (some (bool false)) (bool false) = true
object_is (some (num m)) (num n) = m == n
object_is (some (dec s)) (dec t) = str_eq s t
object_is (some (str s)) (str t) = str_eq s t
object_is _ _ = false

-- `isBlank`
unfoldable pub is_blank : Option Value → Bool
is_blank none = true
is_blank (some null) = true
is_blank (some (str s)) = str_eq s ""
is_blank (some (arr nil)) = true
is_blank (some _) = false
