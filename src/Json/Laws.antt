-- ===== src/Json/Laws.antt =====
-- Members of objects: reading after writing.
use newport_ms.Base.{
  String, ◌≡◌, refl, true, false, Option, none, some, [], ◌∷◌, arith, str_eq, eq_iff, includes,
  if◌then◌else◌,
}
use newport_ms.Json.{object_is, null, bool, num, dec, str, Value, Object, keys, get, put, spread}

pub get-put :
    (k j : String) (v : Value) (o : Object)
    → get j (put k v o) ≡ (if str_eq k j then some v else get j o)
unfolding get put
get-put k j v [] = refl
get-put k j v ((i, w) ∷ o) = ground (arith, eq_iff k j, eq_iff i k, eq_iff i j, get-put k j v o)

pub get_absent : (k : String) (o : Object) → includes (keys o) k ≡ false → get k o ≡ none
unfolding get
get_absent k [] h = refl
get_absent k ((j, v) ∷ o) h = ground (arith, get_absent k o)

pub get_present : (k : String) (o : Object) → get k o ≡ none → includes (keys o) k ≡ false
unfolding get
get_present k [] h = refl
get_present k ((j, v) ∷ o) h = ground (arith, get_present k o)

-- The keys of an object differ from one another.
abbrev pub UniqueKeys : Object → Type 0
UniqueKeys [] = Unit
UniqueKeys ((k, v) ∷ o) = (includes (keys o) k ≡ false) × UniqueKeys o

-- What the second object has wins; what it lacks is the first one's.
abbrev pub over : Option Value → Option Value → Option Value
over a none = a
over a (some v) = some v

pub get-spread :
    (k : String) (a b : Object) → UniqueKeys b → get k (spread a b) ≡ over (get k a) (get k b)
unfolding get spread
get-spread k a [] u = refl
get-spread k a ((j, v) ∷ b) u = ground (
  arith,
  get-spread k (put j v a) b u.1,
  get-put j k v a,
  get_absent j b u.0,
  eq_iff j k,
  get_absent k b,
)

-- What `Object.is` finds the same is the same.
pub object_is-eq : (a b : Value) → object_is (some a) b ≡ true → a ≡ b
unfolding object_is
object_is-eq null null h = refl
object_is-eq (bool true) (bool true) h = refl
object_is-eq (bool false) (bool false) h = refl
object_is-eq (num m) (num n) h = ground arith
object_is-eq (dec s) (dec t) h = ground (arith, eq_iff s t)
object_is-eq (str s) (str t) h = ground (arith, eq_iff s t)
object_is-eq _ _ h = cc
