-- ===== src/Json/Show.antt =====
-- `String(v)` of a number, and `JSON.stringify`.
use Prim.Native.Char.{code}
use Prim.Native.String.{◌++◌}
use newport_ms.Base.{
  ◌≡◌, refl, ℕ, zero, suc, ◌/◌, ◌%◌, String, true, false, List, [], ◌∷◌, ◌==◌, ltb, if◌then◌else◌,
}
use newport_ms.Json.{
  Value, null, bool, num, dec, str, arr, obj, Items, nil, cons, Fields, end, field,
}

-- One digit, to base sixteen.
abbrev digit : ℕ → String
digit n = pick n (
    "0" ∷ "1" ∷ "2" ∷ "3" ∷ "4" ∷ "5" ∷ "6" ∷ "7" ∷ "8" ∷ "9" ∷ "a" ∷ "b" ∷ "c" ∷ "d" ∷ "e" ∷ "f"
    ∷ [])
  where
    pick : ℕ → List String → String
    pick n [] = ""
    pick zero (d ∷ ds) = d
    pick (suc n) (d ∷ ds) = pick n ds

-- The decimal digits of a number; `fuel` bounds how many there are.
abbrev decimal_go : (fuel n : ℕ) → String
decimal_go zero n = ""
decimal_go (suc fuel) n =
    let front = decimal_go fuel (n / 10) in if ltb n 10 then digit n else front ++ digit (n % 10)

-- `String(n)`: a number has at most n + 1 digits.
unfoldable pub decimal : ℕ → String
decimal n = decimal_go (suc n) n

escape_code : ℕ → String → String
escape_code n plain =
    if n == 34
    then "\\\""
    else if n == 92
    then "\\\\"
    else if n == 8
    then "\\b"
    else if n == 9
    then "\\t"
    else if n == 10
    then "\\n"
    else if n == 12
    then "\\f"
    else if n == 13
    then "\\r"
    else if ltb n 32
    then "\\u00" ++ (digit (n / 16) ++ digit (n % 16))
    else plain

escape : String → String
escape String.[] = ""
escape (String.◌∷◌ c s) = escape_code (code c) (String.◌∷◌ c String.[]) ++ escape s

quoted : String → String
quoted s = "\"" ++ (escape s ++ "\"")

unfoldable mutual
  unfolding quoted escape escape_code decimal

  -- `JSON.stringify(v)`
  pub stringify : Value → String
  stringify null = "null"
  stringify (bool true) = "true"
  stringify (bool false) = "false"
  stringify (num n) = decimal n
  stringify (dec t) = t
  stringify (str s) = quoted s
  stringify (arr nil) = "[]"
  stringify (arr (cons v vs)) = "[" ++ (stringify v ++ stringify_items vs)
  stringify (obj end) = "{}"
  stringify (obj (field k v fs)) =
      "{" ++ (quoted k ++ (":" ++ (stringify v ++ stringify_fields fs)))

  pub stringify_items : Items → String
  stringify_items nil = "]"
  stringify_items (cons v vs) = "," ++ (stringify v ++ stringify_items vs)

  pub stringify_fields : Fields → String
  stringify_fields end = "}"
  stringify_fields (field k v fs) =
      "," ++ (quoted k ++ (":" ++ (stringify v ++ stringify_fields fs)))

shown :
    stringify (arr (cons (num 120) (cons (obj (field "a" (str "x\"y") end)) nil)))
    ≡ "[120,{\"a\":\"x\\\"y\"}]"
unfolding stringify
shown = refl
