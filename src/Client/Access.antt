-- ===== src/Client/Access.antt =====
-- `AccessView` of packages/domain/src/client.ts: the device's copy of what its user may do.
pub mod Laws
use newport_ms.Base.{
  ℕ, String, Bool, true, false, ◌||◌, Option, none, some, is_some, List, [], ◌∷◌, map, str_eq, any,
  keep, length, ltb, if◌then◌else◌,
}
use newport_ms.Base.Maps.{lookup, set}

-- `SCOPE_RANK[scope] ?? 0`
unfoldable pub view_rank : String → ℕ
view_rank scope =
    if str_eq scope "SELF"
    then 1
    else if str_eq scope "TEAM"
    then 2
    else if str_eq scope "SUBDEPT"
    then 3
    else if str_eq scope "DEPT"
    then 4
    else if str_eq scope "ALL"
    then 5
    else 0

-- `GrantPair`
pub record GrantPair : Type 0 where
  pub pair_code : String
  pub pair_scope : String

-- `AccessView`
pub record AccessView : Type 0 where
  pub view_grants : List (String × String)
  pub roles : List String
  pub facility_wide : Bool

-- `!cur || SCOPE_RANK[g.scope] > SCOPE_RANK[cur]`; the empty text is no scope.
abbrev pub is_wider : Option String → String → Bool
is_wider none scope = true
is_wider (some cur) scope = str_eq cur "" || ltb (view_rank cur) (view_rank scope)

-- One turn of the constructor's loop.
unfoldable pub add_grant : GrantPair → List (String × String) → List (String × String)
add_grant g m =
    if is_wider (lookup g.pair_code m) g.pair_scope then set g.pair_code g.pair_scope m else m

unfoldable pub add_grants : List GrantPair → List (String × String) → List (String × String)
add_grants [] m = m
add_grants (g ∷ gs) m = add_grants gs (add_grant g m)

-- `new AccessView(grants, roles, facilityWide)`
unfoldable pub access_view : List GrantPair → List String → Bool → AccessView
access_view grants roles facility_wide = record {
  view_grants = add_grants grants [];
  roles = roles;
  facility_wide = facility_wide;
}

-- `can(code)`
unfoldable pub can : String → AccessView → Bool
can code v = is_some (lookup code v.view_grants)

-- `scopeOf(code)`
unfoldable pub scope_of_code : String → AccessView → Option String
scope_of_code code v = lookup code v.view_grants

abbrev pub is_all_scope : Option String → Bool
is_all_scope none = false
is_all_scope (some scope) = str_eq scope "ALL"

-- `isFacilityWide`
unfoldable pub is_facility_wide : AccessView → Bool
is_facility_wide v =
    v.facility_wide
    || (is_all_scope (lookup "*" v.view_grants)
        || any (λ (g : String × String). str_eq g.1 "ALL") v.view_grants)

-- `size`
unfoldable pub size : AccessView → ℕ
size v = length v.view_grants

abbrev pub is_open : Option String → AccessView → Bool
is_open none v = true
is_open (some code) v = str_eq code "" || is_some (lookup code v.view_grants)

-- `filter(items, codeFor)`
unfoldable pub filter {ℓ} : {A : Type ℓ} → List A → (A → Option String) → AccessView → List A
filter items code_for v = keep (λ i. is_open (code_for i) v) items
