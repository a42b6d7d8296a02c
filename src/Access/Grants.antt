-- ===== src/Access/Grants.antt =====
-- `withinCeiling` and `resolveGrants` of packages/domain/src/roles.ts.
pub mod Laws
use newport_ms.Base.{
  ℕ, String, Bool, true, false, not, ◌&&◌, ◌||◌, Option, none, some, List, [], ◌∷◌, ◌++◌, map, find,
  keep, includes, str_eq, leb, if◌then◌else◌,
}
use newport_ms.Access.Permissions.{
  DataScope, self, team, subdept, dept, all_scope, PermissionDef, permission_defs,
}
use newport_ms.Access.Tables.{
  Grant, SubDeptAccess, GlobalGrant, role_defs, read_only_roles, base_set, base_read_only_set,
  access_matrix, global_grants,
}

-- `SCOPE_RANK`
unfoldable pub scope_rank : DataScope → ℕ
scope_rank self = 0
scope_rank team = 0
scope_rank subdept = 1
scope_rank dept = 2
scope_rank all_scope = 3

abbrev pub is_self : DataScope → Bool
is_self self = true
is_self _ = false

abbrev pub is_all : DataScope → Bool
is_all all_scope = true
is_all _ = false

abbrev pub under : DataScope → Option PermissionDef → Bool
under scope none = false
under scope (some d) =
    if is_self scope || is_all d.max_scope
    then true
    else leb (scope_rank scope) (scope_rank d.max_scope)

-- `withinCeiling(scope, p)`
unfoldable pub within_ceiling : DataScope → String → Bool
within_ceiling scope p = under scope (find (λ x. str_eq x.code p) permission_defs)

-- `uniq(a)`, with what was seen before.
unfoldable pub uniq : (seen a : List String) → List String
uniq seen [] = []
uniq seen (p ∷ a) = elim (includes seen p) [ true ↦ uniq seen a | false ↦ p ∷ uniq (p ∷ seen) a ]

-- `ResolvedGrant`; no section is the whole plant.
pub record ResolvedGrant : Type 0 where
  pub of_section : Option String
  pub of_role : String
  pub scope : DataScope
  pub granted : List String

abbrev pub scope_or_subdept : Option (String × DataScope) → DataScope
scope_or_subdept none = subdept
scope_or_subdept (some r) = r.1

-- `g.scope ?? roleDef?.defaultScope ?? 'SUBDEPT'`
abbrev pub scope_of : Option DataScope → String → DataScope
scope_of (some s) role = s
scope_of none role = scope_or_subdept (find (λ r. str_eq r.0 role) role_defs)

abbrev pub minimum : String → List String
minimum role = if includes read_only_roles role then base_read_only_set else base_set

-- The permissions that are granted, without those denied.
unfoldable pub allowed_minimum : Grant → List String
allowed_minimum g =
    keep (λ p. not (includes g.deny p) && within_ceiling (scope_of g.grant_scope g.role) p)
      (minimum g.role)

unfoldable pub resolve_permissions : Grant → List String
resolve_permissions g =
    uniq [] (keep (λ p. not (includes g.deny p)) (g.permissions ++ (allowed_minimum g ++ g.extra)))

abbrev pub resolve_grant : String → Grant → Option ResolvedGrant
resolve_grant section g = if_declared g.permissions
  where
    if_declared : List String → Option ResolvedGrant
    if_declared [] = none
    if_declared (p ∷ ps) = some (record {
      of_section = some section;
      of_role = g.role;
      scope = scope_of g.grant_scope g.role;
      granted = resolve_permissions g;
    })

abbrev pub also {ℓ} : {A : Type ℓ} → Option A → Option (List A) → Option (List A)
also none rest = none
also (some a) none = none
also (some a) (some rest) = some (a ∷ rest)

-- The two loops over the matrix: `none` is the exception on a grant without permissions.
unfoldable pub section_grants :
    String → List Grant → Option (List ResolvedGrant) → Option (List ResolvedGrant)
section_grants section [] rest = rest
section_grants section (g ∷ gs) rest =
    also (resolve_grant section g) (section_grants section gs rest)

abbrev pub global_grant : GlobalGrant → ResolvedGrant
global_grant g = record {
  of_section = none;
  of_role = g.global_role;
  scope = g.global_scope;
  granted = uniq [] (uniq [] g.global_permissions);
}

unfoldable pub matrix_grants : List SubDeptAccess → List GlobalGrant → Option (List ResolvedGrant)
matrix_grants [] globals = some (map global_grant globals)
matrix_grants (row ∷ rows) globals =
    section_grants row.sub_dept_code row.grants (matrix_grants rows globals)

-- `resolveGrants()`
unfoldable pub resolve_grants : Option (List ResolvedGrant)
resolve_grants = matrix_grants access_matrix global_grants
