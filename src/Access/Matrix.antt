-- ===== src/Access/Matrix.antt =====
-- The reports on the grants: `unusedPermissions`, `unknownPermissions` and `departmentsWithAccess` of
-- packages/domain/src/roles.ts, and `buildMatrix` of packages/domain/src/matrix.ts, less the names for
-- display. `none` is an exception.
pub mod Laws
use Prim.Native.String.{◌++◌ as str_append}
use newport_ms.Base.{
  ◌||◌, String, Bool, true, false, not, ◌&&◌, Option, none, some, List, [], ◌∷◌, ◌++◌, map, find,
  any, keep, includes, str_eq, if◌then◌else◌,
}
use newport_ms.Access.Permissions.{PermissionDef, permission_defs}
use newport_ms.Access.Tables.{Grant, SubDeptAccess, access_matrix, every_user_permissions}
use newport_ms.Access.Org.{SubDeptDef, DeptDef, org_structure}
use newport_ms.Access.Grants.{ResolvedGrant, resolve_grants}

abbrev pub codes : List String
codes = map (λ (p : PermissionDef). p.code) permission_defs

abbrev pub all_granted : List ResolvedGrant → List String
all_granted [] = []
all_granted (g ∷ gs) = g.granted ++ all_granted gs

abbrev pub not_used : Option (List ResolvedGrant) → Option (List String)
not_used none = none
not_used (some gs) =
    some (keep (λ c. not (includes (all_granted gs) c || includes every_user_permissions c)) codes)

-- `unusedPermissions()`
unfoldable pub unused_permissions : Option (List String)
unused_permissions = not_used resolve_grants

abbrev pub unknown_of : String → List String → List String
unknown_of role [] = []
unknown_of role (p ∷ ps) =
    let rest = unknown_of role ps in
    if includes codes p then rest else str_append role (str_append ":" p) ∷ rest

abbrev pub unknown_in : List ResolvedGrant → List String
unknown_in [] = unknown_of "EVERY_USER" every_user_permissions
unknown_in (g ∷ gs) = unknown_of g.of_role g.granted ++ unknown_in gs

abbrev pub not_known : Option (List ResolvedGrant) → Option (List String)
not_known none = none
not_known (some gs) = some (unknown_in gs)

-- `unknownPermissions()`
unfoldable pub unknown_permissions : Option (List String)
unknown_permissions = not_known resolve_grants

-- `departmentsWithAccess()`
unfoldable pub departments_with_access : List (DeptDef × List SubDeptAccess)
departments_with_access =
    map
      (λ (d : DeptDef). (
        d,
        keep
            (λ (a : SubDeptAccess).
              any (λ (s : SubDeptDef). str_eq s.section_code a.sub_dept_code) d.sub_departments)
            access_matrix,
      ))
      org_structure

-- `MatrixRow`: a grant of a row is the resolved one.
pub record MatrixRow : Type 0 where
  pub department_code : String
  pub row_sub_dept : String
  pub row_grants : List ResolvedGrant

abbrev pub is_of : String → String → ResolvedGrant → Bool
is_of section role e = is_section e.of_section && str_eq e.of_role role
  where
    is_section : Option String → Bool
    is_section none = false
    is_section (some s) = str_eq s section

abbrev pub collect {ℓ} : {A : Type ℓ} → Option A → Option (List A) → Option (List A)
collect none rest = none
collect (some a) none = none
collect (some a) (some rest) = some (a ∷ rest)

abbrev pub effective_grants : List ResolvedGrant → String → List Grant → Option (List ResolvedGrant)
effective_grants effective section [] = some []
effective_grants effective section (g ∷ gs) =
    collect (find (is_of section g.role) effective) (effective_grants effective section gs)

abbrev pub row_for : String → String → Option (List ResolvedGrant) → Option MatrixRow
row_for dept section none = none
row_for dept section (some gs) =
    some (record { department_code = dept; row_sub_dept = section; row_grants = gs })

abbrev pub section_row :
    List ResolvedGrant
    → String
    → String
    → Option SubDeptAccess
    → Option (List MatrixRow)
    → Option (List MatrixRow)
section_row effective dept section none rest = rest
section_row effective dept section (some acc) rest =
    collect (row_for dept section (effective_grants effective section acc.grants)) rest

abbrev pub section_rows :
    List ResolvedGrant
    → String
    → List SubDeptDef
    → Option (List MatrixRow)
    → Option (List MatrixRow)
section_rows effective dept [] rest = rest
section_rows effective dept (s ∷ ss) rest =
    section_row effective dept s.section_code
      (find (λ (a : SubDeptAccess). str_eq a.sub_dept_code s.section_code) access_matrix)
      (section_rows effective dept ss rest)

abbrev pub dept_rows : List ResolvedGrant → List DeptDef → Option (List MatrixRow)
dept_rows effective [] = some []
dept_rows effective (d ∷ ds) =
    section_rows effective d.dept_code d.sub_departments (dept_rows effective ds)

abbrev pub rows_of : Option (List ResolvedGrant) → Option (List MatrixRow)
rows_of none = none
rows_of (some effective) = dept_rows effective org_structure

-- `buildMatrix()`
unfoldable pub build_matrix : Option (List MatrixRow)
build_matrix = rows_of resolve_grants
