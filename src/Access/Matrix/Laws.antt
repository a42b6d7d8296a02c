-- ===== src/Access/Matrix/Laws.antt =====
-- How the tables of the roles, of the permissions and of the plant fit together.
use newport_ms.Base.{◌≡◌, refl, String, Option, none, some, List, [], ◌∷◌, map}
use newport_ms.Access.Permissions.{permission_defs}
use newport_ms.Access.Tables.{access_matrix, global_grants, role_defs}
use newport_ms.Access.Org.{org_structure, all_subdepts}
use newport_ms.Access.Grants.{
  resolve_grants, matrix_grants, section_grants, resolve_permissions, allowed_minimum, uniq,
  within_ceiling, scope_rank,
}
use newport_ms.Access.Matrix.{MatrixRow, unused_permissions, unknown_permissions, build_matrix}

abbrev pub row_sections : Option (List MatrixRow) → Option (List String)
row_sections none = none
row_sections (some rows) = some (map (λ r. r.row_sub_dept) rows)

-- Every permission that is granted is registered, every registered one but `hr.emp.manage` is granted to
-- somebody, and the matrix is built, with one row for each section of the plant, in its order.
matrix_complete :
    (unknown_permissions ≡ some [])
    × (unused_permissions ≡ some ("hr.emp.manage" ∷ []))
    × (row_sections build_matrix ≡ some (map (λ s. s.section_code) all_subdepts))
unfolding unknown_permissions unused_permissions build_matrix resolve_grants matrix_grants
    section_grants resolve_permissions allowed_minimum uniq within_ceiling scope_rank access_matrix
    permission_defs role_defs global_grants org_structure all_subdepts
matrix_complete = (refl, refl, refl)
