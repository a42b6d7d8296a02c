-- ===== src/Access/Tests.antt =====
-- The theorem on grants at a grant of the field technicians.
use newport_ms.Base.{◌≡◌, String, not, ◌&&◌, ◌||◌, none, [], ◌∷◌, includes}
use newport_ms.Access.Tables.{Grant}
use newport_ms.Access.Grants.{minimum, within_ceiling, scope_of, resolve_permissions}
use newport_ms.Access.Grants.Laws.{Unique, resolve_permissions_lem}

abbrev technicians : Grant
technicians = record {
  role = "FIELD_TECHNICIAN";
  grant_scope = none;
  permissions = "maint.wo.view" ∷ "maint.wo.execute" ∷ [];
  extra = [];
  deny = "doc.upload" ∷ [];
}

resolve_permissions_lem_example :
    ((p : String)
      → includes (resolve_permissions technicians) p ≡ (
          (includes technicians.permissions p
            || (includes technicians.extra p
                || (includes (minimum technicians.role) p
                    && within_ceiling (scope_of technicians.grant_scope technicians.role) p)))
          && not (includes technicians.deny p)))
    × Unique (resolve_permissions technicians)
resolve_permissions_lem_example = resolve_permissions_lem technicians
