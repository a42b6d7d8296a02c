-- ===== src/Security/Filter.antt =====
-- `buildScopeFilter` and `buildScopeWhere` of apps/api/src/security/permission.service.ts: the rows
-- that a permission lets its user see. A filter is the condition that goes into the query, on the
-- columns of a row that it names; a column that is null fits no condition.
use newport_ms.Base.{◌≡◌, ◌≢◌, refl, String, Bool, true, false, ◌||◌, Option, none, some, str_eq}
use newport_ms.Security.{
  Scope, scope_none, scope_self, scope_team, scope_subdept, scope_dept, scope_all,
  EffectivePermission, AccessProfile,
}

-- The conditions that the two functions write.
pub data RowFilter : Type 0 where
  every_row no_row : RowFilter
  dept_is creator_is : String → RowFilter
  sub_dept_or_creator_is : String → String → RowFilter

-- The columns of a row that the conditions name.
pub record Owned : Type 0 where
  pub of_dept : Option String
  pub of_sub_dept : Option String
  pub created_by : Option String

abbrev pub is_text : Option String → String → Bool
is_text none t = false
is_text (some s) t = str_eq s t

-- What the database does with a condition.
unfoldable pub selects : RowFilter → Owned → Bool
selects every_row row = true
selects no_row row = false
selects (dept_is d) row = is_text row.of_dept d
selects (creator_is u) row = is_text row.created_by u
selects (sub_dept_or_creator_is s u) row = is_text row.of_sub_dept s || is_text row.created_by u

abbrev filter_of : AccessProfile → Scope → RowFilter
filter_of p scope_all = every_row
filter_of p scope_dept = dept_is p.dept
filter_of p scope_subdept = sub_dept_or_creator_is p.sub_dept p.profile_user
filter_of p scope_team = creator_is p.profile_user
filter_of p scope_self = creator_is p.profile_user
filter_of p scope_none = no_row

-- `buildScopeFilter(profile, permission)`
unfoldable pub build_scope_filter : AccessProfile → Option EffectivePermission → RowFilter
build_scope_filter p none = every_row
build_scope_filter p (some e) = filter_of p e.scope

abbrev where_of : AccessProfile → Scope → RowFilter
where_of p scope_all = every_row
where_of p scope_dept = dept_is p.dept
where_of p scope_subdept = sub_dept_or_creator_is p.sub_dept p.profile_user
where_of p _ = creator_is p.profile_user

-- `buildScopeWhere(profile, permission)`; the id that it names for an absent permission is no row's.
unfoldable pub build_scope_where : AccessProfile → Option EffectivePermission → RowFilter
build_scope_where p none = no_row
build_scope_where p (some e) = where_of p e.scope

-- The two functions let the same rows be seen for every permission whose scope is not NONE.
build_scope_where-build_scope_filter :
    (p : AccessProfile) (e : EffectivePermission)
    → e.scope ≢ scope_none
    → build_scope_where p (some e) ≡ build_scope_filter p (some e)
unfolding build_scope_where build_scope_filter
build_scope_where-build_scope_filter p e h = go e.scope h
  where
    go : (s : Scope) → s ≢ scope_none → where_of p s ≡ filter_of p s
    go scope_none h = elim (h refl) [ ]
    go scope_self h = refl
    go scope_team h = refl
    go scope_subdept h = refl
    go scope_dept h = refl
    go scope_all h = refl
