-- ===== src/Security/Laws.antt =====
-- What the map of `load` in apps/api/src/security/permission.service.ts comes to, one code at a time.
use newport_ms.Security.{default_grants}
use newport_ms.Base.{
  ℕ, ltb, ◌≡◌, refl, ap, ◌∙◌, String, Bool, true, false, not, ◌&&◌, Option, none, some, List, [],
  ◌∷◌, arith, str_eq, eq_iff, keep, includes, Bool-cases, inl, inr, if◌then◌else◌,
}
use newport_ms.Base.Maps.{lookup, delete, lookup-set, lookup-delete}
use newport_ms.Json.{Value}
use newport_ms.Security.{
  Scope, rank, EffectivePermission, SubDeptGrant, Role, UserRole, User, Directory, ByCode, or_else,
  upsert, upsert_all, self_service, distinct, remove_denied, is_expired, as_array, apply_section,
  apply_sections, apply_role, apply_roles, apply_defaults, or_defaults, by_code,
}

-- The scope that a code has.
abbrev pub scope_of : Option EffectivePermission → Option Scope
scope_of none = none
scope_of (some p) = some p.scope

abbrev pub scope_in : String → ByCode → Option Scope
scope_in c m = scope_of (lookup c m)

-- The wider of two scopes; the first stays if they rank the same.
unfoldable pub widen : Scope → Option Scope → Option Scope
widen s none = some s
widen s (some t) = if ltb (rank t) (rank s) then some s else some t

abbrev pub widen_if : Bool → Scope → Option Scope → Option Scope
widen_if b s o = if b then widen s o else o

scope-upsert :
    (c k : String) (s : Scope) (d sd : Option String) (u : User) (m : ByCode)
    → scope_in c (upsert k s d sd u m) ≡ widen_if (str_eq k c) s (scope_in c m)
unfolding upsert widen
scope-upsert c k s d sd u m = ground (
  arith,
  eq_iff k c,
  lookup-set c k
      (record {
        code = k;
        scope = s;
        permission_dept = or_else d u.user_dept;
        permission_sub_dept = or_else sd u.user_sub_dept;
      })
      m,
)

widen_twice : (s : Scope) (o : Option Scope) → widen s (widen s o) ≡ widen s o
unfolding widen
widen_twice s none = ground arith
widen_twice s (some t) = ground arith

scope-upsert_all :
    (c : String) (ks : List String) (s : Scope) (d sd : Option String) (u : User) (m : ByCode)
    → scope_in c (upsert_all ks s d sd u m) ≡ widen_if (includes ks c) s (scope_in c m)
unfolding upsert_all
scope-upsert_all c [] s d sd u m = refl
scope-upsert_all c (k ∷ ks) s d sd u m = ground (
  arith,
  scope-upsert_all c ks s d sd u (upsert k s d sd u m),
  scope-upsert c k s d sd u m,
  widen_twice s (scope_in c m),
)

abbrev pub none_if : Bool → Option Scope → Option Scope
none_if b o = if b then none else o

scope-remove_denied :
    (c : String) (deny ks : List String) (m : ByCode)
    → scope_in c (remove_denied deny ks m)
      ≡ none_if (includes deny c && includes ks c) (scope_in c m)
unfolding remove_denied
scope-remove_denied c deny [] m = ground arith
scope-remove_denied c deny (k ∷ ks) m = ground (
  arith,
  eq_iff k c,
  scope-remove_denied c deny ks (if includes deny k then delete k m else m),
  lookup-delete c k m,
)

includes-distinct :
    (c : String) (seen xs : List String)
    → includes (distinct seen xs) c ≡ (includes xs c && not (includes seen c))
includes-distinct c seen [] = refl
includes-distinct c seen (x ∷ xs) = ground (arith, eq_iff x c, includes-distinct c (x ∷ seen) xs)

module _ (parse : String → Option Value) (user : User) (c : String) where
  -- What a grant of the section makes of the scope of one code.
  abbrev pub section_scope : List String → SubDeptGrant → Option Scope → Option Scope
  section_scope perms g o =
      if str_eq g.grant_sub_dept user.user_sub_dept
      then none_if (includes (as_array parse g.deny_json) c && includes perms c)
          (widen_if (includes (as_array parse g.extra_json) c) g.grant_scope o)
      else o

  abbrev pub sections_scope : List String → List SubDeptGrant → Option Scope → Option Scope
  sections_scope perms [] o = o
  sections_scope perms (g ∷ gs) o = sections_scope perms gs (section_scope perms g o)

  -- What a role makes of it.
  abbrev pub role_scope : UserRole → Option Scope → Option Scope
  role_scope g o =
      sections_scope g.role.role_permissions g.role.sub_dept_grants
        (widen_if (includes g.role.role_permissions c) g.scope_kind o)

  -- What the roles make of it, those that have expired left out.
  abbrev pub roles_scope : ℕ → List UserRole → Option Scope → Option Scope
  roles_scope now [] o = o
  roles_scope now (g ∷ gs) o = roles_scope now gs (if is_expired now g then o else role_scope g o)

  abbrev pub defaults_scope : List (SubDeptGrant × Role) → Option Scope → Option Scope
  defaults_scope [] o = o
  defaults_scope ((g, r) ∷ rows) o =
      defaults_scope rows (widen_if (includes r.role_permissions c) g.grant_scope o)

  scope-apply_section :
      (perms : List String) (g : SubDeptGrant) (m : ByCode)
      → scope_in c (apply_section parse user perms g m) ≡ section_scope perms g (scope_in c m)
  unfolding apply_section
  scope-apply_section perms g m = ground (
    arith,
    includes-distinct c [] (as_array parse g.extra_json),
    scope-upsert_all c (distinct [] (as_array parse g.extra_json)) g.grant_scope
        (some user.user_dept) (some g.grant_sub_dept) user m,
    scope-remove_denied c (as_array parse g.deny_json) perms (
        upsert_all (distinct [] (as_array parse g.extra_json)) g.grant_scope (some user.user_dept)
          (some g.grant_sub_dept) user m),
  )

  scope-apply_sections :
      (perms : List String) (gs : List SubDeptGrant) (m : ByCode)
      → scope_in c (apply_sections parse user perms gs m) ≡ sections_scope perms gs (scope_in c m)
  unfolding apply_sections
  scope-apply_sections perms [] m = refl
  scope-apply_sections perms (g ∷ gs) m =
      scope-apply_sections perms gs (apply_section parse user perms g m)
      ∙ ap (sections_scope perms gs) (scope-apply_section perms g m)

  scope-apply_role :
      (g : UserRole) (m : ByCode)
      → scope_in c (apply_role parse user g m) ≡ role_scope g (scope_in c m)
  unfolding apply_role
  scope-apply_role g m =
      scope-apply_sections g.role.role_permissions g.role.sub_dept_grants _
      ∙ ap (sections_scope g.role.role_permissions g.role.sub_dept_grants) (
          scope-upsert_all c g.role.role_permissions g.scope_kind g.scope_department
            g.scope_sub_department user m)

  scope-apply_roles :
      (now : ℕ) (gs : List UserRole) (m : ByCode)
      → scope_in c (apply_roles parse user now gs m) ≡ roles_scope now gs (scope_in c m)
  unfolding apply_roles
  scope-apply_roles now [] m = refl
  scope-apply_roles now (g ∷ gs) m = elim (Bool-cases (is_expired now g)) [
    | inl h ↦ simp (h, scope-apply_roles now gs)
    | inr h ↦ simp (h, scope-apply_roles now gs, scope-apply_role g)
  ]

  scope-apply_defaults :
      (rows : List (SubDeptGrant × Role)) (m : ByCode)
      → scope_in c (apply_defaults parse user rows m) ≡ defaults_scope rows (scope_in c m)
  unfolding apply_defaults
  scope-apply_defaults [] m = refl
  scope-apply_defaults ((g, r) ∷ rows) m =
      scope-apply_defaults rows _
      ∙ ap (defaults_scope rows) (
          scope-upsert_all c r.role_permissions g.grant_scope (some user.user_dept)
            (some g.grant_sub_dept) user m)

  abbrev pub is_nothing : ByCode → Bool
  is_nothing [] = true
  is_nothing (e ∷ m) = false

  -- The default grants, for a user whose roles give nothing at all.
  abbrev pub or_defaults_scope : Bool → List (SubDeptGrant × Role) → Option Scope → Option Scope
  or_defaults_scope true rows o = defaults_scope rows none
  or_defaults_scope false rows o = o

  scope-or_defaults :
      (rows : List (SubDeptGrant × Role)) (m : ByCode)
      → scope_in c (or_defaults parse user rows m)
        ≡ or_defaults_scope (is_nothing m) rows (scope_in c m)
  unfolding lookup
  scope-or_defaults rows [] = scope-apply_defaults rows []
  scope-or_defaults rows (e ∷ m) = refl

  -- The scope of the code, found without a map.
  abbrev pub granted_scope : Directory → ℕ → Option Scope
  granted_scope d now =
      widen_if (includes (keep (includes self_service) d.registered) c) Scope.scope_self (
        or_defaults_scope (is_nothing (apply_roles parse user now user.user_roles []))
          (default_grants d user) (roles_scope now user.user_roles none))

  -- Each code has the scope in the map that the grants give to that code alone.
  pub scope-by_code :
      (d : Directory) (now : ℕ) → scope_in c (by_code parse d now user) ≡ granted_scope d now
  unfolding by_code lookup
  scope-by_code d now =
      scope-upsert_all c (keep (includes self_service) d.registered) Scope.scope_self
        (some user.user_dept) (some user.user_sub_dept) user _
      ∙ ap (widen_if (includes (keep (includes self_service) d.registered) c) Scope.scope_self) (
          scope-or_defaults (default_grants d user) (apply_roles parse user now user.user_roles [])
          ∙ ap
              (or_defaults_scope (is_nothing (apply_roles parse user now user.user_roles []))
                (default_grants d user))
              (scope-apply_roles now user.user_roles []))
