-- ===== src/Security/Wide.antt =====
-- When a user of apps/api/src/security/permission.service.ts counts for the whole facility, and
-- which codes a user cannot have.
use newport_ms.Security.{default_grants}
use mathlib.Core.Logic.{∥∥₁_elim}
use newport_ms.Base.{
  ◌&&◌, ℕ, ◌≡◌, refl, sym, ap, ◌∙◌, String, Bool, true, false, ◌||◌, Option, none, some, is_some,
  List, [], ◌∷◌, arith, str_eq, eq_iff, eq_refl, any, keep, includes, Bool-cases, inl, inr, ◌↔◌,
}
use newport_ms.Base.Maps.{lookup}
use newport_ms.Security.{
  apply_roles, is_expired, Role, as_array, self_service, SubDeptGrant, UserRole, by_code, has_code,
  live_roles, User, Directory, EffectivePermission, profile_of, values, is_all, ByCode, Scope,
}
use newport_ms.Security.Laws.{
  is_nothing, or_defaults_scope, widen_if, defaults_scope, scope-by_code, roles_scope,
  sections_scope, granted_scope, scope_in,
}
use newport_ms.Security.Sources.{has_code-profile_of, by_code-Coded, Coded}
use newport_ms.Json.{Value}

abbrev all_at : Option Scope → Bool
all_at (some Scope.scope_all) = true
all_at _ = false

all_at-is_all : (p : EffectivePermission) → all_at (some p.scope) ≡ is_all p
all_at-is_all p = go p.scope
  where
    go : (s : Scope) → all_at (some s) ≡ is_all (record p { scope = s })
    go Scope.scope_none = refl
    go Scope.scope_self = refl
    go Scope.scope_team = refl
    go Scope.scope_subdept = refl
    go Scope.scope_dept = refl
    go Scope.scope_all = refl

all_at-eq : (o : Option Scope) → all_at o ≡ true → o ≡ some Scope.scope_all
all_at-eq (some Scope.scope_all) h = refl
all_at-eq none h = cc
all_at-eq (some Scope.scope_none) h = cc
all_at-eq (some Scope.scope_self) h = cc
all_at-eq (some Scope.scope_team) h = cc
all_at-eq (some Scope.scope_subdept) h = cc
all_at-eq (some Scope.scope_dept) h = cc

-- The entry of a code whose scope is the whole facility.
all_entry :
    (m : ByCode)
    → Coded m
    → any is_all (values m) ≡ true
    → (c : String) × (all_at (scope_in c m) ≡ true)
unfolding lookup
all_entry [] u h = cc
all_entry ((k, p) ∷ m) u h = elim (Bool-cases (is_all p)) [
  | inl t ↦ (k, ground (arith, eq_refl k, all_at-is_all p, t))
  | inr t ↦
      let (c, e) = all_entry m u.1 (ground arith) in
      (
        c,
        elim (Bool-cases (str_eq k c)) [
          | inl f ↦ ground (arith, eq_iff k c, u.0.1, e)
          | inr f ↦ ground (arith, e, f)
        ],
      )
]

all_of_entry :
    (c : String) (m : ByCode) → all_at (scope_in c m) ≡ true → any is_all (values m) ≡ true
unfolding lookup
all_of_entry c [] h = h
all_of_entry c ((k, p) ∷ m) h = elim (Bool-cases (str_eq k c)) [
  | inl t ↦ ground (arith, all_at-is_all p, h, t)
  | inr t ↦ ground (arith, all_of_entry c m, h, t)
]

-- A user counts for the whole facility if the grants give some code the scope of all, and only then:
-- one such code, whichever it is, is enough.
pub is_facility_wide_iff :
    (parse : String → Option Value) (d : Directory) (now : ℕ) (user : User)
    → (profile_of parse d now user).is_facility_wide ≡ true
      ↔ ∥ ((c : String) × (granted_scope parse user c d now ≡ some Scope.scope_all)) ∥₁
unfolding profile_of
is_facility_wide_iff parse d now user = (
  λ h.
      let (c, e) = all_entry (by_code parse d now user) (by_code-Coded parse user d now) h in
      ∣ (
        c,
        sym (scope-by_code parse user c d now)
            ∙ all_at-eq (scope_in c (by_code parse d now user)) e,
      ) ∣₁,
  λ h. ∥∥₁_elim h (hlevel) (λ w.
      all_of_entry w.0 (by_code parse d now user)
        (ap all_at (scope-by_code parse user w.0 d now ∙ w.1))),
)

module _ (parse : String → Option Value) (user : User) (c : String) where
  abbrev pub section_lists : SubDeptGrant → Bool
  section_lists g = includes (as_array parse g.extra_json) c

  abbrev pub role_lists : UserRole → Bool
  role_lists g = includes g.role.role_permissions c || any section_lists g.role.sub_dept_grants

  abbrev pub default_lists : SubDeptGrant × Role → Bool
  default_lists e = includes e.1.role_permissions c

  -- A grant of the user's section that is marked as default, of a role that the user has.
  abbrev pub is_given : SubDeptGrant × Role → Bool
  is_given e =
      str_eq e.0.grant_sub_dept user.user_sub_dept
      && e.0.is_default
      && any (λ (g : UserRole). str_eq g.role.role_code e.1.role_code) user.user_roles

  -- Where a code can come from: a live role, a default grant, which may be of a role that has expired,
  -- or self-service.
  abbrev pub is_listed : Directory → ℕ → Bool
  is_listed d now =
      any role_lists (live_roles now user.user_roles)
      || any (λ e. is_given e && default_lists e) d.grant_rows
      || includes (keep (includes self_service) d.registered) c

  sections_unlisted :
      (perms : List String) (gs : List SubDeptGrant)
      → any section_lists gs ≡ false
      → sections_scope parse user c perms gs none ≡ none
  sections_unlisted perms [] h = refl
  sections_unlisted perms (g ∷ gs) h =
      ap (sections_scope parse user c perms gs) (ground arith)
      ∙ sections_unlisted perms gs (ground arith)

  roles_unlisted :
      (now : ℕ) (gs : List UserRole)
      → any role_lists (live_roles now gs) ≡ false
      → roles_scope parse user c now gs none ≡ none
  roles_unlisted now [] h = refl
  roles_unlisted now (g ∷ gs) h =
      ap (roles_scope parse user c now gs) (elim (Bool-cases (is_expired now g)) [
        | inl t ↦ ground (arith, t)
        | inr t ↦ ground (
          arith,
          t,
          sections_unlisted g.role.role_permissions g.role.sub_dept_grants (ground arith),
        )
      ])
      ∙ roles_unlisted now gs (ground arith)

  defaults_unlisted :
      (rows : List (SubDeptGrant × Role))
      → any default_lists rows ≡ false
      → defaults_scope parse user c rows none ≡ none
  defaults_unlisted [] h = refl
  defaults_unlisted ((g, r) ∷ rows) h =
      ap (defaults_scope parse user c rows) (ground arith) ∙ defaults_unlisted rows (ground arith)

  any-given :
      (rows : List (SubDeptGrant × Role))
      → any (λ e. is_given e && default_lists e) rows ≡ false
      → any default_lists (keep is_given rows) ≡ false
  any-given [] h = refl
  any-given (e ∷ rows) h = elim (Bool-cases (is_given e)) [
    | inl t ↦ ground (arith, t, h, any-given rows (ground (arith, h)))
    | inr t ↦ ground (arith, t, any-given rows (ground (arith, h)))
  ]

  default_grants-any :
      (d : Directory)
      → any (λ e. is_given e && default_lists e) d.grant_rows ≡ false
      → any default_lists (default_grants d user) ≡ false
  unfolding default_grants
  default_grants-any d h = any-given d.grant_rows h

  -- A code that no live role of the user lists, no default grant of a role of the user in the user's
  -- section, and no self-service, is not in the user's profile.
  pub profile_of_unlisted :
      (d : Directory) (now : ℕ)
      → is_listed d now ≡ false
      → has_code c (profile_of parse d now user).permissions ≡ false
  profile_of_unlisted d now h =
      has_code-profile_of parse d now user c
      ∙ ap is_some
          (nothing (is_nothing parse user c (apply_roles parse user now user.user_roles [])))
    where
      nothing :
          (b : Bool)
          → widen_if (includes (keep (includes self_service) d.registered) c) Scope.scope_self (
              or_defaults_scope parse user c b
                (default_grants d user)
                (roles_scope parse user c now user.user_roles none))
            ≡ none
      nothing true =
          ground
            (arith, defaults_unlisted (default_grants d user) (default_grants-any d (ground arith)))
      nothing false = ground (arith, roles_unlisted now user.user_roles (ground arith))
