-- ===== src/Security.antt =====
-- `PermissionService` of apps/api/src/security/permission.service.ts: the permissions that a user
-- has. The rows that its queries find are records; `parse` is `JSON.parse`, with `none` for its
-- exception. An instant is in milliseconds, and one call reads the clock once.
pub mod Filter
pub mod Guard
pub mod Laws
pub mod Sources
pub mod Wide
pub mod Cache
mod Tests
use newport_ms.Base.{
  ℕ, ◌-◌, String, Bool, true, false, not, ◌&&◌, Option, none, some, is_some, List, [], ◌∷◌, ◌++◌,
  map, str_eq, ltb, any, keep, includes, if◌then◌else◌,
}
use newport_ms.Base.Maps.{lookup, set, delete}
use newport_ms.Json.{Value, str, arr, to_list}

-- `EffectivePermission['scope']`
pub data Scope : Type 0 where
  scope_none scope_self scope_team scope_subdept scope_dept scope_all : Scope

-- `SCOPE_RANK`
unfoldable pub rank : Scope → ℕ
rank scope_none = 0
rank scope_self = 0
rank scope_team = 0
rank scope_subdept = 1
rank scope_dept = 2
rank scope_all = 3

-- `EffectivePermission`
pub record EffectivePermission : Type 0 where
  pub code : String
  pub scope : Scope
  pub permission_dept : String
  pub permission_sub_dept : String

-- `AccessProfile`
pub record AccessProfile : Type 0 where
  pub profile_user : String
  pub facility : String
  pub dept : String
  pub sub_dept : String
  pub profile_version : ℕ
  pub role_codes : List String
  pub permissions : List EffectivePermission
  pub is_facility_wide : Bool
  pub must_change_pwd : Bool

-- A row of `role_subdept_grants`.
pub record SubDeptGrant : Type 0 where
  pub grant_sub_dept : String
  pub grant_scope : Scope
  pub is_default : Bool
  pub deny_json : Value
  pub extra_json : Value

-- A row of `roles` with its permissions and its grants.
pub record Role : Type 0 where
  pub role_code : String
  pub role_permissions : List String
  pub sub_dept_grants : List SubDeptGrant

-- A row of `user_roles`.
pub record UserRole : Type 0 where
  pub expires_at : Option ℕ
  pub scope_kind : Scope
  pub scope_department : Option String
  pub scope_sub_department : Option String
  pub role : Role

-- A row of `users` that is not deleted.
pub record User : Type 0 where
  pub user_id : String
  pub user_facility : String
  pub user_dept : String
  pub user_sub_dept : String
  pub user_version : ℕ
  pub user_must_change : Bool
  pub user_roles : List UserRole

-- What the queries of `load` read: the users, the table of grants to sections, each with its role, and
-- the codes that the table of permissions has.
pub record Directory : Type 0 where
  pub find_user : String → Option User
  pub grant_rows : List (SubDeptGrant × Role)
  pub registered : List String

-- The rows of the user's section that are marked as default, of a role that the user has; whether the
-- user's role has expired is not asked. A role is told by its code, which is unique.
unfoldable pub default_grants : Directory → User → List (SubDeptGrant × Role)
default_grants d user =
    keep
      (λ e.
        str_eq e.0.grant_sub_dept user.user_sub_dept
        && e.0.is_default
        && any (λ (g : UserRole). str_eq g.role.role_code e.1.role_code) user.user_roles)
      d.grant_rows

-- `Map<string, EffectivePermission>`
abbrev pub ByCode : Type 0
ByCode = List (String × EffectivePermission)

-- `!cur || SCOPE_RANK[scope] > SCOPE_RANK[cur.scope]`
abbrev pub is_wider : Option EffectivePermission → Scope → Bool
is_wider none s = true
is_wider (some cur) s = ltb (rank cur.scope) (rank s)

abbrev pub or_else : Option String → String → String
or_else none t = t
or_else (some s) t = s

-- `upsert(map, code, scope, departmentId, subDeptId, user)`
unfoldable pub upsert : String → Scope → Option String → Option String → User → ByCode → ByCode
upsert code s d sd user m =
    if is_wider (lookup code m) s
    then set code
        (record {
          code = code;
          scope = s;
          permission_dept = or_else d user.user_dept;
          permission_sub_dept = or_else sd user.user_sub_dept;
        })
        m
    else m

-- `upsert` of each code of a list.
unfoldable pub upsert_all :
    List String → Scope → Option String → Option String → User → ByCode → ByCode
upsert_all [] s d sd user m = m
upsert_all (c ∷ cs) s d sd user m = upsert_all cs s d sd user (upsert c s d sd user m)

-- `SELF_SERVICE`
abbrev pub self_service : List String
self_service =
    "hr.leave.view" ∷ "hr.leave.request" ∷ "hr.form.create" ∷ "hr.att.view" ∷ "hr.shift.view"
    ∷ "hr.form.view" ∷ "doc.upload" ∷ []

abbrev pub texts : List Value → List String
texts [] = []
texts (str s ∷ vs) = s ∷ texts vs
texts (_ ∷ vs) = texts vs

-- What an array has of texts.
abbrev pub texts_of : Option Value → List String
texts_of (some (arr items)) = texts (to_list items)
texts_of _ = []

-- `new Set(xs)`, read in its order.
abbrev pub distinct : List String → List String → List String
distinct seen [] = []
distinct seen (x ∷ xs) =
    let rest = distinct (x ∷ seen) xs in if includes seen x then rest else x ∷ rest

-- The codes that are both denied and the role's lose what they have.
unfoldable pub remove_denied : List String → List String → ByCode → ByCode
remove_denied deny [] m = m
remove_denied deny (c ∷ cs) m = remove_denied deny cs (if includes deny c then delete c m else m)

abbrev pub is_expired : ℕ → UserRole → Bool
is_expired now g = before g.expires_at
  where
    before : Option ℕ → Bool
    before none = false
    before (some t) = ltb t now

abbrev pub is_all : EffectivePermission → Bool
is_all p = is_it p.scope
  where
    is_it : Scope → Bool
    is_it scope_all = true
    is_it _ = false

abbrev pub values : ByCode → List EffectivePermission
values m = map (λ e. e.1) m

abbrev pub live_roles : ℕ → List UserRole → List UserRole
live_roles now gs = keep (λ g. not (is_expired now g)) gs

abbrev pub of_entries : ℕ → User → ByCode → AccessProfile
of_entries now user m = record {
  profile_user = user.user_id;
  facility = user.user_facility;
  dept = user.user_dept;
  sub_dept = user.user_sub_dept;
  profile_version = user.user_version;
  role_codes = map (λ (g : UserRole). g.role.role_code) (live_roles now user.user_roles);
  permissions = values m;
  is_facility_wide = any is_all (values m);
  must_change_pwd = user.user_must_change;
}

-- `cache`: when the profile was built, and the profile.
abbrev pub Cached : Type 0
Cached = List (String × (ℕ × AccessProfile))

abbrev pub ttl_ms : ℕ
ttl_ms = 30000

abbrev pub fresh : ℕ → Option (ℕ × AccessProfile) → Option AccessProfile
fresh now none = none
fresh now (some (at, p)) = if ltb (now - at) ttl_ms then some p else none

abbrev pub has_code : String → List EffectivePermission → Bool
has_code c ps = any (λ (p : EffectivePermission). str_eq p.code c) ps

-- `invalidate(userId)`
unfoldable pub invalidate : Option String → Cached → Cached
invalidate none cache = []
invalidate (some id) cache = if str_eq id "" then [] else delete id cache

module _ (parse : String → Option Value) where
  -- `asArray(v)`
  abbrev pub as_array : Value → List String
  as_array (str s) = texts_of (parse s)
  as_array v = texts_of (some v)

  module _ (user : User) where
    -- A grant of the section adds its extra codes, and takes away those that it denies.
    unfoldable pub apply_section : List String → SubDeptGrant → ByCode → ByCode
    apply_section perms g m =
        if str_eq g.grant_sub_dept user.user_sub_dept
        then remove_denied (as_array g.deny_json) perms (
            upsert_all (distinct [] (as_array g.extra_json)) g.grant_scope (some user.user_dept)
              (some g.grant_sub_dept) user m)
        else m

    unfoldable pub apply_sections : List String → List SubDeptGrant → ByCode → ByCode
    apply_sections perms [] m = m
    apply_sections perms (g ∷ gs) m = apply_sections perms gs (apply_section perms g m)

    -- One turn of the loop over the user's roles, for a role that has not expired.
    unfoldable pub apply_role : UserRole → ByCode → ByCode
    apply_role g m = apply_sections g.role.role_permissions g.role.sub_dept_grants (
        upsert_all g.role.role_permissions g.scope_kind g.scope_department g.scope_sub_department
          user m)

    unfoldable pub apply_roles : ℕ → List UserRole → ByCode → ByCode
    apply_roles now [] m = m
    apply_roles now (g ∷ gs) m = apply_roles now gs (if is_expired now g then m else apply_role g m)

    unfoldable pub apply_defaults : List (SubDeptGrant × Role) → ByCode → ByCode
    apply_defaults [] m = m
    apply_defaults ((g, r) ∷ rows) m = apply_defaults rows (
        upsert_all r.role_permissions g.grant_scope (some user.user_dept) (some g.grant_sub_dept)
          user m)

    -- The default grants count only for a user who has got nothing.
    abbrev pub or_defaults : List (SubDeptGrant × Role) → ByCode → ByCode
    or_defaults rows [] = apply_defaults rows []
    or_defaults rows (e ∷ m) = e ∷ m

  -- The entries that `load` comes to.
  unfoldable pub by_code : Directory → ℕ → User → ByCode
  by_code d now user =
      upsert_all (keep (includes self_service) d.registered) scope_self (some user.user_dept)
        (some user.user_sub_dept) user
        (or_defaults user (default_grants d user) (apply_roles user now user.user_roles []))

  -- The profile that `load` builds of a user's row.
  unfoldable pub profile_of : Directory → ℕ → User → AccessProfile
  profile_of d now user = of_entries now user (by_code d now user)

  abbrev pub read_anew :
      Directory → ℕ → String → Cached → Option User → Option AccessProfile × Cached
  read_anew d now id cache none = (none, cache)
  read_anew d now id cache (some user) =
      (some (profile_of d now user), set id (now, profile_of d now user) cache)

  abbrev pub or_read :
      Option AccessProfile → Directory → ℕ → String → Cached → Option AccessProfile × Cached
  or_read (some p) d now id cache = (some p, cache)
  or_read none d now id cache = read_anew d now id cache (d.find_user id)

  -- `load(userId, { force })`. A clock that runs back leaves the difference at 0, which is less
  -- than the span too.
  unfoldable pub load : Directory → ℕ → Bool → String → Cached → Option AccessProfile × Cached
  load d now force id cache =
      or_read (if force then none else fresh now (lookup id cache)) d now id cache

  -- `has(userId, code)`
  unfoldable pub has : Directory → ℕ → String → String → Cached → Bool × Cached
  has d now id c cache = (found (load d now false id cache).0, (load d now false id cache).1)
    where
      found : Option AccessProfile → Bool
      found none = false
      found (some p) = has_code c p.permissions
