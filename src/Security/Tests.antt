-- ===== src/Security/Tests.antt =====
-- A run of the permission service and of the guard: a maintenance engineer with a role that has
-- expired, a live role, and a grant of the section that denies one code and adds another.
use newport_ms.Security.{default_grants}
use newport_ms.Base.{
  ◌≡◌, refl, String, true, false, Option, none, some, [], ◌∷◌, arith, str_eq, any, ◌↔◌,
  if◌then◌else◌,
}
use newport_ms.Base.Maps.{lookup, set, delete}
use newport_ms.Security.Guard.{
  admitted, is_bootstrap, matched, path_of, grants_of, starts_with, AccessContext, bearer_of,
  can_activate, Required, permission_of, Payload, Request,
}
use newport_ms.Security.{
  apply_roles, by_code, lookup, Scope, Directory, Role, User, has_code, load, profile_of,
  apply_role, apply_sections, apply_section, upsert, upsert_all, remove_denied, rank,
}
use newport_ms.Security.Guard.Laws.{
  can_activate-Fits, Fits, can_activate-granted_scope, loaded, scope_allowed,
}
use newport_ms.Security.Sources.{permission_of-granted_scope}
use newport_ms.Security.Wide.{is_facility_wide_iff, profile_of_unlisted}
use newport_ms.Security.Cache.{load-load}
use newport_ms.Security.Laws.{granted_scope, scope_of}
use newport_ms.Json.{Value, str, arr, cons, nil}

abbrev parse : String → Option Value
parse s = none

abbrev technician : Role
technician = record {
  role_code = "TECH";
  role_permissions = "maint.wo.view" ∷ "maint.wo.execute" ∷ [];
  sub_dept_grants =
      record {
        grant_sub_dept = "MECH";
        grant_scope = Scope.scope_subdept;
        is_default = false;
        deny_json = arr (cons (str "maint.wo.execute") nil);
        extra_json = arr (cons (str "maint.permit.create") nil);
      }
      ∷ [];
}

abbrev manager : Role
manager = record {
  role_code = "MGR";
  role_permissions = "maint.wo.view" ∷ [];
  sub_dept_grants = [];
}

abbrev engineer : User
engineer = record {
  user_id = "u1";
  user_facility = "f1";
  user_dept = "MAINT";
  user_sub_dept = "MECH";
  user_version = 4;
  user_must_change = false;
  user_roles =
      record {
        expires_at = some 50;
        scope_kind = Scope.scope_all;
        scope_department = none;
        scope_sub_department = none;
        role = manager;
      }
      ∷ record {
        expires_at = none;
        scope_kind = Scope.scope_dept;
        scope_department = none;
        scope_sub_department = none;
        role = technician;
      }
      ∷ [];
}

abbrev one_engineer : Directory
one_engineer = record {
  find_user = λ id. if str_eq id "u1" then some engineer else none;
  grant_rows = [];
  registered = "maint.wo.view" ∷ "doc.upload" ∷ [];
}

permission_of-granted_scope_example :
    scope_of (permission_of (profile_of parse one_engineer 100 engineer) "maint.wo.view")
    ≡ granted_scope parse engineer "maint.wo.view" one_engineer 100
permission_of-granted_scope_example =
    permission_of-granted_scope parse one_engineer 100 engineer "maint.wo.view"

is_facility_wide_iff_example :
    (profile_of parse one_engineer 10 engineer).is_facility_wide ≡ true
    ↔ ∥ ((c : String) × (granted_scope parse engineer c one_engineer 10 ≡ some Scope.scope_all)) ∥₁
is_facility_wide_iff_example = is_facility_wide_iff parse one_engineer 10 engineer

profile_of_unlisted_example :
    has_code "maint.wo.close" (profile_of parse one_engineer 100 engineer).permissions ≡ false
unfolding default_grants
profile_of_unlisted_example =
    profile_of_unlisted parse engineer "maint.wo.close" one_engineer 100 refl

abbrev nobody : Directory
nobody = record { find_user = λ id. none; grant_rows = []; registered = [] }

loaded_once :
    (load parse one_engineer 100 true "u1" []).0 ≡ some (profile_of parse one_engineer 100 engineer)
unfolding load
loaded_once = refl

load-load_example :
    load parse nobody 200 false "u1" (load parse one_engineer 100 true "u1" []).1 ≡ (
      some (profile_of parse one_engineer 100 engineer),
      (load parse one_engineer 100 true "u1" []).1,
    )
load-load_example =
    load-load parse one_engineer nobody 100 200 "u1" [] (profile_of parse one_engineer 100 engineer)
      loaded_once (omega arith)

abbrev verify : String → Option Payload
verify token = some (record { sub = some "u1"; dev = none; v = some 4 })

abbrev needs : Required
needs = record { codes = "maint.wo.view" ∷ []; scopes = none; any_of = true }

abbrev view_orders : Request
view_orders = record {
  authorization = some "Bearer t";
  url = "/api/v1/work-orders?page=1";
  is_anonymous = false;
  required = some needs;
}

abbrev context : AccessContext
context = record {
  user_id = "u1";
  device_id = none;
  profile = profile_of parse one_engineer 100 engineer;
  grants = grants_of (profile_of parse one_engineer 100 engineer) (some needs);
}

let_in :
    can_activate (loaded parse one_engineer 100 verify) verify view_orders ≡ admitted (some context)
unfolding can_activate starts_with load lookup path_of matched is_bootstrap profile_of by_code
    default_grants apply_roles apply_role apply_sections apply_section upsert upsert_all
    remove_denied set delete rank
let_in = refl

can_activate-Fits_example :
    (token s : String) × (t : Payload) × (bearer_of view_orders.authorization ≡ some token)
    × (verify token ≡ some t)
    × (t.sub ≡ some s)
    × (loaded parse one_engineer 100 verify s ≡ some context.profile)
    × Fits (loaded parse one_engineer 100 verify) verify view_orders t context.profile
can_activate-Fits_example =
    can_activate-Fits (loaded parse one_engineer 100 verify) verify view_orders context let_in

can_activate-granted_scope_example :
    (token id : String) × (t : Payload) × (user : User) × (bearer_of view_orders.authorization
      ≡ some token)
    × (verify token ≡ some t)
    × (t.sub ≡ some id)
    × (one_engineer.find_user id ≡ some user)
    × (context.profile ≡ profile_of parse one_engineer 100 user)
    × (any (λ k. scope_allowed none (granted_scope parse user k one_engineer 100)) needs.codes
        ≡ true)
can_activate-granted_scope_example =
    can_activate-granted_scope parse one_engineer 100 verify view_orders context needs
      "maint.wo.view" [] let_in refl refl refl
