-- ===== src/Security/Guard.antt =====
-- `canActivate` of apps/api/src/security/access.guard.ts. Parameters are the service's `load`, and
-- `verify`, which gives what a signed token carries, or `none` for one that is forged or expired. Left
-- out: the sender's address and the row that the audit table gets of a refusal.
use Prim.Native.Char.{Char, code as char_code}
pub mod Laws
use newport_ms.Base.{
  ℕ, String, Bool, true, false, not, ◌&&◌, ◌||◌, Option, none, some, is_some, List, [], ◌∷◌, ◌==◌,
  map, str_eq, any, all, find, includes, if◌then◌else◌,
}
use newport_ms.Base.Maps.{lookup}
use newport_ms.Security.{Scope, EffectivePermission, AccessProfile, rank, has_code}

-- `PASSWORD_BOOTSTRAP_PATHS`
abbrev pub password_bootstrap_paths : List String
password_bootstrap_paths =
    "/api/v1/auth/change-password" ∷ "/api/v1/auth/me" ∷ "/api/v1/auth/logout"
    ∷ "/api/v1/auth/health" ∷ "/api/health" ∷ []

-- What a token carries.
pub record Payload : Type 0 where
  pub sub : Option String
  pub dev : Option String
  pub v : Option ℕ

-- What `RequirePermission` sets.
pub record Required : Type 0 where
  pub codes : List String
  pub scopes : Option (List Scope)
  pub any_of : Bool

-- What the guard reads of a request and of its handler.
pub record Request : Type 0 where
  pub authorization : Option String
  pub url : String
  pub is_anonymous : Bool
  pub required : Option Required

-- `AccessContext`
pub record AccessContext : Type 0 where
  pub user_id : String
  pub device_id : Option String
  pub profile : AccessProfile
  pub grants : List (String × Option EffectivePermission)

-- The exceptions.
pub data Denial : Type 0 where
  missing_token invalid_token malformed_token inactive_user permissions_changed : Denial
  change_password_required no_permission : Denial

pub data Verdict : Type 0 where
  admitted : Option AccessContext → Verdict
  denied : Denial → Verdict

-- `access.can(code)`
unfoldable pub can : AccessContext → String → Bool
can a c = has_code c a.profile.permissions

-- `s.startsWith(p)`
unfoldable pub starts_with : (s p : String) → Bool
starts_with s String.[] = true
starts_with String.[] (String.◌∷◌ c p) = false
starts_with (String.◌∷◌ d s) (String.◌∷◌ c p) = char_code d == char_code c && starts_with s p

-- `s.slice(p.length)` of a text that starts with p.
abbrev pub after_prefix : (s p : String) → String
after_prefix s String.[] = s
after_prefix String.[] (String.◌∷◌ c p) = ""
after_prefix (String.◌∷◌ d s) (String.◌∷◌ c p) = after_prefix s p

-- `url.split('?')[0]`
unfoldable pub path_of : String → String
path_of String.[] = ""
path_of (String.◌∷◌ c s) =
    let rest = path_of s in if char_code c == 63 then "" else String.◌∷◌ c rest

-- The token of the header; an empty one counts as none.
abbrev pub bearer_of : Option String → Option String
bearer_of none = none
bearer_of (some h) = if starts_with h "Bearer " then nonempty (after_prefix h "Bearer ") else none
  where
    nonempty : String → Option String
    nonempty t = if str_eq t "" then none else some t

abbrev pub same_version : Option ℕ → ℕ → Bool
same_version none w = true
same_version (some v) w = v == w

abbrev pub is_scope : Scope → Scope → Bool
is_scope Scope.scope_none Scope.scope_none = true
is_scope Scope.scope_self Scope.scope_self = true
is_scope Scope.scope_team Scope.scope_team = true
is_scope Scope.scope_subdept Scope.scope_subdept = true
is_scope Scope.scope_dept Scope.scope_dept = true
is_scope Scope.scope_all Scope.scope_all = true
is_scope _ _ = false

abbrev pub in_scopes : Option (List Scope) → EffectivePermission → Bool
in_scopes none p = true
in_scopes (some ss) p = any (λ s. is_scope s p.scope) ss

-- `byCode.get(c)`; the codes of a profile differ.
abbrev pub permission_of : AccessProfile → String → Option EffectivePermission
permission_of p c = find (λ (e : EffectivePermission). str_eq e.code c) p.permissions

abbrev pub granted_in : Option (List Scope) → Option EffectivePermission → Bool
granted_in ss none = false
granted_in ss (some e) = in_scopes ss e

-- `matched`
unfoldable pub matched : AccessProfile → Required → Bool
matched p r =
    if r.any_of
    then any (λ c. granted_in r.scopes (permission_of p c)) r.codes
    else all (λ c. is_some (permission_of p c)) r.codes

abbrev pub is_allowed : AccessProfile → Option Required → Bool
is_allowed p none = true
is_allowed p (some r) = no_codes r.codes || matched p r
  where
    no_codes : List String → Bool
    no_codes [] = true
    no_codes (c ∷ cs) = false

abbrev pub grants_of : AccessProfile → Option Required → List (String × Option EffectivePermission)
grants_of p none = []
grants_of p (some r) = map (λ c. (c, permission_of p c)) r.codes

-- Whether the path is open to a session that must change its password first.
unfoldable pub is_bootstrap : String → Bool
is_bootstrap url = any (λ allow. starts_with (path_of url) allow) password_bootstrap_paths

module _ (load : String → Option AccessProfile) (verify : String → Option Payload) where
  abbrev pub with_profile : Request → Payload → Option AccessProfile → Verdict
  with_profile req t none = denied inactive_user
  with_profile req t (some p) =
      if not (same_version t.v p.profile_version)
      then denied permissions_changed
      else if p.must_change_pwd && not (is_bootstrap req.url)
      then denied change_password_required
      else if not (is_allowed p req.required)
      then denied no_permission
      else admitted (
          some (record {
            user_id = p.profile_user;
            device_id = t.dev;
            profile = p;
            grants = grants_of p req.required;
          }))

  abbrev pub with_subject : Request → Payload → Option String → Verdict
  with_subject req t none = denied malformed_token
  with_subject req t (some s) =
      if str_eq s "" then denied malformed_token else with_profile req t (load s)

  abbrev pub with_payload : Request → Option Payload → Verdict
  with_payload req none = denied invalid_token
  with_payload req (some t) = with_subject req t t.sub

  abbrev pub with_bearer : Request → Option String → Verdict
  with_bearer req none = if req.is_anonymous then admitted none else denied missing_token
  with_bearer req (some token) = with_payload req (verify token)

  -- `canActivate(context)`
  unfoldable pub can_activate : Request → Verdict
  can_activate req = with_bearer req (bearer_of req.authorization)
