-- ===== src/Security/Sources.antt =====
-- What a profile of apps/api/src/security/permission.service.ts holds: where its permissions come
-- from, and when a user counts for the whole facility.
use newport_ms.Security.{default_grants}
use newport_ms.Base.{
  ℕ, ◌≡◌, refl, ap, ◌∙◌, String, Bool, true, false, Option, none, is_some, List, [], ◌∷◌, arith,
  str_eq, eq_iff, find, includes, if◌then◌else◌,
}
use newport_ms.Base.Maps.{lookup-delete, lookup-set, delete, lookup, set}
use newport_ms.Security.{
  is_expired, UserRole, as_array, or_defaults, Role, apply_role, apply_section, is_wider, Scope,
  SubDeptGrant, apply_defaults, apply_roles, apply_sections, by_code, Directory, User, upsert,
  Value, profile_of, remove_denied, upsert_all, values, EffectivePermission, has_code, ByCode,
}
use newport_ms.Security.Laws.{scope-by_code, scope_of, granted_scope}
use newport_ms.Security.Guard.{permission_of}
use newport_ms.Json.{Value}

-- Every entry of the map stands under its permission's code, and the codes differ.
abbrev pub Coded : ByCode → Type 0
Coded [] = Unit
Coded ((k, p) ∷ m) = ((p.code ≡ k) × (lookup k m ≡ none)) × Coded m

if-Coded :
    (b : Bool) (m n : ByCode)
    → (b ≡ true → Coded m)
    → (b ≡ false → Coded n)
    → Coded (if b then m else n)
if-Coded true m n f g = f refl
if-Coded false m n f g = g refl

set-Coded :
    (k : String) (p : EffectivePermission) (m : ByCode) → p.code ≡ k → Coded m → Coded (set k p m)
unfolding set lookup
set-Coded k p [] e h = ((e, refl), tt)
set-Coded k p ((j, q) ∷ m) e h =
    if-Coded (str_eq j k) ((k, p) ∷ m) ((j, q) ∷ set k p m)
      (λ t. ((e, ground (arith, h.0.1, eq_iff j k)), h.1))
      (λ t. (
        (h.0.0, ground (arith, h.0.1, lookup-set j k p m, eq_iff j k, eq_iff k j)),
        set-Coded k p m e h.1,
      ))

delete-Coded : (k : String) (m : ByCode) → Coded m → Coded (delete k m)
unfolding delete lookup
delete-Coded k [] h = tt
delete-Coded k ((j, q) ∷ m) h =
    if-Coded (str_eq j k) (delete k m) ((j, q) ∷ delete k m) (λ t. delete-Coded k m h.1)
      (λ t. ((h.0.0, ground (arith, h.0.1, lookup-delete j k m, eq_iff j k)), delete-Coded k m h.1))

upsert_all-Coded :
    (ks : List String) (s : Scope) (d sd : Option String) (u : User) (m : ByCode)
    → Coded m
    → Coded (upsert_all ks s d sd u m)
unfolding upsert_all upsert
upsert_all-Coded [] s d sd u m h = h
upsert_all-Coded (k ∷ ks) s d sd u m h =
    upsert_all-Coded ks s d sd u (upsert k s d sd u m)
      (if-Coded (is_wider (lookup k m) s) _ m (λ t. set-Coded k _ m refl h) (λ t. h))

remove_denied-Coded :
    (deny ks : List String) (m : ByCode) → Coded m → Coded (remove_denied deny ks m)
unfolding remove_denied
remove_denied-Coded deny [] m h = h
remove_denied-Coded deny (k ∷ ks) m h =
    remove_denied-Coded deny ks _
      (if-Coded (includes deny k) (delete k m) m (λ t. delete-Coded k m h) (λ t. h))

module _ (parse : String → Option Value) (user : User) where
  apply_sections-Coded :
      (perms : List String) (gs : List SubDeptGrant) (m : ByCode)
      → Coded m
      → Coded (apply_sections parse user perms gs m)
  unfolding apply_sections apply_section
  apply_sections-Coded perms [] m h = h
  apply_sections-Coded perms (g ∷ gs) m h = apply_sections-Coded perms gs _ (
      if-Coded (str_eq g.grant_sub_dept user.user_sub_dept) _ m
        (λ t.
          remove_denied-Coded (as_array parse g.deny_json) perms _
            (upsert_all-Coded _ _ _ _ user m h))
        (λ t. h))

  apply_roles-Coded :
      (now : ℕ) (gs : List UserRole) (m : ByCode)
      → Coded m
      → Coded (apply_roles parse user now gs m)
  unfolding apply_roles apply_role
  apply_roles-Coded now [] m h = h
  apply_roles-Coded now (g ∷ gs) m h = apply_roles-Coded now gs _ (
      if-Coded (is_expired now g) m _ (λ t. h)
        (λ t.
          apply_sections-Coded g.role.role_permissions g.role.sub_dept_grants _
            (upsert_all-Coded _ _ _ _ user m h)))

  apply_defaults-Coded :
      (rows : List (SubDeptGrant × Role)) (m : ByCode)
      → Coded m
      → Coded (apply_defaults parse user rows m)
  unfolding apply_defaults
  apply_defaults-Coded [] m h = h
  apply_defaults-Coded ((g, r) ∷ rows) m h =
      apply_defaults-Coded rows _ (upsert_all-Coded _ _ _ _ user m h)

  or_defaults-Coded :
      (rows : List (SubDeptGrant × Role)) (m : ByCode)
      → Coded m
      → Coded (or_defaults parse user rows m)
  or_defaults-Coded rows [] h = apply_defaults-Coded rows [] tt
  or_defaults-Coded rows (e ∷ m) h = h

  -- The map that `load` comes to is well formed: its keys differ, and each entry stands under its
  -- permission's code.
  pub by_code-Coded : (d : Directory) (now : ℕ) → Coded (by_code parse d now user)
  unfolding by_code
  by_code-Coded d now =
      upsert_all-Coded _ _ _ _ user _
        (or_defaults-Coded (default_grants d user) _ (apply_roles-Coded now user.user_roles [] tt))

find-values :
    (c : String) (m : ByCode)
    → Coded m
    → find (λ (e : EffectivePermission). str_eq e.code c) (values m) ≡ lookup c m
unfolding lookup
find-values c [] h = refl
find-values c ((k, p) ∷ m) h = ground (arith, find-values c m h.1, h.0.0)

has_code-find :
    (c : String) (ps : List EffectivePermission)
    → has_code c ps ≡ is_some (find (λ (e : EffectivePermission). str_eq e.code c) ps)
has_code-find c [] = refl
has_code-find c (p ∷ ps) = ground (arith, has_code-find c ps)

-- A user's profile gives each code exactly the scope that the grants give to that code: the scopes of
-- the user's live roles one after the other, a grant of the user's own section adding its extra codes
-- and taking away those it denies, the default grants if the roles give nothing, and self-service.
pub permission_of-granted_scope :
    (parse : String → Option Value) (d : Directory) (now : ℕ) (user : User) (c : String)
    → scope_of (permission_of (profile_of parse d now user) c) ≡ granted_scope parse user c d now
unfolding profile_of
permission_of-granted_scope parse d now user c =
    ap scope_of (find-values c (by_code parse d now user) (by_code-Coded parse user d now))
    ∙ scope-by_code parse user c d now

-- What the guard finds for a code is what `has` finds.
pub has_code-profile_of :
    (parse : String → Option Value) (d : Directory) (now : ℕ) (user : User) (c : String)
    → has_code c (profile_of parse d now user).permissions
      ≡ is_some (granted_scope parse user c d now)
has_code-profile_of parse d now user c = ground (
  arith,
  has_code-find c (profile_of parse d now user).permissions,
  permission_of-granted_scope parse d now user c,
)
