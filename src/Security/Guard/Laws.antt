-- ===== src/Security/Guard/Laws.antt =====
-- Who gets past `canActivate` of apps/api/src/security/access.guard.ts.
use newport_ms.Base.{
  ℕ, ◌≡◌, refl, sym, ap, ◌∙◌, subst, String, Bool, true, false, not, ◌&&◌, Option, none, some, List,
  [], ◌∷◌, arith, str_eq, any, Bool-cases, Option-cases, inl, inr,
}
use newport_ms.Base.Maps.{lookup}
use newport_ms.Security.Sources.{permission_of-granted_scope}
use newport_ms.Security.Guard.{
  permission_of, Required, granted_in, matched, is_scope, bearer_of, can_activate, with_bearer,
  with_payload, with_subject, admitted, is_allowed, is_bootstrap, with_profile, AccessContext,
  same_version, Request, Payload,
}
use newport_ms.Security.{
  profile_of, User, lookup, load, Directory, EffectivePermission, Scope, Value, AccessProfile,
}
use newport_ms.Security.Laws.{granted_scope, scope_of}
use newport_ms.Json.{Value}

module _ (load : String → Option AccessProfile) (verify : String → Option Payload) where
  -- What a profile and a token must be for a request.
  abbrev pub Fits : Request → Payload → AccessProfile → Type 0
  Fits req t p =
      (same_version t.v p.profile_version ≡ true)
      × ((p.must_change_pwd && not (is_bootstrap req.url)) ≡ false)
      × (is_allowed p req.required ≡ true)

  profile_Fits :
      (req : Request) (t : Payload) (o : Option AccessProfile) (a : AccessContext)
      → with_profile load verify req t o ≡ admitted (some a)
      → (o ≡ some a.profile) × Fits req t a.profile
  profile_Fits req t none a h = ground arith
  profile_Fits req t (some p) a h = ground arith

  subject_Fits :
      (req : Request) (t : Payload) (o : Option String) (a : AccessContext)
      → with_subject load verify req t o ≡ admitted (some a)
      → (s : String) × (o ≡ some s) × (load s ≡ some a.profile) × Fits req t a.profile
  subject_Fits req t none a h = cc
  subject_Fits req t (some s) a h = elim (Bool-cases (str_eq s "")) [
    | inl e ↦ ground (arith, e)
    | inr e ↦ let (f, g) = profile_Fits req t (load s) a (ground (arith, e)) in (s, refl, f, g)
  ]

  payload_Fits :
      (req : Request) (o : Option Payload) (a : AccessContext)
      → with_payload load verify req o ≡ admitted (some a)
      → (t : Payload) × (s : String) × (o ≡ some t)
        × (t.sub ≡ some s)
        × (load s ≡ some a.profile)
        × Fits req t a.profile
  payload_Fits req none a h = cc
  payload_Fits req (some t) a h =
      let (s, e, f, g) = subject_Fits req t t.sub a h in (t, s, refl, e, f, g)

  bearer_Fits :
      (req : Request) (o : Option String) (a : AccessContext)
      → with_bearer load verify req o ≡ admitted (some a)
      → (token s : String) × (t : Payload) × (o ≡ some token)
        × (verify token ≡ some t)
        × (t.sub ≡ some s)
        × (load s ≡ some a.profile)
        × Fits req t a.profile
  bearer_Fits req none a h = ground arith
  bearer_Fits req (some token) a h =
      let (t, s, e, f, g, k) = payload_Fits req (verify token) a h in
      (token, s, t, refl, e, f, g, k)

  -- A request that is let in with a user's profile has a token that verifies, of a subject whose
  -- profile is the one given, at the version that the token names if it names one; it goes to a path
  -- of the account if the password must be changed; and what the handler asks for is granted.
  pub can_activate-Fits :
      (req : Request) (a : AccessContext)
      → can_activate load verify req ≡ admitted (some a)
      → (token s : String) × (t : Payload) × (bearer_of req.authorization ≡ some token)
        × (verify token ≡ some t)
        × (t.sub ≡ some s)
        × (load s ≡ some a.profile)
        × Fits req t a.profile
  unfolding can_activate
  can_activate-Fits req a h = bearer_Fits req (bearer_of req.authorization) a h

abbrev pub scope_allowed : Option (List Scope) → Option Scope → Bool
scope_allowed ss none = false
scope_allowed none (some s) = true
scope_allowed (some ss) (some s) = any (λ x. is_scope x s) ss

granted_in-scope_of :
    (ss : Option (List Scope)) (o : Option EffectivePermission)
    → granted_in ss o ≡ scope_allowed ss (scope_of o)
granted_in-scope_of none none = refl
granted_in-scope_of none (some p) = refl
granted_in-scope_of (some ss) none = refl
granted_in-scope_of (some ss) (some p) = refl

allowed_matched :
    (p : AccessProfile) (r : Required) (c : String) (cs : List String)
    → r.codes ≡ c ∷ cs
    → is_allowed p (some r) ≡ true
    → matched p r ≡ true
allowed_matched p r c cs e h = ground arith

any-eq {ℓ} :
    {A : Type ℓ} (p q : A → Bool) (xs : List A) → ((x : A) → p x ≡ q x) → any p xs ≡ any q xs
any-eq p q [] h = refl
any-eq p q (x ∷ xs) h = ground (arith, h x, any-eq p q xs h)

module _ (parse : String → Option Value) (d : Directory) (now : ℕ)
    (verify : String → Option Payload) where
  -- `load` for a user of whom no profile is kept.
  abbrev pub loaded : String → Option AccessProfile
  loaded id = (load parse d now false id []).0

  load_found :
      (id : String) (p : AccessProfile)
      → loaded id ≡ some p
      → (user : User) × (d.find_user id ≡ some user) × (p ≡ profile_of parse d now user)
  unfolding load lookup
  load_found id p h = elim (Option-cases (d.find_user id)) [
    | inl e ↦ ground (arith, e)
    | inr (user, e) ↦ (user, e, ground (arith, e))
  ]

  matched_scopes :
      (user : User) (r : Required)
      → r.any_of ≡ true
      → matched (profile_of parse d now user) r
        ≡ any (λ k. scope_allowed r.scopes (granted_scope parse user k d now)) r.codes
  unfolding matched
  matched_scopes user r h = ground (
    arith,
    h,
    any-eq (λ k. granted_in r.scopes (permission_of (profile_of parse d now user) k))
        (λ k. scope_allowed r.scopes (granted_scope parse user k d now)) r.codes
        (λ k.
          granted_in-scope_of r.scopes (permission_of (profile_of parse d now user) k)
          ∙ ap (scope_allowed r.scopes) (permission_of-granted_scope parse d now user k)),
  )

  -- A request that is let in to a handler that asks for one of some permissions, in one of some
  -- scopes, has a token that verifies, whose subject is a user of the directory; the profile that it
  -- is given is that user's; and to that user the grants give one of the permissions in such a scope.
  pub can_activate-granted_scope :
      (req : Request) (a : AccessContext) (r : Required) (c : String) (cs : List String)
      → can_activate loaded verify req ≡ admitted (some a)
      → req.required ≡ some r
      → r.codes ≡ c ∷ cs
      → r.any_of ≡ true
      → (token id : String) × (t : Payload) × (user : User) × (bearer_of req.authorization
          ≡ some token)
        × (verify token ≡ some t)
        × (t.sub ≡ some id)
        × (d.find_user id ≡ some user)
        × (a.profile ≡ profile_of parse d now user)
        × (any (λ k. scope_allowed r.scopes (granted_scope parse user k d now)) r.codes ≡ true)
  can_activate-granted_scope req a r c cs h e f g =
      let (token, s, t, e1, e2, e3, e4, fits) = can_activate-Fits loaded verify req a h in
      let (user, found, built) = load_found s a.profile e4 in
      (
        token,
        s,
        t,
        user,
        e1,
        e2,
        e3,
        found,
        built,
        sym (matched_scopes user r g)
            ∙ ap (λ p. matched p r) (sym built)
            ∙ allowed_matched a.profile r c cs f
                (subst (λ o. is_allowed a.profile o ≡ true) e fits.2),
      )
