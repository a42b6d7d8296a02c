-- ===== src/Access/Grants/Laws.antt =====
-- What a role is granted.
use newport_ms.Base.{
  ap, ◌∙◌, ◌≡◌, refl, String, Bool, true, false, not, ◌&&◌, ◌||◌, Option, none, some, List, [], ◌∷◌,
  ◌++◌, keep, includes, all, any-append, arith, eq_iff, str_eq, Bool-cases, inl, inr,
}
use newport_ms.Access.Permissions.{permission_defs}
use newport_ms.Access.Tables.{Grant, access_matrix, global_grants, role_defs}
use newport_ms.Access.Grants.{
  uniq, minimum, scope_of, within_ceiling, allowed_minimum, resolve_permissions, ResolvedGrant,
  resolve_grants, matrix_grants, section_grants, scope_rank,
}

includes-uniq :
    (seen a : List String) (p : String)
    → includes (uniq seen a) p ≡ (includes a p && not (includes seen p))
unfolding uniq
includes-uniq seen [] p = refl
includes-uniq seen (q ∷ a) p = elim (Bool-cases (includes seen q)) [
  | inl old ↦ rw (old, uniq) (ground (arith, includes-uniq seen a p, eq_iff q p, old))
  | inr new ↦ rw (new, uniq) (ground (arith, includes-uniq (q ∷ seen) a p, eq_iff q p, new))
]

-- No permission is listed twice.
abbrev pub Unique : List String → Type 0
Unique [] = Unit
Unique (p ∷ ps) = (includes ps p ≡ false) × Unique ps

uniq-Unique : (seen a : List String) → Unique (uniq seen a)
unfolding uniq
uniq-Unique seen [] = tt
uniq-Unique seen (q ∷ a) = elim (Bool-cases (includes seen q)) [
  | inl old ↦ rw (old, uniq) (uniq-Unique seen a)
  | inr new ↦
      rw (new, uniq)
        (ground (arith, includes-uniq (q ∷ seen) a q, eq_iff q q), uniq-Unique (q ∷ seen) a)
]

includes-keep :
    (f : String → Bool) (a : List String) (p : String)
    → includes (keep f a) p ≡ (includes a p && f p)
includes-keep f [] p = refl
includes-keep f (q ∷ a) p = elim (Bool-cases (str_eq q p)) [
  | inl same ↦ ground (arith, includes-keep f a p, same, ap f ((eq_iff q p).0 same))
  | inr other ↦ ground (arith, includes-keep f a p, other)
]

kept_of :
    (d a b c e : Bool)
    → ((a || ((b && (d && c)) || e)) && d) && true ≡ ((a || (e || (b && c))) && d)
kept_of true a b c e = ground arith
kept_of false a b c e = ground arith

-- What is in a list without the denied permissions, in which the minimum stands under a condition.
unlisted :
    (deny a m e : List String) (h : String → Bool) (p : String)
    → (includes
          (keep
            (λ p. not (includes deny p))
            (a ++ (keep (λ p. not (includes deny p) && h p) m ++ e)))
          p
        && not (includes [] p))
      ≡ ((includes a p || (includes e p || (includes m p && h p))) && not (includes deny p))
unlisted deny a m e h p =
    let k = keep (λ p. not (includes deny p) && h p) m in
    rw
      (
        includes-keep (λ p. not (includes deny p)) (a ++ (k ++ e)) p,
        any-append (λ x. str_eq x p) a (k ++ e),
        any-append (λ x. str_eq x p) k e,
        includes-keep (λ p. not (includes deny p) && h p) m p,
      )
      (kept_of (not (includes deny p)) (includes a p) (includes m p) (h p) (includes e p))

-- A role of a section is granted a permission exactly if it is not denied there and is declared for it, or
-- added, or is one of the minimum that its role has, in a scope that does not go beyond the permission's
-- ceiling; no permission is granted twice.
pub resolve_permissions_lem :
    (g : Grant)
    → ((p : String)
        → includes (resolve_permissions g) p ≡ (
            (includes g.permissions p
              || (includes g.extra p
                  || (includes (minimum g.role) p
                      && within_ceiling (scope_of g.grant_scope g.role) p)))
            && not (includes g.deny p)))
      × Unique (resolve_permissions g)
unfolding resolve_permissions allowed_minimum
resolve_permissions_lem g = (
  λ p.
      includes-uniq [] _ p
      ∙ unlisted g.deny g.permissions (minimum g.role) g.extra
          (within_ceiling (scope_of g.grant_scope g.role)) p,
  uniq-Unique [] _,
)

-- What a resolved grant gives is registered and is under its ceiling.
abbrev pub is_sound : ResolvedGrant → Bool
is_sound g = all (λ p. within_ceiling g.scope p) g.granted

abbrev pub all_sound : Option (List ResolvedGrant) → Bool
all_sound none = false
all_sound (some gs) = all is_sound gs

-- `resolveGrants` resolves its tables, and each permission that any role is then granted, in a section or
-- in the whole plant, is registered and its scope does not go beyond the permission's ceiling.
pub resolve_grants_sound : all_sound resolve_grants ≡ true
unfolding resolve_grants matrix_grants section_grants resolve_permissions allowed_minimum uniq
    within_ceiling scope_rank access_matrix permission_defs role_defs global_grants
resolve_grants_sound = refl
