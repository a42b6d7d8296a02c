-- ===== src/Client/Access/Laws.antt =====
-- Which scope the view holds of a permission.
use newport_ms.Base.{
  ap, inr, inl, sym, Bool-cases, subst, ◌∙◌, ℕ, ◌≡◌, refl, String, Bool, true, ◌||◌, Option, none,
  some, is_some, List, [], ◌∷◌, arith, str_eq, eq_iff, any, max, if◌then◌else◌,
}
use newport_ms.Base.Maps.{lookup, lookup-set}
use newport_ms.Client.Access.{
  GrantPair, view_rank, is_wider, add_grant, add_grants, access_view, can, scope_of_code,
}

-- The rank of the scope that is held; none is the lowest.
abbrev pub rank_of : Option String → ℕ
rank_of none = 0
rank_of (some scope) = view_rank scope

-- The highest rank that the grants give of a code.
abbrev pub widest : String → List GrantPair → ℕ
widest code [] = 0
widest code (g ∷ gs) =
    let rest = widest code gs in
    if str_eq g.pair_code code then max (view_rank g.pair_scope) rest else rest

blank-view_rank : (scope : String) → str_eq scope "" ≡ true → view_rank scope ≡ 0
unfolding view_rank
blank-view_rank scope h = subst (λ s. view_rank s ≡ 0) (sym ((eq_iff scope "").0 h)) refl

-- A wider scope takes the place of the present one, and no other does.
held_rank :
    (cur : Option String) (scope : String)
    → rank_of (if is_wider cur scope then some scope else cur) ≡ max (rank_of cur) (view_rank scope)
held_rank none scope = omega arith
held_rank (some cur) scope = ground (arith, blank-view_rank cur)

lookup-add_grant :
    (code : String) (g : GrantPair) (m : List (String × String))
    → lookup code (add_grant g m) ≡ (
        if str_eq g.pair_code code
        then (if is_wider (lookup code m) g.pair_scope then some g.pair_scope else lookup code m)
        else lookup code m)
unfolding add_grant
lookup-add_grant code g m = elim (Bool-cases (str_eq g.pair_code code)) [
  | inl same ↦ ground (
    arith,
    lookup-set code g.pair_code g.pair_scope m,
    same,
    ap (λ c. lookup c m) ((eq_iff g.pair_code code).0 same),
  )
  | inr other ↦ ground (arith, lookup-set code g.pair_code g.pair_scope m, other)
]

add_grants-widest :
    (code : String) (gs : List GrantPair) (m : List (String × String))
    → rank_of (lookup code (add_grants gs m)) ≡ max (rank_of (lookup code m)) (widest code gs)
unfolding add_grants
add_grants-widest code [] m = omega arith
add_grants-widest code (g ∷ gs) m = elim (Bool-cases (str_eq g.pair_code code)) [
  | inl same ↦
      add_grants-widest code gs (add_grant g m)
      ∙ rw (lookup-add_grant code g m, same) (omega (arith, held_rank (lookup code m) g.pair_scope))
  | inr other ↦
      add_grants-widest code gs (add_grant g m) ∙ rw (lookup-add_grant code g m, other) refl
]

held-is_some :
    (cur : Option String) (scope : String)
    → is_some (if is_wider cur scope then some scope else cur) ≡ true
held-is_some none scope = refl
held-is_some (some cur) scope = ground arith

add_grants-is_some :
    (code : String) (gs : List GrantPair) (m : List (String × String))
    → is_some (lookup code (add_grants gs m))
      ≡ (is_some (lookup code m) || any (λ g. str_eq g.pair_code code) gs)
unfolding add_grants
add_grants-is_some code [] m = ground arith
add_grants-is_some code (g ∷ gs) m = elim (Bool-cases (str_eq g.pair_code code)) [
  | inl same ↦
      add_grants-is_some code gs (add_grant g m)
      ∙ rw (lookup-add_grant code g m, same)
          (ground (arith, held-is_some (lookup code m) g.pair_scope))
  | inr other ↦
      add_grants-is_some code gs (add_grant g m) ∙ rw (lookup-add_grant code g m, other) refl
]

-- The user may do exactly what some grant names, in the widest scope among the grants of it, in whatever
-- order they came.
pub access_view-widest :
    (grants : List GrantPair) (roles : List String) (facility_wide : Bool) (code : String)
    → (can code (access_view grants roles facility_wide)
        ≡ any (λ g. str_eq g.pair_code code) grants)
      × (rank_of (scope_of_code code (access_view grants roles facility_wide)) ≡ widest code grants)
unfolding access_view can scope_of_code lookup
access_view-widest grants roles facility_wide code =
    (add_grants-is_some code grants [], add_grants-widest code grants [] ∙ omega arith)
