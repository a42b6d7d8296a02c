-- ===== src/WorkOrder/Permit.antt =====
-- The flow of a permit to work in packages/domain/src/workorder.ts.
use newport_ms.Base.{
  ℕ, ◌+◌, ◌≤◌, String, ◌≡◌, Bool, true, false, List, [], ◌∷◌, arith, ◌==◌, any, length,
}

-- `PERMIT_STATES`
pub data PermitState : Type 0 where
  requested awaiting_isolation approved_by_area approved_by_hse open_permit extended : PermitState
  closed cancelled : PermitState

-- The position of a state in `PERMIT_STATES`.
abbrev pub permit_index : PermitState → ℕ
permit_index requested = 0
permit_index awaiting_isolation = 1
permit_index approved_by_area = 2
permit_index approved_by_hse = 3
permit_index open_permit = 4
permit_index extended = 5
permit_index closed = 6
permit_index cancelled = 7

abbrev pub permit_eq : PermitState → PermitState → Bool
permit_eq a b = permit_index a == permit_index b

pub record PermitTransition : Type 0 where
  pub to : PermitState
  pub permission : String

-- `PERMIT_TRANSITIONS`
unfoldable pub permit_transitions : PermitState → List PermitTransition
permit_transitions requested =
    record { to = awaiting_isolation; permission = "maint.permit.approve" }
    ∷ record { to = approved_by_area; permission = "maint.permit.approve" }
    ∷ record { to = cancelled; permission = "maint.permit.create" }
    ∷ []
permit_transitions awaiting_isolation =
    record { to = approved_by_area; permission = "maint.permit.approve" } ∷ []
permit_transitions approved_by_area =
    record { to = approved_by_hse; permission = "maint.permit.approve" }
    ∷ record { to = cancelled; permission = "maint.permit.approve" }
    ∷ []
permit_transitions approved_by_hse =
    record { to = open_permit; permission = "maint.permit.approve" } ∷ []
permit_transitions open_permit =
    record { to = extended; permission = "maint.permit.approve" }
    ∷ record { to = closed; permission = "maint.permit.approve" }
    ∷ []
permit_transitions extended = record { to = closed; permission = "maint.permit.approve" } ∷ []
permit_transitions closed = []
permit_transitions cancelled = []

abbrev pub has_edge : PermitState → PermitState → Bool
has_edge s u = any (λ t. permit_eq t.to u) (permit_transitions s)

-- The lives of a permit: the states it has been in, newest first, and the present one.
pub data PermitLife : List PermitState → PermitState → Type 0 where
  start : PermitLife (requested ∷ []) requested
  next :
      {h : List PermitState} {s u : PermitState}
      → PermitLife h s
      → has_edge s u ≡ true
      → PermitLife (u ∷ h) u

abbrev pub seen : PermitState → List PermitState → Bool
seen s h = any (λ t. permit_eq t s) h

-- The states in which the permit lets work go on, or has done so.
abbrev pub was_opened : PermitState → Bool
was_opened open_permit = true
was_opened extended = true
was_opened closed = true
was_opened _ = false

-- The index of a state among the paths to the end: it grows with every transition.
abbrev progress : PermitState → ℕ
progress requested = 0
progress awaiting_isolation = 1
progress approved_by_area = 2
progress approved_by_hse = 3
progress open_permit = 4
progress extended = 5
progress closed = 6
progress cancelled = 6

record Inv (h : List PermitState) (s : PermitState) : Type 0 where
  short : length h ≤ progress s + 1
  at_area : s ≡ approved_by_area → seen approved_by_area h ≡ true
  at_hse : s ≡ approved_by_hse → seen approved_by_hse h ≡ true
  area_before : s ≡ approved_by_hse → seen approved_by_area h ≡ true
  opened_area : was_opened s ≡ true → seen approved_by_area h ≡ true
  opened_hse : was_opened s ≡ true → seen approved_by_hse h ≡ true

next-Inv :
    (h : List PermitState) (s u : PermitState) → has_edge s u ≡ true → Inv h s → Inv (u ∷ h) u
unfolding permit_transitions
next-Inv h requested u e i = ground arith
next-Inv h _ u e i = ground arith

PermitLife-Inv : {h : List PermitState} {s : PermitState} → PermitLife h s → Inv h s
PermitLife-Inv start = ground arith
PermitLife-Inv (next {h} {s} {u} l e) = next-Inv h s u e (PermitLife-Inv l)

-- A permit that is open, extended or closed has been approved by the area and by HSE.
pub opened-seen_approvals :
    {h : List PermitState} {s : PermitState}
    → PermitLife h s
    → was_opened s ≡ true
    → (seen approved_by_area h ≡ true) × (seen approved_by_hse h ≡ true)
opened-seen_approvals l o = ((PermitLife-Inv l).opened_area o, (PermitLife-Inv l).opened_hse o)

-- The flow ends: no permit makes more than six transitions.
pub permit_flow_ends : {h : List PermitState} {s : PermitState} → PermitLife h s → length h ≤ 7
permit_flow_ends {h} {s} l = bound s (PermitLife-Inv l).short
  where
    bound : (s : PermitState) → length h ≤ progress s + 1 → length h ≤ 7
    bound requested k = omega arith
    bound _ k = omega arith
