-- ===== src/WorkOrder/Machine.antt =====
-- What the table of transitions allows over whole lives of a work order.
use newport_ms.Base.{
  String, ◌≡◌, refl, Bool, true, false, some, List, [], ◌∷◌, ◌⊎◌, arith, is_some, any,
  if◌then◌else◌, includes,
}
use newport_ms.WorkOrder.States.{
  WoState, draft, submitted, approved, assigned, in_progress, on_hold, awaiting_parts,
  awaiting_permit, completed, closed, cancelled, rejected, state_eq, Transition, can_transition,
  allowed_next_states, actual_times, root_cause,
}

-- A state is offered as a next state exactly when the transition to it is accepted.
pub allowed-iff_can :
    (from to : WoState) (perms : List String)
    → any (λ s. state_eq s to) (allowed_next_states from perms)
      ≡ is_some (can_transition from to perms)
unfolding can_transition allowed_next_states
allowed-iff_can draft to perms = ground arith
allowed-iff_can _ to perms = ground arith

-- Somebody, with some set of permissions, is allowed the transition from `s` to `u`.
pub data Moves (s u : WoState) : Type 0 where
  move : (perms : List String) (t : Transition) → can_transition s u perms ≡ some t → Moves s u

-- The lives of a work order: the states it has been in, newest first, and the present one.
pub data Life : List WoState → WoState → Type 0 where
  start : Life (draft ∷ []) draft
  next : {h : List WoState} {s u : WoState} → Life h s → Moves s u → Life (u ∷ h) u

-- The part of a history since the order was last a draft.
abbrev pub since_draft : List WoState → List WoState
since_draft [] = []
since_draft (s ∷ h) = let rest = since_draft h in if state_eq s draft then [] else s ∷ rest

-- The states in which work has been handed out, is done, or is finished.
abbrev pub is_released : WoState → Bool
is_released assigned = true
is_released in_progress = true
is_released on_hold = true
is_released awaiting_parts = true
is_released awaiting_permit = true
is_released completed = true
is_released closed = true
is_released _ = false

abbrev pub seen : WoState → List WoState → Bool
seen s h = any (λ t. state_eq t s) h

released-move :
    (s u : WoState)
    → Moves s u
    → is_released u ≡ true
    → (is_released s ≡ true) ⊎ ((s ≡ approved) × (u ≡ assigned))
unfolding can_transition
released-move draft u (move perms t e) r = ground arith
released-move _ u (move perms t e) r = ground arith

record Inv (h : List WoState) (s : WoState) : Type 0 where
  at_approved : s ≡ approved → seen approved (since_draft h) ≡ true
  approved_before : is_released s ≡ true → seen approved (since_draft h) ≡ true
  assigned_before : is_released s ≡ true → seen assigned (since_draft h) ≡ true

next-Inv : (h : List WoState) (s u : WoState) → Moves s u → Inv h s → Inv (u ∷ h) u
next-Inv h s draft m i = ground arith
next-Inv h s u m i = ground (arith, released-move s u m)

Life-Inv : {h : List WoState} {s : WoState} → Life h s → Inv h s
Life-Inv start = ground arith
Life-Inv (next {h} {s} {u} l m) = next-Inv h s u m (Life-Inv l)

-- Whatever the order of transitions and whoever makes them, a work order that is handed out, under
-- way, done or closed has been approved and then assigned since it was last a draft.
pub released-seen_approved_assigned :
    {h : List WoState} {s : WoState}
    → Life h s
    → is_released s ≡ true
    → (seen approved (since_draft h) ≡ true) × (seen assigned (since_draft h) ≡ true)
released-seen_approved_assigned l r =
    ((Life-Inv l).approved_before r, (Life-Inv l).assigned_before r)

-- An order is closed only from `completed`, by somebody who may close orders, and the transition
-- asks for the root cause.
closes_completed :
    (s : WoState) (perms : List String) (t : Transition)
    → can_transition s closed perms ≡ some t
    → (s ≡ completed)
      × (includes perms "maint.wo.close" ≡ true)
      × (t.requires ≡ actual_times ∷ root_cause ∷ [])
unfolding can_transition
closes_completed draft perms t h = ground arith
closes_completed _ perms t h = ground arith

-- Transitions one after the other.
infix 40 ◌⟶*◌
pub data ◌⟶*◌ (s : WoState) : WoState → Type 0 where
  here : s ⟶* s
  then_move : {t u : WoState} → s ⟶* t → Moves t u → s ⟶* u

abbrev every_permission : List String
every_permission =
    "maint.wo.create" ∷ "maint.wo.assign" ∷ "maint.wo.execute" ∷ "maint.wo.close"
    ∷ "maint.wo.cancel" ∷ "maint.permit.approve" ∷ []

trans_⟶* : {s t u : WoState} → s ⟶* t → t ⟶* u → s ⟶* u
trans_⟶* p here = p
trans_⟶* p (then_move q m) = then_move (trans_⟶* p q) m

by_edge : (s u : WoState) (t : Transition) → can_transition s u every_permission ≡ some t → s ⟶* u
by_edge s u t h = then_move here (move every_permission t h)

in_progress⟶*closed : in_progress ⟶* closed
unfolding can_transition
in_progress⟶*closed =
    trans_⟶* (by_edge in_progress completed _ refl) (by_edge completed closed _ refl)

assigned⟶*closed : assigned ⟶* closed
unfolding can_transition
assigned⟶*closed = trans_⟶* (by_edge assigned in_progress _ refl) in_progress⟶*closed

approved⟶*closed : approved ⟶* closed
unfolding can_transition
approved⟶*closed = trans_⟶* (by_edge approved assigned _ refl) assigned⟶*closed

draft⟶*closed : draft ⟶* closed
unfolding can_transition
draft⟶*closed =
    trans_⟶* (by_edge draft submitted _ refl)
      (trans_⟶* (by_edge submitted approved _ refl) approved⟶*closed)

-- No state is a dead end: from each of the twelve there are transitions that lead to `closed`.
pub every_state_can_close : (s : WoState) → s ⟶* closed
unfolding can_transition
every_state_can_close draft = draft⟶*closed
every_state_can_close submitted = trans_⟶* (by_edge submitted approved _ refl) approved⟶*closed
every_state_can_close approved = approved⟶*closed
every_state_can_close assigned = assigned⟶*closed
every_state_can_close in_progress = in_progress⟶*closed
every_state_can_close on_hold = trans_⟶* (by_edge on_hold in_progress _ refl) in_progress⟶*closed
every_state_can_close awaiting_parts =
    trans_⟶* (by_edge awaiting_parts in_progress _ refl) in_progress⟶*closed
every_state_can_close awaiting_permit =
    trans_⟶* (by_edge awaiting_permit in_progress _ refl) in_progress⟶*closed
every_state_can_close completed = by_edge completed closed _ refl
every_state_can_close closed = here
every_state_can_close cancelled = trans_⟶* (by_edge cancelled draft _ refl) draft⟶*closed
every_state_can_close rejected = trans_⟶* (by_edge rejected draft _ refl) draft⟶*closed
