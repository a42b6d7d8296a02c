-- ===== src/WorkOrder/States.antt =====
-- The table of transitions of packages/domain/src/workorder.ts. A permission code is its text, a
-- set of permissions the list of its members. The Arabic notes of the table are left out.
use newport_ms.Base.{
  ℕ, String, ◌≡◌, Bool, Option, none, some, List, [], ◌∷◌, map, arith, ◌==◌, if◌then◌else◌, find,
  keep, includes,
}

-- `WO_STATES`
pub data WoState : Type 0 where
  draft submitted approved assigned in_progress on_hold awaiting_parts awaiting_permit : WoState
  completed closed cancelled rejected : WoState

-- The position of a state in `WO_STATES`.
abbrev pub state_index : WoState → ℕ
state_index draft = 0
state_index submitted = 1
state_index approved = 2
state_index assigned = 3
state_index in_progress = 4
state_index on_hold = 5
state_index awaiting_parts = 6
state_index awaiting_permit = 7
state_index completed = 8
state_index closed = 9
state_index cancelled = 10
state_index rejected = 11

-- `a === b` on states.
abbrev pub state_eq : WoState → WoState → Bool
state_eq a b = state_index a == state_index b

pub state_index-injective : (a b : WoState) → state_index a ≡ state_index b → a ≡ b
state_index-injective a b h = ground arith

-- The data that a transition asks for.
pub data Requirement : Type 0 where
  reason labor parts actual_times root_cause permit_no : Requirement

pub record Transition : Type 0 where
  pub to : WoState
  pub permission : String
  pub requires : List Requirement

-- `WO_TRANSITIONS`; an absent `requires` is the empty list, as each reader takes it.
unfoldable pub wo_transitions : WoState → List Transition
wo_transitions draft =
    record { to = submitted; permission = "maint.wo.create"; requires = [] }
    ∷ record { to = cancelled; permission = "maint.wo.cancel"; requires = reason ∷ [] }
    ∷ []
wo_transitions submitted =
    record { to = approved; permission = "maint.wo.assign"; requires = [] }
    ∷ record { to = rejected; permission = "maint.wo.cancel"; requires = reason ∷ [] }
    ∷ []
wo_transitions approved =
    record { to = assigned; permission = "maint.wo.assign"; requires = actual_times ∷ [] }
    ∷ record { to = cancelled; permission = "maint.wo.cancel"; requires = reason ∷ [] }
    ∷ []
wo_transitions assigned =
    record { to = in_progress; permission = "maint.wo.execute"; requires = actual_times ∷ [] }
    ∷ record { to = on_hold; permission = "maint.wo.execute"; requires = reason ∷ [] }
    ∷ record { to = awaiting_parts; permission = "maint.wo.execute"; requires = reason ∷ [] }
    ∷ []
wo_transitions in_progress =
    record { to = completed; permission = "maint.wo.execute"; requires = labor ∷ parts ∷ [] }
    ∷ record { to = on_hold; permission = "maint.wo.execute"; requires = reason ∷ [] }
    ∷ record { to = awaiting_parts; permission = "maint.wo.execute"; requires = [] }
    ∷ record { to = awaiting_permit; permission = "maint.wo.execute"; requires = [] }
    ∷ []
wo_transitions on_hold =
    record { to = in_progress; permission = "maint.wo.execute"; requires = [] } ∷ []
wo_transitions awaiting_parts =
    record { to = in_progress; permission = "maint.wo.execute"; requires = [] } ∷ []
wo_transitions awaiting_permit =
    record { to = in_progress; permission = "maint.permit.approve"; requires = [] } ∷ []
wo_transitions completed =
    record { to = closed; permission = "maint.wo.close"; requires = actual_times ∷ root_cause ∷ [] }
    ∷ record { to = in_progress; permission = "maint.wo.execute"; requires = reason ∷ [] }
    ∷ []
wo_transitions closed =
    record { to = in_progress; permission = "maint.wo.cancel"; requires = reason ∷ [] } ∷ []
wo_transitions cancelled = record { to = draft; permission = "maint.wo.cancel"; requires = [] } ∷ []
wo_transitions rejected = record { to = draft; permission = "maint.wo.create"; requires = [] } ∷ []

-- `perms.has(t.permission) ? t : null`, where `t` may be absent.
abbrev pub if_permitted : List String → Option Transition → Option Transition
if_permitted perms none = none
if_permitted perms (some t) = if includes perms t.permission then some t else none

-- `canTransition(from, to, perms)`
unfoldable pub can_transition : WoState → WoState → List String → Option Transition
unfolding wo_transitions
can_transition from to perms =
    if_permitted perms (find (λ t. state_eq t.to to) (wo_transitions from))

-- `allowedNextStates(from, perms)`
unfoldable pub allowed_next_states : WoState → List String → List WoState
unfolding wo_transitions
allowed_next_states from perms =
    map (λ t. t.to) (keep (λ t. includes perms t.permission) (wo_transitions from))
