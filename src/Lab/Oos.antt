-- ===== src/Lab/Oos.antt =====
-- The state machine of a case that is out of specification, in packages/domain/src/lab.ts.
use newport_ms.Base.{
  inr, inl, ◌⊎◌, String, ◌≡◌, refl, Bool, true, false, Option, none, some, List, [], ◌∷◌, arith,
  str_eq, find, any, ◌==◌, ℕ,
}

-- `OOS_STATUSES`
pub data OosStatus : Type 0 where
  open_case investigating capa_defined effectiveness_check closed rejected : OosStatus

-- The text of a status.
abbrev pub oos_name : OosStatus → String
oos_name open_case = "OPEN"
oos_name investigating = "INVESTIGATING"
oos_name capa_defined = "CAPA_DEFINED"
oos_name effectiveness_check = "EFFECTIVENESS_CHECK"
oos_name closed = "CLOSED"
oos_name rejected = "REJECTED"

abbrev pub oos_statuses : List OosStatus
oos_statuses =
    open_case ∷ investigating ∷ capa_defined ∷ effectiveness_check ∷ closed ∷ rejected ∷ []

-- `OOS_TRANSITIONS`
unfoldable pub oos_transitions : OosStatus → List OosStatus
oos_transitions open_case = investigating ∷ rejected ∷ []
oos_transitions investigating = capa_defined ∷ rejected ∷ []
oos_transitions capa_defined = effectiveness_check ∷ investigating ∷ []
oos_transitions effectiveness_check = closed ∷ investigating ∷ []
oos_transitions closed = []
oos_transitions rejected = []

-- The status that a text names.
abbrev pub oos_named : String → Option OosStatus
oos_named name = find (λ s. str_eq (oos_name s) name) oos_statuses

abbrev pub oos_next : Option OosStatus → List OosStatus
oos_next none = []
oos_next (some s) = oos_transitions s

-- `canOosTransition(from, to)`
unfoldable pub can_oos_transition : String → String → Bool
unfolding oos_transitions
can_oos_transition from to = any (λ t. str_eq (oos_name t) to) (oos_next (oos_named from))

-- `allowedOosNext(from)`
unfoldable pub allowed_oos_next : String → List OosStatus
unfolding oos_transitions
allowed_oos_next from = oos_next (oos_named from)

-- The lives of a case: the statuses that it has had, newest first, and the present one.
pub data OosLife : List OosStatus → OosStatus → Type 0 where
  start : OosLife (open_case ∷ []) open_case
  next :
      {h : List OosStatus} {s u : OosStatus}
      → OosLife h s
      → can_oos_transition (oos_name s) (oos_name u) ≡ true
      → OosLife (u ∷ h) u

abbrev pub oos_index : OosStatus → ℕ
oos_index open_case = 0
oos_index investigating = 1
oos_index capa_defined = 2
oos_index effectiveness_check = 3
oos_index closed = 4
oos_index rejected = 5

abbrev pub had : OosStatus → List OosStatus → Bool
had s h = any (λ t. oos_index t == oos_index s) h

record Inv (h : List OosStatus) (s : OosStatus) : Type 0 where
  capa_here : s ≡ capa_defined → had capa_defined h ≡ true
  capa_checked : s ≡ effectiveness_check → had capa_defined h ≡ true
  check_here : s ≡ effectiveness_check → had effectiveness_check h ≡ true
  capa_closed : s ≡ closed → had capa_defined h ≡ true
  check_closed : s ≡ closed → had effectiveness_check h ≡ true

next-Inv :
    (h : List OosStatus) (s u : OosStatus)
    → can_oos_transition (oos_name s) (oos_name u) ≡ true
    → Inv h s
    → Inv (u ∷ h) u
unfolding can_oos_transition
next-Inv h open_case open_case e i = ground arith
next-Inv h _ open_case e i = ground arith
next-Inv h open_case closed e i = ground arith
next-Inv h investigating closed e i = ground arith
next-Inv h _ closed e i = ground arith
next-Inv h _ effectiveness_check e i = ground arith
next-Inv h _ u e i = ground arith

OosLife-Inv : {h : List OosStatus} {s : OosStatus} → OosLife h s → Inv h s
OosLife-Inv start = ground arith
OosLife-Inv (next {h} {s} {u} l e) = next-Inv h s u e (OosLife-Inv l)

-- No case is closed without a corrective action that was defined and whose effect was checked.
closed-had_capa :
    {h : List OosStatus}
    → OosLife h closed
    → (had capa_defined h ≡ true) × (had effectiveness_check h ≡ true)
closed-had_capa l = ((OosLife-Inv l).capa_closed refl, (OosLife-Inv l).check_closed refl)

-- A closed or rejected case stays as it is, and so does one whose status has no known name:
-- no text names a status that it could pass to.
pub oos_ends :
    (from to : String)
    → (oos_named from ≡ none) ⊎ (oos_named from ≡ some closed) ⊎ (oos_named from ≡ some rejected)
    → can_oos_transition from to ≡ false
unfolding can_oos_transition
oos_ends from to (inl h) = rw h refl
oos_ends from to (inr (inl h)) = rw h refl
oos_ends from to (inr (inr h)) = rw h refl
