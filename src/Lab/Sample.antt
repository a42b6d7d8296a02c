-- ===== src/Lab/Sample.antt =====
-- The state machine of a sample, in packages/domain/src/lab.ts.
use newport_ms.Base.{
  String, ◌≡◌, refl, Bool, true, false, ◌||◌, Option, none, some, List, [], ◌∷◌, str_eq, find, any,
  if◌then◌else◌,
}

-- `SAMPLE_STATUSES`
pub data SampleStatus : Type 0 where
  collected in_queue analyzing resulted verified rejected voided : SampleStatus

-- The text of a status.
abbrev pub sample_name : SampleStatus → String
sample_name collected = "COLLECTED"
sample_name in_queue = "IN_QUEUE"
sample_name analyzing = "ANALYZING"
sample_name resulted = "RESULTED"
sample_name verified = "VERIFIED"
sample_name rejected = "REJECTED"
sample_name voided = "VOIDED"

abbrev pub sample_statuses : List SampleStatus
sample_statuses = collected ∷ in_queue ∷ analyzing ∷ resulted ∷ verified ∷ rejected ∷ voided ∷ []

-- `SAMPLE_TRANSITIONS`
unfoldable pub sample_transitions : SampleStatus → List SampleStatus
sample_transitions collected = in_queue ∷ analyzing ∷ voided ∷ []
sample_transitions in_queue = analyzing ∷ voided ∷ []
sample_transitions analyzing = resulted ∷ in_queue ∷ voided ∷ []
sample_transitions resulted = verified ∷ rejected ∷ []
sample_transitions verified = rejected ∷ []
sample_transitions rejected = analyzing ∷ []
sample_transitions voided = []

-- The status that a text names.
abbrev pub sample_named : String → Option SampleStatus
sample_named name = find (λ s. str_eq (sample_name s) name) sample_statuses

abbrev pub sample_next : Option SampleStatus → List SampleStatus
sample_next none = []
sample_next (some s) = sample_transitions s

-- `canSampleTransition(from, to)`
unfoldable pub can_sample_transition : String → String → Bool
unfolding sample_transitions
can_sample_transition from to =
    any (λ t. str_eq (sample_name t) to) (sample_next (sample_named from))

-- `statusAfterResultEntry(current)`
unfoldable pub status_after_result_entry : String → Option SampleStatus
status_after_result_entry current =
    if str_eq current "COLLECTED" || (str_eq current "IN_QUEUE" || str_eq current "ANALYZING")
    then some resulted
    else if str_eq current "RESULTED"
    then some resulted
    else none

-- Some moves of the machine lead from one status to another.
pub data Leads : SampleStatus → SampleStatus → Type 0 where
  stay : {s : SampleStatus} → Leads s s
  move :
      {s t u : SampleStatus}
      → can_sample_transition (sample_name s) (sample_name t) ≡ true
      → Leads t u
      → Leads s u

-- Whether a status takes results.
abbrev pub takes_results : SampleStatus → Bool
takes_results verified = false
takes_results rejected = false
takes_results voided = false
takes_results _ = true

-- Entering results makes a sample RESULTED if it is not verified, rejected or voided, and is refused
-- if it is; where it is taken, moves that the machine allows lead from the sample's status to
-- RESULTED.
result_entry_follows_machine :
    (s : SampleStatus)
    → (status_after_result_entry (sample_name s)
        ≡ (if takes_results s then some resulted else none))
      × (takes_results s ≡ true → Leads s resulted)
unfolding status_after_result_entry can_sample_transition
result_entry_follows_machine collected = (refl, λ e. move {t = analyzing} refl (move refl stay))
result_entry_follows_machine in_queue = (refl, λ e. move {t = analyzing} refl (move refl stay))
result_entry_follows_machine analyzing = (refl, λ e. move refl stay)
result_entry_follows_machine resulted = (refl, λ e. stay)
result_entry_follows_machine verified = (refl, λ e. absurd cc)
result_entry_follows_machine rejected = (refl, λ e. absurd cc)
result_entry_follows_machine voided = (refl, λ e. absurd cc)
