-- ===== src/WorkOrder/Sla.antt =====
-- The service levels of packages/domain/src/workorder.ts. An instant is its number of milliseconds
-- since 1970, as `Date.parse` gives it; hours are held in half hours, since one policy has 0.5.
-- How a time difference is shown (`+(ms / 3_600_000).toFixed(2)`) is the parameter `hours`.
pub mod Laws
use newport_ms.Base.{ℕ, ◌*◌, ◌≡◌, Bool, Option, none, some, List, [], ◌∷◌, ◌==◌, find}
use newport_ms.Base.Int.{ℤ, pos, sub_ℕ, exceeds}

-- `PRIORITIES`
pub data Priority : Type 0 where
  emergency urgent high medium low routine_pm : Priority

-- The position of a priority in `PRIORITIES`.
abbrev pub priority_index : Priority → ℕ
priority_index emergency = 0
priority_index urgent = 1
priority_index high = 2
priority_index medium = 3
priority_index low = 4
priority_index routine_pm = 5

pub record SlaPolicy : Type 0 where
  pub priority : Priority
  pub response_half_hours : ℕ
  pub resolve_half_hours : ℕ

-- `SLA_POLICIES`
abbrev pub sla_policies : List SlaPolicy
sla_policies =
    record { priority = emergency; response_half_hours = 1; resolve_half_hours = 16 }
    ∷ record { priority = urgent; response_half_hours = 4; resolve_half_hours = 48 }
    ∷ record { priority = high; response_half_hours = 16; resolve_half_hours = 144 }
    ∷ record { priority = medium; response_half_hours = 48; resolve_half_hours = 336 }
    ∷ record { priority = low; response_half_hours = 96; resolve_half_hours = 1008 }
    ∷ record { priority = routine_pm; response_half_hours = 144; resolve_half_hours = 1440 }
    ∷ []

-- `slaFor`; `none` is its exception.
unfoldable pub sla_for : Priority → Option SlaPolicy
sla_for p = find (λ x. priority_index x.priority == priority_index p) sla_policies

abbrev pub half_hour_ms : ℕ
half_hour_ms = 1800000

pub record SlaInput : Type 0 where
  pub priority : Priority
  pub submitted_at : Option ℕ
  pub started_at : Option ℕ
  pub closed_at : Option ℕ
  -- `input.now ?? Date.now()`
  pub now : ℕ

-- `later - submitted`, where both are known.
abbrev pub elapsed : Option ℕ → Option ℕ → Option ℤ
elapsed (some submitted) (some later) = some (sub_ℕ later submitted)
elapsed _ _ = none

-- `now - (submitted ?? now)`
abbrev pub waiting : Option ℕ → ℕ → ℤ
waiting none now = pos 0
waiting (some submitted) now = sub_ℕ now submitted

-- The elapsed time if it is known, and else the time waited, against the limit.
abbrev pub breached : Option ℤ → ℤ → ℕ → Bool
breached none waited limit = exceeds waited limit
breached (some ms) waited limit = exceeds ms limit

module _ {H : Type 0} (hours : ℤ → H) where
  pub record SlaStatus : Type 0 where
    pub breached_response : Bool
    pub breached_resolve : Bool
    pub response_hours : Option H
    pub resolve_hours : Option H

  abbrev pub shown : Option ℤ → Option H
  shown none = none
  shown (some ms) = some (hours ms)

  abbrev pub status_under : SlaInput → SlaPolicy → SlaStatus
  status_under input policy =
      let response = elapsed input.submitted_at input.started_at in
      let resolve = elapsed input.submitted_at input.closed_at in
      let waited = waiting input.submitted_at input.now in
      record {
        breached_response = breached response waited (policy.response_half_hours * half_hour_ms);
        breached_resolve = breached resolve waited (policy.resolve_half_hours * half_hour_ms);
        response_hours = shown response;
        resolve_hours = shown resolve;
      }

  abbrev pub under_policy : SlaInput → Option SlaPolicy → Option SlaStatus
  under_policy input none = none
  under_policy input (some policy) = some (status_under input policy)

  -- `computeSla`
  unfoldable pub compute_sla : SlaInput → Option SlaStatus
  compute_sla input = under_policy input (sla_for input.priority)
