-- ===== src/WorkOrder/Sla/Laws.antt =====
-- What the service levels promise.
use newport_ms.Base.{ℕ, ◌*◌, ◌+◌, ◌≡◌, ◌<◌, refl, Option, none, some, arith, ltb}
use newport_ms.Base.Int.{ℤ, exceeds-sub_ℕ}
use newport_ms.WorkOrder.Sla.{
  waiting, elapsed, breached, status_under, Priority, emergency, priority_index, SlaPolicy, sla_for,
  half_hour_ms, SlaInput, SlaStatus, compute_sla,
}

-- Each policy allows less time to respond than to resolve, and a more pressing priority has the
-- shorter limits.
pub sla_for_ordered :
    (p q : Priority) (a b : SlaPolicy)
    → sla_for p ≡ some a
    → sla_for q ≡ some b
    → (a.response_half_hours < a.resolve_half_hours)
      × (priority_index p < priority_index q
          → (a.response_half_hours < b.response_half_hours)
            × (a.resolve_half_hours < b.resolve_half_hours))
unfolding sla_for
sla_for_ordered emergency q a b h k = (ground arith, λ l. ground arith)
sla_for_ordered _ q a b h k = (ground arith, λ l. ground arith)

sla_for_total : (p : Priority) → (a : SlaPolicy) × (sla_for p ≡ some a)
unfolding sla_for
sla_for_total emergency = (_, refl)
sla_for_total _ = (_, refl)

-- An order that was submitted at `s`.
abbrev pub submitted_order : Priority → ℕ → Option ℕ → Option ℕ → ℕ → SlaInput
submitted_order p s started closed now = record {
  priority = p;
  submitted_at = some s;
  started_at = started;
  closed_at = closed;
  now = now;
}

abbrev pub or_else : Option ℕ → ℕ → ℕ
or_else none now = now
or_else (some t) now = t

breached_since :
    (s : ℕ) (t : Option ℕ) (now limit : ℕ)
    → breached (elapsed (some s) t) (waiting (some s) now) limit ≡ ltb (s + limit) (or_else t now)
breached_since s none now limit = exceeds-sub_ℕ now s limit
breached_since s (some t) now limit = exceeds-sub_ℕ t s limit

module _ {H : Type 0} (hours : ℤ → H) where
  -- `computeSla` always answers. An order that was submitted has breached a limit exactly when the
  -- instant of the start or the end, or the present where there is none, is later than the
  -- submission by more than the limit of its priority.
  compute_sla_breaches :
      (p : Priority) (s : ℕ) (started closed : Option ℕ) (now : ℕ)
      → (a : SlaPolicy) × (r : SlaStatus hours) × (sla_for p ≡ some a)
        × (compute_sla hours (submitted_order p s started closed now) ≡ some r)
        × (r.breached_response
            ≡ ltb (s + a.response_half_hours * half_hour_ms) (or_else started now))
        × (r.breached_resolve ≡ ltb (s + a.resolve_half_hours * half_hour_ms) (or_else closed now))
  unfolding compute_sla
  compute_sla_breaches p s started closed now =
      let (a, found) = sla_for_total p in
      (
        a,
        status_under hours (submitted_order p s started closed now) a,
        found,
        rw found refl,
        breached_since s started now _,
        breached_since s closed now _,
      )
