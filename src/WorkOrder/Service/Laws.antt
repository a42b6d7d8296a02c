-- ===== src/WorkOrder/Service/Laws.antt =====
-- What a transition that the server accepts has been checked for, and what it writes.
use newport_ms.Base.{◌∙◌}
use newport_ms.Base.{sym}
use newport_ms.Base.{Option-cases}
use newport_ms.Base.{inr}
use newport_ms.Base.{inl}
use mathlib.Core.Option
use newport_ms.WorkOrder.Service.{or_fail-eq-ok}
use newport_ms.Base.{subst}
use newport_ms.WorkOrder.Service.{>>=-eq-ok}
use newport_ms.Base.{
  ℕ, ◌+◌, ◌≡◌, ◌≢◌, refl, String, true, ◌||◌, some, List, [], ◌∷◌, map, arith, eq_iff, find, any,
  includes, if◌then◌else◌, ap,
}
use newport_ms.WorkOrder.States.{in_progress, completed, closed, Transition, can_transition}
use newport_ms.WorkOrder.Service.{
  WorkOrder, Tables, TransitionDto, Access, ok, err, by_id, is_in_force, has_key, check_requires,
  check_permit, update_rows, updated_row, commit, prepare, transition, add_labor, order_closed,
  LaborEntry,
}

-- What `prepare` has established when it succeeds.
pub record Checked (db : Tables) (id : String) (dto : TransitionDto) (access : Access) (now : ℕ)
    (wo : WorkOrder) : Type 0 where
  pub found : find (by_id id) db.orders ≡ some wo
  pub by : Transition
  pub allowed : can_transition wo.status dto.to access.permissions ≡ some by
  pub complete : check_requires dto by.requires by.requires ≡ ok tt
  pub permitted : check_permit db dto wo now ≡ ok tt

pub prepare_sound :
    (db : Tables) (id : String) (dto : TransitionDto) (access : Access) (now : ℕ) (wo : WorkOrder)
    → prepare db id dto access now ≡ ok wo
    → Checked db id dto access now wo
unfolding prepare
prepare_sound db id dto access now wo h =
    let (wo', found, h₁) = >>=-eq-ok _ _ h in
    let (t, allowed, h₂) = >>=-eq-ok _ _ h₁ in
    let (u, complete, h₃) = >>=-eq-ok _ _ h₂ in
    let (v, permitted, h₄) = >>=-eq-ok _ _ h₃ in
    let same : wo' ≡ wo = cc in
    subst (Checked db id dto access now) same (record {
      found = or_fail-eq-ok _ _ found;
      by = t;
      allowed = or_fail-eq-ok _ _ allowed;
      complete = complete;
      permitted = permitted;
    })

-- A transition that succeeds was prepared, and was committed on the tables that it wrote.
pub transition-eq-ok :
    (read write : Tables) (id : String) (dto : TransitionDto) (access : Access) (now : ℕ)
    {db : Tables}
    → transition read write id dto access now ≡ ok db
    → (wo : WorkOrder) × (prepare read id dto access now ≡ ok wo)
      × (commit dto access now wo write ≡ ok db)
unfolding transition
transition-eq-ok read write id dto access now h = >>=-eq-ok _ _ h

check_permit-in_force :
    (db : Tables) (dto : TransitionDto) (wo : WorkOrder) (now : ℕ)
    → check_permit db dto wo now ≡ ok tt
    → dto.to ≡ in_progress
    → (wo.require_permit || wo.is_safety_critical) ≡ true
    → any (is_in_force wo.id now) db.permits ≡ true
unfolding check_permit
check_permit-in_force db dto wo now h e r = ground arith

-- The safety rule: the server starts the work of an order that needs a permit, or is critical to
-- safety, only if it has read a permit for that order that is open, extended or approved by HSE
-- and has not run out.
pub started-in_force :
    (read write : Tables) (id : String) (dto : TransitionDto) (access : Access) (now : ℕ)
    {db : Tables}
    → transition read write id dto access now ≡ ok db
    → dto.to ≡ in_progress
    → (wo : WorkOrder) × (find (by_id id) read.orders ≡ some wo)
      × ((wo.require_permit || wo.is_safety_critical) ≡ true
          → any (is_in_force wo.id now) read.permits ≡ true)
started-in_force read write id dto access now h e =
    let (wo, prepared, _) = transition-eq-ok read write id dto access now h in
    let c = prepare_sound read id dto access now wo prepared in
    (wo, c.found, check_permit-in_force read dto wo now c.permitted e)

-- A search by id looks through an update that keeps the ids.
find-map_id :
    (f : WorkOrder → WorkOrder) (j : String) (rows : List WorkOrder)
    → ((r : WorkOrder) → (f r).id ≡ r.id)
    → find (by_id j) (map f rows) ≡ Option.map f (find (by_id j) rows)
find-map_id f j [] keep = refl
find-map_id f j (r ∷ rows) keep = ground (arith, keep r, find-map_id f j rows keep)

-- The update under the lock, on one row.
abbrev pub locked_update : String → ℕ → (WorkOrder → WorkOrder) → WorkOrder → WorkOrder
locked_update id version f row = if has_key id version row then f row else row

find-update_rows :
    (j id : String) (version : ℕ) (f : WorkOrder → WorkOrder) (rows : List WorkOrder)
    → ((r : WorkOrder) → (f r).id ≡ r.id)
    → find (by_id j) (update_rows id version f rows)
      ≡ Option.map (locked_update id version f) (find (by_id j) rows)
unfolding update_rows
find-update_rows j id version f rows keep =
    find-map_id (locked_update id version f) j rows (λ r. ground (arith, keep r))

id-updated_row :
    (dto : TransitionDto) (access : Access) (now : ℕ) (wo r : WorkOrder)
    → (updated_row dto access now wo r).id ≡ r.id
unfolding updated_row
id-updated_row dto access now wo r = refl

pub orders-commit :
    (dto : TransitionDto) (access : Access) (now : ℕ) (wo : WorkOrder) (write : Tables)
    {db : Tables}
    → commit dto access now wo write ≡ ok db
    → db.orders ≡ update_rows wo.id wo.version (updated_row dto access now wo) write.orders
unfolding commit
orders-commit dto access now wo write h = ground arith

by_id-found :
    (id : String) (rows : List WorkOrder) {wo : WorkOrder}
    → find (by_id id) rows ≡ some wo
    → wo.id ≡ id
by_id-found id [] h = cc
by_id-found id (r ∷ rows) {wo} h =
    ground (arith, eq_iff r.id id, λ (k : find (by_id id) rows ≡ some wo). by_id-found id rows k)

locked_update_self :
    (r wo : WorkOrder) (f : WorkOrder → WorkOrder)
    → wo ≡ r
    → locked_update wo.id wo.version f r ≡ f r
locked_update_self r wo f e = ground (arith, eq_iff r.id wo.id, ap (λ (w : WorkOrder). w.id) e)

locked_update_ne :
    (r : WorkOrder) (id : String) (v : ℕ) (f : WorkOrder → WorkOrder)
    → r.id ≢ id
    → locked_update id v f r ≡ r
locked_update_ne r id v f h = ground (arith, eq_iff r.id id)

find-locked_ne :
    (j id : String) (v : ℕ) (f : WorkOrder → WorkOrder) (rows : List WorkOrder)
    → j ≢ id
    → Option.map (locked_update id v f) (find (by_id j) rows) ≡ find (by_id j) rows
find-locked_ne j id v f rows h = elim (Option-cases (find (by_id j) rows)) [
  | inl missing ↦ rw missing refl
  | inr (r, found) ↦
      rw found (ap some (locked_update_ne r id v f (λ e. h (sym (by_id-found j rows found) ∙ e))))
]

-- What an accepted transition does to the orders: the order that it names, if its row is still the
-- one that was read, has the new status and the next version, and keeps its id and the hours that
-- were booked on it; every other order is the one that it was.
pub transition_orders :
    (read write : Tables) (id : String) (dto : TransitionDto) (access : Access) (now : ℕ)
    {db : Tables} (row : WorkOrder)
    → transition read write id dto access now ≡ ok db
    → find (by_id id) write.orders ≡ some row
    → find (by_id id) read.orders ≡ some row
    → ((new : WorkOrder) × (find (by_id id) db.orders ≡ some new)
        × (new.status ≡ dto.to)
        × (new.version ≡ row.version + 1)
        × (new.labor_hours ≡ row.labor_hours))
      × ((j : String) → j ≢ id → find (by_id j) db.orders ≡ find (by_id j) write.orders)
transition_orders read write id dto access now row h k l =
    let (wo, prepared, committed) = transition-eq-ok read write id dto access now h in
    let c = prepare_sound read id dto access now wo prepared in
    let f = updated_row dto access now wo in
    let keeps = id-updated_row dto access now wo in
    let orders = orders-commit dto access now wo write committed in
    let same : wo ≡ row = cc (c.found, l) in
    let at = λ (j : String). find-update_rows j wo.id wo.version f write.orders keeps in
    (
      (
        f row,
        rw (orders, at id, k) (ap some (locked_update_self row wo f same)),
        unfold updated_row in refl,
        unfold updated_row in refl,
        unfold updated_row in refl,
      ),
      λ j ne.
          rw (orders, at j)
            (find-locked_ne j wo.id wo.version f write.orders
              (λ e. ne (e ∙ by_id-found id read.orders c.found))),
    )

-- The handler asks for no labour and no parts when an order is completed: whoever may execute
-- orders completes one that is in progress, and no further data is looked at.
completes_unchecked :
    (db : Tables) (id : String) (dto : TransitionDto) (access : Access) (now : ℕ) (wo : WorkOrder)
    → find (by_id id) db.orders ≡ some wo
    → wo.status ≡ in_progress
    → dto.to ≡ completed
    → includes access.permissions "maint.wo.execute" ≡ true
    → prepare db id dto access now ≡ ok wo
unfolding prepare can_transition check_requires check_permit
completes_unchecked db id dto access now wo found s d p = rw found (ground arith)

-- No labour is booked on a closed order.
pub add_labor_closed :
    (id : String) (entries : List LaborEntry) (db : Tables) (wo : WorkOrder)
    → find (by_id id) db.orders ≡ some wo
    → wo.status ≡ closed
    → add_labor id entries db ≡ err order_closed
unfolding add_labor
add_labor_closed id entries db wo found s = rw found (ground arith)
