-- ===== src/WorkOrder/Service/Locking.antt =====
-- The optimistic lock of `transition`.
use newport_ms.Base.{subst, ℕ, ◌+◌, ◌≡◌, refl, String, false, List, [], ◌∷◌, arith, any}
use newport_ms.WorkOrder.Service.{
  WorkOrder, Tables, TransitionDto, Access, ok, err, stale_version, has_key, update_rows,
  updated_row, commit, prepare, transition,
}
use newport_ms.WorkOrder.Service.Laws.{transition-eq-ok, orders-commit, prepare_sound}

version-updated_row :
    (dto : TransitionDto) (access : Access) (now : ℕ) (wo r : WorkOrder)
    → (updated_row dto access now wo r).version ≡ r.version + 1
unfolding updated_row
version-updated_row dto access now wo r = refl

-- An update that raises the version leaves no row with the old key.
no_key_left :
    (id : String) (v : ℕ) (f : WorkOrder → WorkOrder) (rows : List WorkOrder)
    → ((r : WorkOrder) → (f r).version ≡ r.version + 1)
    → any (has_key id v) (update_rows id v f rows) ≡ false
unfolding update_rows
no_key_left id v f [] bump = refl
no_key_left id v f (r ∷ rows) bump = ground (arith, bump r, no_key_left id v f rows bump)

commit_stale :
    (dto : TransitionDto) (access : Access) (now : ℕ) (wo : WorkOrder) (db : Tables)
    → any (has_key wo.id wo.version) db.orders ≡ false
    → commit dto access now wo db ≡ err (stale_version wo.version)
unfolding commit
commit_stale dto access now wo db gone = rw gone refl

-- No update is lost: once a transition of an order has been written, every other transition that
-- was prepared from the same read of the tables is refused as stale.
pub second_writer_is_stale :
    (read write : Tables) (id : String) (dto dto' : TransitionDto) (access access' : Access)
    (now now' : ℕ) {db : Tables} (wo : WorkOrder)
    → transition read write id dto access now ≡ ok db
    → prepare read id dto' access' now' ≡ ok wo
    → transition read db id dto' access' now' ≡ err (stale_version wo.version)
second_writer_is_stale read write id dto dto' access access' now now' {db} wo h p' =
    let (first, prepared, committed) = transition-eq-ok read write id dto access now h in
    let found = (prepare_sound read id dto access now first prepared).found in
    let found' = (prepare_sound read id dto' access' now' wo p').found in
    let same : first ≡ wo = cc (found, found') in
    let orders = orders-commit dto access now first write committed in
    let gone =
      no_key_left first.id first.version (updated_row dto access now first) write.orders
        (version-updated_row dto access now first) in
    unfold transition in
    rw p' (
      commit_stale dto' access' now' wo db (
        subst (λ (w : WorkOrder). any (has_key w.id w.version) db.orders ≡ false) same
          (rw orders gone)))
