-- ===== src/Sync/Validate/Laws.antt =====
-- Which requests pass.
use newport_ms.Base.{
  All-mono, String, ◌≡◌, refl, ◌↔◌, true, false, not, List, [], ◌∷◌, ◌++◌, arith, ◌==◌, str_eq,
  includes, is_some, All,
}
use newport_ms.Sync.Validate.{
  user_id_missing, device_id_missing, incompatible_schema, report, PushError, has_no_fields,
  is_server_made, op_errors, ops_errors, validate_push,
}
use newport_ms.Sync.Meta.{schema_version, sync_meta, patch, delete, ChangeOp, PushRequest}

-- What an operation must be on its own.
pub record IsWellFormed (op : ChangeOp) : Type 0 where
  pub has_id : str_eq op.op_id "" ≡ false
  pub has_record : str_eq op.record_id "" ≡ false
  pub known : is_some (sync_meta op.op_entity) ≡ true
  pub deletable : op.kind ≡ delete → is_server_made (sync_meta op.op_entity) ≡ false
  pub changes : op.kind ≡ patch → has_no_fields op.fields ≡ false

-- No two operations have one id.
abbrev pub UniqueIds : List ChangeOp → Type 0
UniqueIds [] = Unit
UniqueIds (op ∷ ops) = All (λ o. str_eq op.op_id o.op_id ≡ false) ops × UniqueIds ops

pub record IsValid (req : PushRequest) : Type 0 where
  pub same_schema : req.request_schema ≡ schema_version
  pub has_device : str_eq req.device_id "" ≡ false
  pub has_user : str_eq req.user_id "" ≡ false
  pub well_formed : All IsWellFormed req.ops
  pub unique : UniqueIds req.ops

append-eq-nil {ℓ} : {A : Type ℓ} (xs ys : List A) → xs ++ ys ≡ [] → (xs ≡ []) × (ys ≡ [])
append-eq-nil [] ys h = (refl, h)
append-eq-nil (x ∷ xs) ys h = cc

op_errors_sound :
    (seen : List String) (op : ChangeOp)
    → op_errors seen op ≡ []
    → IsWellFormed op × (includes seen op.op_id ≡ false)
unfolding op_errors
op_errors_sound seen op h = ground arith

op_errors_complete :
    (seen : List String) (op : ChangeOp)
    → IsWellFormed op
    → includes seen op.op_id ≡ false
    → op_errors seen op ≡ []
unfolding op_errors
op_errors_complete seen op w n = ground arith

ops_errors_sound :
    (seen : List String) (ops : List ChangeOp)
    → ops_errors seen ops ≡ []
    → All IsWellFormed ops × All (λ o. includes seen o.op_id ≡ false) ops × UniqueIds ops
unfolding ops_errors
ops_errors_sound seen [] h = (tt, tt, tt)
ops_errors_sound seen (op ∷ ops) h =
    let (none_here, none_later) = append-eq-nil (op_errors seen op) _ h in
    let (well, new) = op_errors_sound seen op none_here in
    let (wells, news, unique) = ops_errors_sound (op.op_id ∷ seen) ops none_later in
    (
      (well, wells),
      (new, All-mono ops (λ o (k : includes (op.op_id ∷ seen) o.op_id ≡ false). ground arith) news),
      (
        All-mono ops (λ o (k : includes (op.op_id ∷ seen) o.op_id ≡ false). ground arith) news,
        unique,
      ),
    )

All-both {ℓ κ μ ν} :
    {A : Type ℓ} {P : A → Type κ} {Q : A → Type μ} {R : A → Type ν} (xs : List A)
    → ((x : A) → P x → Q x → R x)
    → All P xs
    → All Q xs
    → All R xs
All-both [] f h k = tt
All-both (x ∷ xs) f h k = (f x h.0 k.0, All-both xs f h.1 k.1)

ops_errors_complete :
    (seen : List String) (ops : List ChangeOp)
    → All IsWellFormed ops
    → All (λ o. includes seen o.op_id ≡ false) ops
    → UniqueIds ops
    → ops_errors seen ops ≡ []
unfolding ops_errors
ops_errors_complete seen [] w n u = refl
ops_errors_complete seen (op ∷ ops) w n u = rw (op_errors_complete seen op w.0 n.0) (
    ops_errors_complete (op.op_id ∷ seen) ops w.1
      (All-both ops
        (λ o (k : str_eq op.op_id o.op_id ≡ false) (l : includes seen o.op_id ≡ false).
          ground arith)
        u.0 n.1)
      u.1)

All-new : (ops : List ChangeOp) → All (λ o. includes [] o.op_id ≡ false) ops
All-new [] = tt
All-new (op ∷ ops) = (refl, All-new ops)

header_sound :
    (req : PushRequest) (rest : List PushError)
    → report (not (req.request_schema == schema_version)) (incompatible_schema req.request_schema)
        ++ (report (str_eq req.device_id "") device_id_missing
            ++ (report (str_eq req.user_id "") user_id_missing ++ rest))
      ≡ []
    → (rest ≡ [])
      × ((req.request_schema ≡ schema_version)
          × (str_eq req.device_id "" ≡ false)
          × (str_eq req.user_id "" ≡ false))
header_sound req rest h = ground arith

request_complete :
    (req : PushRequest) → IsValid req → ops_errors [] req.ops ≡ [] → validate_push req ≡ []
unfolding validate_push
request_complete req v h = rw h (ground arith)

request_sound : (req : PushRequest) → validate_push req ≡ [] → IsValid req
unfolding validate_push
request_sound req h =
    let (no_ops, fields) = header_sound req (ops_errors [] req.ops) h in
    let (wells, _, unique) = ops_errors_sound [] req.ops no_ops in
    record {
      same_schema = fields.0;
      has_device = fields.1;
      has_user = fields.2;
      well_formed = wells;
      unique = unique;
    }

-- A request passes exactly when it is of the right schema, names a device and a user, and holds
-- operations with ids that differ, each on a record of a known entity, none of which deletes what
-- the server makes or patches no field.
pub validate_push_iff : (req : PushRequest) → (validate_push req ≡ []) ↔ IsValid req
validate_push_iff req = (
  request_sound req,
  λ v.
      request_complete req v
        (ops_errors_complete [] req.ops v.well_formed (All-new req.ops) v.unique),
)
