-- ===== src/Sync/Merge/Laws.antt =====
-- What a merge makes of each field.
use mathlib.Core.List.{append-nil, append_assoc}
use newport_ms.Base.{
  subst, Bool-cases, inl, inr, String, ◌≡◌, refl, sym, ◌∙◌, Bool, false, ◌&&◌, ◌||◌, Option, none,
  some, List, [], ◌∷◌, ◌++◌, arith, str_eq, eq_iff, includes, any, keep, if◌then◌else◌,
}
use newport_ms.Json.{Value, Object, keys, get, is_blank}
use newport_ms.Json.Laws.{get-put, get_absent, UniqueKeys}
use newport_ms.Sync.Append.{append_value}
use newport_ms.Sync.Append.Laws.{PlainKeys, append_value_again}
use newport_ms.Sync.Meta.{SyncEntityMeta}
use newport_ms.Sync.Merge.{MergeDecision, disagrees, merge_field, merge_loop, merge_fieldwise}

-- The specification of one field: what is made of the present value `now` when the server had
-- `server` and the device sends `client`.
abbrev pub merged_value :
    SyncEntityMeta → String → (server now client : Option Value) → Option Value
merged_value meta key server now none = now
merged_value meta key server now (some v) =
    if includes meta.protected_fields key
    then now
    else if is_blank (some v)
    then now
    else if includes meta.append_fields key
    then some (append_value server (some v))
    else some v

get-merge_field :
    (meta : SyncEntityMeta) (server : Object) (key j : String) (v : Value) (d : MergeDecision)
    → get j (merge_field meta server key v d).merged ≡ (
        if str_eq key j
        then merged_value meta key (get key server) (get j d.merged) (some v)
        else get j d.merged)
unfolding merge_field
get-merge_field meta server key j v d = ground (
  arith,
  get-put key j v d.merged,
  get-put key j (append_value (get key server) (some v)) d.merged,
)

get-merge_loop :
    (meta : SyncEntityMeta) (server client : Object) (j : String) (d : MergeDecision)
    → UniqueKeys client
    → get j (merge_loop meta server client d).merged
      ≡ merged_value meta j (get j server) (get j d.merged) (get j client)
unfolding merge_loop get
get-merge_loop meta server [] j d u = refl
get-merge_loop meta server ((key, v) ∷ client) j d u = elim (Bool-cases (str_eq key j)) [
  | inl same ↦
      let e = (eq_iff key j).0 same in
      let absent = get_absent j client (subst (λ k. includes (keys client) k ≡ false) e u.0) in
      rw same (
        get-merge_loop meta server client j (merge_field meta server key v d) u.1
        ∙ rw absent (
            get-merge_field meta server key j v d
            ∙ rw same (
                subst
                  (λ k.
                    merged_value meta key (get key server) (get j d.merged) (some v)
                    ≡ merged_value meta k (get k server) (get j d.merged) (some v))
                  e refl)))
  | inr other ↦ rw other (
      get-merge_loop meta server client j (merge_field meta server key v d) u.1
      ∙ rw (get-merge_field meta server key j v d, other) refl)
]

merged_value_again :
    (meta : SyncEntityMeta) (j : String) (server client : Option Value)
    → PlainKeys client
    → merged_value meta j
        (merged_value meta j server server client)
        (merged_value meta j server server client)
        client
      ≡ merged_value meta j server server client
merged_value_again meta j server none p = refl
merged_value_again meta j server (some v) p = ground (arith, append_value_again server (some v) p)

kept_step :
    (meta : SyncEntityMeta) (server : Object) (key : String) (v : Value) (d : MergeDecision)
    (rest : List String)
    → (merge_field meta server key v d).kept_from_server ++ rest
      ≡ d.kept_from_server ++ (if includes meta.protected_fields key then key ∷ rest else rest)
kept_step meta server key v d rest =
    unfold merge_field in
    elim (Bool-cases (includes meta.protected_fields key)) [
      | inl yes' ↦ rw yes' (append_assoc d.kept_from_server (key ∷ []) rest)
      | inr no' ↦ rw no' (ground arith)
    ]

conflict_step :
    (meta : SyncEntityMeta) (server : Object) (key : String) (v : Value) (d : MergeDecision)
    (rest : Bool)
    → (rest || (merge_field meta server key v d).conflict)
      ≡ ((includes meta.protected_fields key && disagrees server key v) || rest || d.conflict)
unfolding merge_field
conflict_step meta server key v d rest = ground arith

-- If the keys of the device's record differ from one another, every field of the merged record is what the specification of one field says: a protected field
-- is the server's, a blank value of the device changes nothing, a field that collects entries has
-- the device's appended, and any other field is the device's.
pub get-merge_fieldwise :
    (meta : SyncEntityMeta) (server client : Object) (j : String)
    → UniqueKeys client
    → get j (merge_fieldwise server client meta).merged
      ≡ merged_value meta j (get j server) (get j server) (get j client)
get-merge_fieldwise meta server client j u =
    unfold merge_fieldwise in get-merge_loop meta server client j _ u

kept-merge_loop :
    (meta : SyncEntityMeta) (server client : Object) (d : MergeDecision)
    → (merge_loop meta server client d).kept_from_server
      ≡ d.kept_from_server ++ keep (includes meta.protected_fields) (keys client)
unfolding merge_loop
kept-merge_loop meta server [] d = sym (append-nil _)
kept-merge_loop meta server ((key, v) ∷ client) d =
    (kept-merge_loop meta server client (merge_field meta server key v d)
      ∙ kept_step meta server key v d (keep (includes meta.protected_fields) (keys client)))

conflict-merge_loop :
    (meta : SyncEntityMeta) (server client : Object) (d : MergeDecision)
    → (merge_loop meta server client d).conflict ≡ (
        any
          (λ (m : String × Value). includes meta.protected_fields m.0 && disagrees server m.0 m.1)
          client
        || d.conflict)
unfolding merge_loop
conflict-merge_loop meta server [] d = refl
conflict-merge_loop meta server ((key, v) ∷ client) d =
    (conflict-merge_loop meta server client (merge_field meta server key v d)
      ∙ conflict_step meta server key v d _)

-- The fields that the merge reports as kept are the protected fields that the device sent, in its
-- order, and it reports a conflict exactly when one of them has a value on the server and is sent
-- with another.
merge_fieldwise_reports :
    (meta : SyncEntityMeta) (server client : Object)
    → ((merge_fieldwise server client meta).kept_from_server
        ≡ keep (includes meta.protected_fields) (keys client))
      × ((merge_fieldwise server client meta).conflict
          ≡ any
              (λ (m : String × Value).
                includes meta.protected_fields m.0 && disagrees server m.0 m.1)
              client)
unfolding merge_fieldwise
merge_fieldwise_reports meta server client =
    (kept-merge_loop meta server client _, conflict-merge_loop meta server client _ ∙ ground arith)

-- A change that is sent a second time, after its merge was written, changes no field, if the keys of
-- the device's record differ from one another and those of the field's entries are no objects or
-- lists.
merge_fieldwise_again :
    (meta : SyncEntityMeta) (server client : Object) (j : String)
    → UniqueKeys client
    → PlainKeys (get j client)
    → get j (merge_fieldwise (merge_fieldwise server client meta).merged client meta).merged
      ≡ get j (merge_fieldwise server client meta).merged
merge_fieldwise_again meta server client j u p =
    get-merge_fieldwise meta (merge_fieldwise server client meta).merged client j u
    ∙ rw (get-merge_fieldwise meta server client j u)
        (merged_value_again meta j (get j server) (get j client) p)
