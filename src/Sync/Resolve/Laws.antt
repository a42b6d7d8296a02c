-- ===== src/Sync/Resolve/Laws.antt =====
-- What the resolution of a conflict guarantees.
use newport_ms.Base.{
  ◌∙◌, String, ◌≡◌, ◌≢◌, refl, ◌⊎◌, inl, inr, Bool, true, false, ◌&&◌, Option, none, some, includes,
  if◌then◌else◌,
}
use newport_ms.Sync.Resolve.{
  by_strategy, when_approved, Resolution, apply_client, merge_fields, keep_server, refuse,
  is_nonempty, resolve_conflict,
}
use newport_ms.Json.{Value, Object, get}
use newport_ms.Json.Laws.{UniqueKeys}
use newport_ms.Sync.Meta.{
  SyncEntityMeta, MergeStrategy, server_wins, field_merge, append_only, reject, sync_meta,
}
use newport_ms.Sync.Merge.{MergeDecision, merge_fieldwise}
use newport_ms.Sync.Merge.Laws.{get-merge_fieldwise, merged_value}

pub protected-merged :
    (meta : SyncEntityMeta) (key : String) (server client : Option Value)
    → includes meta.protected_fields key ≡ true
    → merged_value meta key server server client ≡ server
protected-merged meta key server none h = refl
protected-merged meta key server (some v) h = rw h refl

-- Which resolution is reached, by the entity's policy and whether the record is approved.
pub data Reaches (meta : SyncEntityMeta) (server client : Object) (approved : Bool)
    : Resolution → Type 0 where
  applies :
      meta.merge ≡ append_only
      → (approved && is_nonempty meta.protected_fields) ≡ false
      → Reaches meta server client approved apply_client
  merges :
      meta.merge ≡ field_merge
      → Reaches meta server client approved (merge_fields (merge_fieldwise server client meta))
  keeps :
      (meta.merge ≡ server_wins)
        ⊎ ((approved && is_nonempty meta.protected_fields) ≡ true) × (meta.merge ≢ field_merge)
      → Reaches meta server client approved keep_server
  refuses :
      meta.merge ≡ reject
      → (approved && is_nonempty meta.protected_fields) ≡ false
      → Reaches meta server client approved refuse

by_strategy-Reaches :
    (meta : SyncEntityMeta) (server client : Object) (approved : Bool) (m : MergeStrategy)
    (b : Bool)
    → meta.merge ≡ m
    → (approved && is_nonempty meta.protected_fields) ≡ b
    → Reaches meta server client approved
        (if b then when_approved m server client meta else by_strategy m server client meta)
by_strategy-Reaches meta server client approved server_wins true e h = keeps (inl e)
by_strategy-Reaches meta server client approved server_wins false e h = keeps (inl e)
by_strategy-Reaches meta server client approved field_merge true e h = merges e
by_strategy-Reaches meta server client approved field_merge false e h = merges e
by_strategy-Reaches meta server client approved append_only true e h = keeps (inr (h, λ f. cc))
by_strategy-Reaches meta server client approved append_only false e h = applies e h
by_strategy-Reaches meta server client approved reject true e h = keeps (inr (h, λ f. cc))
by_strategy-Reaches meta server client approved reject false e h = refuses e h

merge_of_Reaches :
    (meta : SyncEntityMeta) (server client : Object) (approved : Bool) (r : Resolution)
    (d : MergeDecision)
    → Reaches meta server client approved r
    → r ≡ merge_fields d
    → merge_fieldwise server client meta ≡ d
merge_of_Reaches meta server client approved r d (applies e h) k = cc
merge_of_Reaches meta server client approved r d (merges e) k = cc
merge_of_Reaches meta server client approved r d (keeps h) k = cc
merge_of_Reaches meta server client approved r d (refuses e h) k = cc

-- Every known entity is resolved by its policy: the device's change is applied only to an
-- append-only record that is not approved with protected fields, fields are merged exactly under
-- `field_merge`, and a sensitive record is refused.
resolve_conflict-Reaches :
    (entity : String) (meta : SyncEntityMeta) (server client : Object) (approved : Bool)
    → sync_meta entity ≡ some meta
    → Reaches meta server client approved (resolve_conflict entity server client approved)
unfolding resolve_conflict
resolve_conflict-Reaches entity meta server client approved known =
    rw known (by_strategy-Reaches meta server client approved meta.merge _ refl refl)

-- Where the conflict of a known entity is resolved by a merge, and the keys of the device's record
-- differ from one another, each protected field is as on the server.
merge_keeps_protected :
    (entity : String) (meta : SyncEntityMeta) (server client : Object) (approved : Bool)
    (d : MergeDecision) (key : String)
    → sync_meta entity ≡ some meta
    → resolve_conflict entity server client approved ≡ merge_fields d
    → UniqueKeys client
    → includes meta.protected_fields key ≡ true
    → get key d.merged ≡ get key server
merge_keeps_protected entity meta server client approved d key known r u p =
    let same =
      merge_of_Reaches meta server client approved _ d
        (resolve_conflict-Reaches entity meta server client approved known) r in
    rw (← same) (
      get-merge_fieldwise meta server client key u ∙ protected-merged meta key _ (get key client) p)
