-- ===== src/Lifecycle/Materialization.antt =====
-- The materialization lease of a location: one merge at a time, held by a token until it expires.
use git_hub_action_cache_ser.Prelude.{
  ℕ, ◌+◌, Bool, ◌&&◌, ◌||◌, Option, none, some, if◌then◌else◌, ◌==◌, ltb, is_none, is_some, holds,
}
use git_hub_action_cache_ser.Db.{StorageLocation, find_location, always, add_lease_version}
use git_hub_action_cache_ser.Lifecycle.Tx.{
  Action, ◌>>=◌, ◌>>◌, pure, raise, gets, update, transaction, materialization_lease_held,
  materialization_lease_lost,
}
use git_hub_action_cache_ser.Lifecycle.Fence.{Settings, active_materialization, later_than}

pub record MaterializationLease : Type 0 where
  pub location : StorageLocation
  pub token : ℕ
  pub renew_after : ℕ

abbrev pub cannot_merge : ℕ → StorageLocation → Bool
cannot_merge now l =
    ltb l.part_count 2
    || is_some l.merged_at
    || is_some l.materialization_unsupported_at
    || is_some l.parts_deleted_at
    || active_materialization l now

abbrev pub start_merge : Settings → ℕ → ℕ → StorageLocation → StorageLocation
start_merge s now token l = record l {
  merge_started_at = some now;
  merge_lease_token = some token;
  merge_lease_expires_at = some (now + s.materialization_lease_duration);
}

unfoldable pub acquire_found :
    Settings → ℕ → ℕ → Option StorageLocation → Action MaterializationLease
acquire_found s now token none = raise materialization_lease_held
acquire_found s now token (some l) =
    if cannot_merge now l then raise materialization_lease_held else (do
      update l.id always (start_merge s now token)
      pure (record {
        location = start_merge s now token l;
        token = token;
        renew_after = s.lease_renewal_interval;
      }))

unfoldable pub acquire_materialization : Settings → ℕ → ℕ → ℕ → Action MaterializationLease
acquire_materialization s now token k = transaction (do
  locked ← update k (λ l. is_none l.deletion_requested_at) add_lease_version
  if locked
      then gets (λ db. find_location k db.locations) >>= acquire_found s now token
      else raise materialization_lease_held)

-- The columns that the holder's updates check.
abbrev pub has_token : ℕ → StorageLocation → Bool
has_token token l = holds l.merge_lease_token (λ t. t == token) && is_none l.merged_at

abbrev pub is_holder : ℕ → ℕ → StorageLocation → Bool
is_holder now token l = has_token token l && later_than l.merge_lease_expires_at now

unfoldable pub as_holder : ℕ → ℕ → ℕ → (StorageLocation → StorageLocation) → Action (Unit {0})
as_holder now token k f = do
  held ← update k (is_holder now token) f
  if held then pure tt else raise materialization_lease_lost

unfoldable pub renew_materialization : Settings → ℕ → ℕ → ℕ → Action (Unit {0})
renew_materialization s now token k =
    as_holder now token k
      (λ l. record l { merge_lease_expires_at = some (now + s.materialization_lease_duration) })

unfoldable pub finish_materialization : ℕ → ℕ → ℕ → Action (Unit {0})
finish_materialization now token k = as_holder now token k (λ l. record l {
  merged_at = some now;
  merge_lease_token = none;
  merge_lease_expires_at = none;
})

unfoldable pub mark_materialization_unsupported : ℕ → ℕ → ℕ → Action (Unit {0})
mark_materialization_unsupported now token k = as_holder now token k (λ l. record l {
  materialization_unsupported_at = some now;
  merge_started_at = none;
  merge_lease_token = none;
  merge_lease_expires_at = none;
})

unfoldable pub release_materialization : ℕ → ℕ → Action (Unit {0})
release_materialization token k = do
  update k (has_token token) (λ l. record l {
    merge_started_at = none;
    merge_lease_token = none;
    merge_lease_expires_at = none;
  })
  pure tt
