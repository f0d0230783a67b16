-- ===== src/Lifecycle/Purge.antt =====
-- The removal of a cache entry whose object is gone.
use git_hub_action_cache_ser.Prelude.{
  ℕ, Bool, true, false, ◌&&◌, if◌then◌else◌, ◌==◌, is_none, same_optional,
}
use git_hub_action_cache_ser.Db.{bytes_eq, CacheEntry, StorageLocation, add_lease_version}
use git_hub_action_cache_ser.Lifecycle.Tx.{
  Action, ◌>>=◌, ◌>>◌, pure, update, delete_entries, transaction,
}
use git_hub_action_cache_ser.Lifecycle.Fence.{
  Settings, active_materialization, fence_detached_location,
}

abbrev references : ℕ → ℕ → CacheEntry → Bool
references cache_entry_id location_id e = e.id == cache_entry_id && e.location_id == location_id

-- The entry's row, and the fence if there was one.
unfoldable pub detach_entry : Settings → ℕ → ℕ → ℕ → Bool → Action Bool
detach_entry s now cache_entry_id location_id lock = do
  deleted ← delete_entries (references cache_entry_id location_id)
  if deleted then (do fence_detached_location s now location_id lock; pure true) else pure false

unfoldable pub purge_dangling_cache_entry : Settings → ℕ → ℕ → ℕ → Action Bool
purge_dangling_cache_entry s now cache_entry_id location_id =
    transaction (detach_entry s now cache_entry_id location_id true)

-- The representation columns as they were observed.
unfoldable pub is_unchanged : StorageLocation → StorageLocation → Bool
is_unchanged observed l =
    bytes_eq l.folder_name observed.folder_name
    && l.part_count == observed.part_count
    && l.lease_version == observed.lease_version
    && is_none l.deletion_requested_at
    && same_optional l.merge_started_at observed.merge_started_at
    && same_optional l.merge_lease_token observed.merge_lease_token
    && same_optional l.merge_lease_expires_at observed.merge_lease_expires_at
    && same_optional l.merged_at observed.merged_at
    && same_optional l.materialization_unsupported_at observed.materialization_unsupported_at
    && same_optional l.parts_deleted_at observed.parts_deleted_at

unfoldable pub purge_dangling_cache_entry_if_unchanged :
    Settings → ℕ → ℕ → StorageLocation → Action Bool
purge_dangling_cache_entry_if_unchanged s now cache_entry_id observed =
    if active_materialization observed now
    then pure false
    else transaction (do
      claimed ← update observed.id (is_unchanged observed) add_lease_version
      if claimed then detach_entry s now cache_entry_id observed.id false else pure false)
