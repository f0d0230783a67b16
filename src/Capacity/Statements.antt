-- ===== src/Capacity/Statements.antt =====
-- What an eviction of internal/storagecapacity keeps, from what its statements keep.
use git_hub_action_cache_ser.Prelude.{ℕ, Bool, false, is_none, Option, none, some}
use git_hub_action_cache_ser.Db.{Db, Bytes, CacheEntry, StorageLocation, add_lease_version, always}
use git_hub_action_cache_ser.Lifecycle.Tx.{
  update, delete_entries, delete_leases, enqueue_task, delete_location_row,
}
use git_hub_action_cache_ser.Lifecycle.Tx.Keeps.{
  Keeps, keeps, pure-Keeps, raise-Keeps, if-Keeps, bind-Keeps,
}
use git_hub_action_cache_ser.Lifecycle.Fence.{
  Settings, is_expired, request_deletion, finalize, fence_marked, fence_found, fence_query,
  fence_unreferenced, fence_detached_location,
}
use git_hub_action_cache_ser.Lifecycle.Deletion.{
  CapacityObservation, detach_cache_entries_and_fence, evict_claimed, request_capacity_eviction,
}

abbrev pub mark_deleted : ℕ → StorageLocation → StorageLocation
mark_deleted now l = record l { deletion_requested_at = some now }

-- The statements of an eviction at the time `now`.
pub record StatementLaws (P : Db → Type 0) (now : ℕ) : Type 0 where
  pub bump : (k : ℕ) (c : StorageLocation → Bool) → Keeps P (update k c add_lease_version)
  pub mark : (k : ℕ) → Keeps P (update k always (mark_deleted now))
  pub entries : (q : CacheEntry → Bool) → Keeps P (delete_entries q)
  pub leases : (k : ℕ) → Keeps P (delete_leases (is_expired k now))
  pub task : (folder : Bytes) → Keeps P (enqueue_task now folder)
  pub row : (k : ℕ) → Keeps P (delete_location_row k)

module _ {P : Db → Type 0} (s : Settings) (now : ℕ) (laws : StatementLaws P now) where
  open laws use {bump, mark, entries, leases, task, row}

  finalize-Keeps : (l : StorageLocation) → Keeps P (finalize now l)
  unfolding finalize
  finalize-Keeps l = search (keeps, task, row)

  request_deletion-Keeps : (l : StorageLocation) → Keeps P (request_deletion now l)
  request_deletion-Keeps l = if-Keeps (is_none l.deletion_requested_at) (mark l.id) (pure-Keeps _)

  fence_found-Keeps : (l : StorageLocation) → Keeps P (fence_found s now l)
  unfolding fence_found fence_marked
  fence_found-Keeps l =
      bind-Keeps (request_deletion-Keeps l)
        (λ u. bind-Keeps (leases l.id) (λ v. search (keeps, finalize-Keeps)))

  fence_query-Keeps : (o : Option StorageLocation) → Keeps P (fence_query s now o)
  fence_query-Keeps none = pure-Keeps _
  fence_query-Keeps (some l) = fence_found-Keeps l

  fence_unreferenced-Keeps : (k : ℕ) → Keeps P (fence_unreferenced s now k)
  unfolding fence_unreferenced
  fence_unreferenced-Keeps k = search (keeps, fence_query-Keeps)

  pub fence_unlocked-Keeps : (k : ℕ) → Keeps P (fence_detached_location s now k false)
  unfolding fence_detached_location
  fence_unlocked-Keeps k = search (keeps, fence_unreferenced-Keeps)

  detach-Keeps : (k : ℕ) → Keeps P (detach_cache_entries_and_fence s now k false)
  unfolding detach_cache_entries_and_fence
  detach-Keeps k = search (keeps, entries, fence_unlocked-Keeps)

  evict_claimed-Keeps : (o : Option StorageLocation) → Keeps P (evict_claimed s now o)
  unfolding evict_claimed
  evict_claimed-Keeps none = raise-Keeps _
  evict_claimed-Keeps (some l) = search (keeps, detach-Keeps) depth 7

  pub eviction-Keeps : (o : CapacityObservation) → Keeps P (request_capacity_eviction s now o)
  unfolding request_capacity_eviction
  eviction-Keeps o = search (keeps, bump, evict_claimed-Keeps) depth 7
