-- ===== src/Lifecycle/Deletion.antt =====
-- Requests to delete a location: by an operator or the orphan pass, by capacity eviction, by
-- retention.
use git_hub_action_cache_ser.Prelude.{
  ℕ, Bool, true, false, not, ◌&&◌, ◌||◌, Option, none, some, if◌then◌else◌, ◌==◌, leb, is_none,
  is_some, same_optional, any,
}
use git_hub_action_cache_ser.Db.{Db, StorageLocation, find_location, has_entries, add_lease_version}
use git_hub_action_cache_ser.Lifecycle.Tx.{
  Action, ◌>>=◌, ◌>>◌, pure, raise, gets, update, delete_entries, transaction, location_unavailable,
}
use git_hub_action_cache_ser.Lifecycle.Fence.{
  Settings, is_active, fence_detached_location, untouched, DeletionResult,
}

unfoldable pub detach_cache_entries_and_fence : Settings → ℕ → ℕ → Bool → Action DeletionResult
detach_cache_entries_and_fence s now k lock = do
  delete_entries (λ e. e.location_id == k)
  fence_detached_location s now k lock

unfoldable pub request_location_deletion : Settings → ℕ → ℕ → Bool → Bool → Action DeletionResult
request_location_deletion s now k delete_cache_entries require_orphan = transaction (do
  referenced ← gets (λ db. require_orphan && has_entries k db.entries)
  if referenced
      then pure untouched
      else if delete_cache_entries
      then detach_cache_entries_and_fence s now k true
      else fence_detached_location s now k true)

pub record CapacityObservation : Type 0 where
  pub location_id : ℕ
  pub lease_version : ℕ
  pub last_downloaded_at : Option ℕ
  pub recency_at : ℕ

pub record CapacityEvictionResult : Type 0 where
  pub claimed : Bool
  pub pinned : Bool
  pub size_bytes : ℕ

abbrev pub stale : CapacityEvictionResult
stale = record { claimed = false; pinned = false; size_bytes = 0 }

-- The access observation is still current.
unfoldable pub is_current : CapacityObservation → StorageLocation → Bool
is_current o l =
    l.lease_version == o.lease_version
    && is_none l.deletion_requested_at
    && is_some l.size_bytes
    && l.recency_at == o.recency_at
    && same_optional l.last_downloaded_at o.last_downloaded_at

-- `*location.SizeBytes`, which the claim has found not to be null.
abbrev pub size_or_zero : Option ℕ → ℕ
size_or_zero none = 0
size_or_zero (some n) = n

unfoldable pub evict_claimed : Settings → ℕ → Option StorageLocation → Action CapacityEvictionResult
evict_claimed s now none = raise location_unavailable
evict_claimed s now (some l) = do
  has_active_reader ← gets (λ db. any (is_active l.id now) db.leases)
  if has_active_reader then pure (record stale { pinned = true }) else (do
    result ← detach_cache_entries_and_fence s now l.id false
    pure (record {
      claimed = result.fenced;
      pinned = false;
      size_bytes = size_or_zero l.size_bytes;
    }))

unfoldable pub request_capacity_eviction :
    Settings → ℕ → CapacityObservation → Action CapacityEvictionResult
request_capacity_eviction s now o = transaction (do
  claimed ← update o.location_id (is_current o) add_lease_version
  if claimed
      then gets (λ db. find_location o.location_id db.locations) >>= evict_claimed s now
      else pure stale)

abbrev downloaded_since : ℕ → StorageLocation → Bool
downloaded_since cutoff l = elim l.last_downloaded_at [ none ↦ false | some t ↦ leb cutoff t ]

-- Whether the rows keep the location: no entry at all, a recent one, or an active reader.
unfoldable pub is_retained : ℕ → ℕ → ℕ → Db → Bool
is_retained now cutoff k db =
    not (has_entries k db.entries)
    || any (λ e. e.location_id == k && leb cutoff e.updated_at) db.entries
    || any (is_active k now) db.leases

unfoldable pub expire_found : Settings → ℕ → ℕ → Option StorageLocation → Action DeletionResult
expire_found s now cutoff none = raise location_unavailable
expire_found s now cutoff (some l) = if downloaded_since cutoff l then pure untouched else (do
  retained ← gets (is_retained now cutoff l.id)
  if retained then pure untouched else detach_cache_entries_and_fence s now l.id false)

unfoldable pub request_expired_location_deletion : Settings → ℕ → ℕ → ℕ → Action DeletionResult
request_expired_location_deletion s now k cutoff = transaction (do
  locked ← update k (λ l. is_none l.deletion_requested_at) add_lease_version
  if locked
      then gets (λ db. find_location k db.locations) >>= expire_found s now cutoff
      else pure untouched)
