-- ===== src/Lifecycle/Fence.antt =====
-- `fenceDetachedLocation`: a location that no cache entry references is marked for deletion, and
-- removed once no reader, no materialization and no grace period holds it.
pub mod Outcome
use git_hub_action_cache_ser.Prelude.{
  ℕ, ◌+◌, Bool, true, false, ◌&&◌, ◌||◌, Option, none, some, if◌then◌else◌, ◌==◌, ltb, leb, is_none,
  any,
}
use git_hub_action_cache_ser.Db.{
  StorageLocation, StorageReaderLease, StorageDeletion, find_location, has_entries, always,
  add_lease_version,
}
use git_hub_action_cache_ser.Lifecycle.Tx.{
  Action, ◌>>=◌, ◌>>◌, pure, gets, update, delete_leases, enqueue_task, delete_location_row,
}

-- The settings of `Service`, in milliseconds.
pub record Settings : Type 0 where
  pub reader_lease_duration : ℕ
  pub lease_renewal_interval : ℕ
  pub direct_download_lease_duration : ℕ
  pub deletion_grace_period : ℕ
  pub materialization_lease_duration : ℕ
  pub materialization_disabled : Bool

abbrev duration_or_default : ℕ → ℕ → ℕ
duration_or_default value fallback = if leb value 0 then fallback else value

-- `NewWithOptions`: an unset duration takes its default.
unfoldable pub new_with_options : Settings → Settings
new_with_options options = record {
  reader_lease_duration = duration_or_default options.reader_lease_duration 120000;
  lease_renewal_interval = duration_or_default options.lease_renewal_interval 30000;
  direct_download_lease_duration =
      duration_or_default options.direct_download_lease_duration 600000;
  deletion_grace_period = duration_or_default options.deletion_grace_period 600000;
  materialization_lease_duration =
      duration_or_default options.materialization_lease_duration 120000;
  materialization_disabled = options.materialization_disabled;
}

pub record DeletionResult : Type 0 where
  pub task : Option StorageDeletion
  pub fenced : Bool
  pub finalized : Bool

abbrev pub untouched : DeletionResult
untouched = record { task = none; fenced = false; finalized = false }

abbrev pub legacy_materialization_lifetime : ℕ
legacy_materialization_lifetime = 900000

abbrev pub later_than : Option ℕ → ℕ → Bool
later_than none t = false
later_than (some x) t = ltb t x

-- `activeMaterialization`; the comparison with `now - lifetime` is written as one of sums.
unfoldable pub active_materialization : StorageLocation → ℕ → Bool
active_materialization l now = elim l.merge_lease_token [
  | some token ↦ later_than l.merge_lease_expires_at now
  | none ↦
      is_none l.merged_at && is_none l.materialization_unsupported_at && elim l.merge_started_at [
        | none ↦ false
        | some started ↦ ltb now (started + legacy_materialization_lifetime)
      ]
]

unfoldable pub is_expired : ℕ → ℕ → StorageReaderLease → Bool
is_expired k now r = r.storage_location_id == k && leb r.expires_at now

unfoldable pub is_active : ℕ → ℕ → StorageReaderLease → Bool
is_active k now r = r.storage_location_id == k && ltb now r.expires_at

-- The time of the first request, which a later one does not move.
abbrev pub requested_at : ℕ → StorageLocation → ℕ
requested_at now l = elim l.deletion_requested_at [ none ↦ now | some t ↦ t ]

abbrev pub request_deletion : ℕ → StorageLocation → Action Bool
request_deletion now l =
    if is_none l.deletion_requested_at
    then update l.id always (λ x. record x { deletion_requested_at = some now })
    else pure false

-- The outbox task and the removal of the row, in one transaction.
unfoldable pub finalize : ℕ → StorageLocation → Action DeletionResult
finalize now l = do
  task ← enqueue_task now l.folder_name
  delete_location_row l.id
  pure (record { task = some task; fenced = true; finalized = true })

-- The location has its mark: what holds it still is asked now.
unfoldable pub fence_marked : Settings → ℕ → StorageLocation → Action DeletionResult
fence_marked s now l = do
  delete_leases (is_expired l.id now)
  has_readers ← gets (λ db. any (is_active l.id now) db.leases)
  if has_readers
        || active_materialization l now
        || ltb now (requested_at now l + s.deletion_grace_period)
      then pure (record untouched { fenced = true })
      else finalize now l

unfoldable pub fence_found : Settings → ℕ → StorageLocation → Action DeletionResult
fence_found s now l = do request_deletion now l; fence_marked s now l

abbrev pub fence_query : Settings → ℕ → Option StorageLocation → Action DeletionResult
fence_query s now none = pure untouched
fence_query s now (some l) = fence_found s now l

unfoldable pub fence_unreferenced : Settings → ℕ → ℕ → Action DeletionResult
fence_unreferenced s now k = do
  referenced ← gets (λ db. has_entries k db.entries)
  if referenced
      then pure untouched
      else gets (λ db. find_location k db.locations) >>= fence_query s now

-- `fenceDetachedLocation`; `FenceDetachedLocation` is this with `lock`.
unfoldable pub fence_detached_location : Settings → ℕ → ℕ → Bool → Action DeletionResult
fence_detached_location s now k lock = do
  found ← (if lock then update k always add_lease_version else pure true)
  if found then fence_unreferenced s now k else pure untouched
