-- ===== src/Lifecycle/Parts.antt =====
-- `ClaimPartsDeletion`: the parts of a merged location go once nobody reads them.
use git_hub_action_cache_ser.Prelude.{
  ℕ, Bool, ◌&&◌, Option, none, some, ◌++◌, if◌then◌else◌, is_none, is_some, any,
}
use git_hub_action_cache_ser.Db.{
  Bytes, codes, StorageLocation, StorageDeletion, find_location, is_parts, always,
  add_lease_version,
}
use git_hub_action_cache_ser.Lifecycle.Tx.{
  Action, ◌>>=◌, ◌>>◌, pure, raise, gets, update, delete_leases, enqueue_task, transaction,
  location_unavailable,
}
use git_hub_action_cache_ser.Lifecycle.Fence.{is_expired, is_active}

pub record PartsDeletionResult : Type 0 where
  pub task : Option StorageDeletion
  pub part_count : ℕ

abbrev pub deferred : PartsDeletionResult
deferred = record { task = none; part_count = 0 }

abbrev pub parts_folder : Bytes → Bytes
parts_folder folder_name = folder_name ++ codes "/parts"

abbrev pub has_merged_parts : StorageLocation → Bool
has_merged_parts l =
    is_none l.deletion_requested_at && is_some l.merged_at && is_none l.parts_deleted_at

-- The outbox task for the parts and the mark on the location, in one transaction.
unfoldable pub claim_parts : ℕ → StorageLocation → Action PartsDeletionResult
claim_parts now l = do
  task ← enqueue_task now (parts_folder l.folder_name)
  update l.id always (λ x. record x { parts_deleted_at = some now })
  pure (record { task = some task; part_count = l.part_count })

unfoldable pub claim_found : ℕ → Option StorageLocation → Action PartsDeletionResult
claim_found now none = raise location_unavailable
claim_found now (some l) = do
  delete_leases (λ r. is_parts r.scope && is_expired l.id now r)
  has_part_readers ← gets (λ db. any (λ r. is_parts r.scope && is_active l.id now r) db.leases)
  if has_part_readers then pure deferred else claim_parts now l

unfoldable pub claim_parts_deletion : ℕ → ℕ → Action PartsDeletionResult
claim_parts_deletion now k = transaction (do
  locked ← update k has_merged_parts add_lease_version
  if locked then gets (λ db. find_location k db.locations) >>= claim_found now else pure deferred)
