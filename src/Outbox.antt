-- ===== src/Outbox.antt =====
-- The deletion outbox: `Process` of internal/storageoutbox/outbox.go, and when a task that failed is
-- tried again, internal/cleanup/service.go; the delays of internal/storagereconcile/reconcile.go
-- grow in the same way. Durations are milliseconds. The error text of a task is not kept here.
pub mod Retry
use git_hub_action_cache_ser.Prelude.{
  ℕ, zero, suc, ◌+◌, ◌-◌, ◌*◌, ◌/◌, Bool, true, false, not, Option, none, some, List, if◌then◌else◌,
  ltb, leb, ◌==◌, min, update_where, delete_where,
}
use git_hub_action_cache_ser.Db.{Bytes, Db, StorageDeletion}

abbrev pub record_failure : ℕ → StorageDeletion → StorageDeletion
record_failure now task = record task {
  attempt_count = task.attempt_count + 1;
  last_attempted_at = some now;
}

-- `Process`, with whether it succeeds; `delete_folder` is the storage adapter's. A task that is gone
-- meanwhile is no error.
unfoldable pub process : (delete_folder : Bytes → Bool) → ℕ → StorageDeletion → Db → Bool × Db
process delete_folder now task db =
    if delete_folder task.folder_name
    then (true, record db { deletions = delete_where (λ t. t.id == task.id) db.deletions })
    else (
      false,
      record db {
        deletions = update_where (λ t. t.id == task.id) (record_failure now) db.deletions;
      },
    )

abbrev pub storage_deletion_retry_base : ℕ
storage_deletion_retry_base = 300000

abbrev pub storage_deletion_retry_max : ℕ
storage_deletion_retry_max = 86400000

-- The loop of `storageDeletionRetryDelay`, with its remaining rounds.
unfoldable pub deletion_delay : ℕ → ℕ → ℕ
deletion_delay zero delay = delay
deletion_delay (suc rounds) delay =
    let rest = deletion_delay rounds (delay * 2) in
    if leb (storage_deletion_retry_max / 2) delay then storage_deletion_retry_max else rest

-- `storageDeletionRetryDelay`
unfoldable pub storage_deletion_retry_delay : ℕ → ℕ
storage_deletion_retry_delay attempt_count =
    deletion_delay (attempt_count - 1) storage_deletion_retry_base

-- `storageDeletionReady`
unfoldable pub storage_deletion_ready : StorageDeletion → ℕ → Bool
storage_deletion_ready task now = elim task.last_attempted_at [
  | none ↦ true
  | some last ↦ not (ltb now (last + storage_deletion_retry_delay task.attempt_count))
]

abbrev pub initial_retry_delay : ℕ
initial_retry_delay = 60000

abbrev pub maximum_retry_delay : ℕ
maximum_retry_delay = 3600000

-- The loop of `reconciliationRetryDelay`, with its remaining rounds.
unfoldable pub reconciliation_delay : ℕ → ℕ → ℕ
reconciliation_delay zero delay = min delay maximum_retry_delay
reconciliation_delay (suc rounds) delay =
    let rest = reconciliation_delay rounds (delay * 2) in
    if not (ltb delay maximum_retry_delay)
    then min delay maximum_retry_delay
    else if leb (maximum_retry_delay / 2) delay
    then maximum_retry_delay
    else rest

-- `reconciliationRetryDelay`
unfoldable pub reconciliation_retry_delay : ℕ → ℕ
reconciliation_retry_delay attempt = reconciliation_delay (attempt - 1) initial_retry_delay
