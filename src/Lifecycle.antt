-- ===== src/Lifecycle.antt =====
-- internal/storagelifecycle/service.go: reader leases, the fencing and deletion of storage
-- locations, and materialization leases. Each method is one transaction of `Tx`, at the time `now`
-- that its call of `s.now()` returned; `uuid` is what `uuid.NewString()` returned.
pub mod Tx
pub mod Fence
pub mod Reader
pub mod Purge
pub mod Deletion
pub mod Parts
pub mod Materialization
pub mod Requests
pub mod Protection
pub mod Integrity
pub mod Exclusion
