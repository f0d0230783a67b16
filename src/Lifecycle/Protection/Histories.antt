-- ===== src/Lifecycle/Protection/Histories.antt =====
-- A reader lease through any history of requests.
use git_hub_action_cache_ser.Prelude.{ℕ, ◌<◌, ◌≡◌, ◌≢◌, false, List, All}
use git_hub_action_cache_ser.Db.{Db, StorageReaderLease}
use git_hub_action_cache_ser.Lifecycle.Fence.{Settings}
use git_hub_action_cache_ser.Lifecycle.Reader.{listed}
use git_hub_action_cache_ser.Lifecycle.Requests.{Request, serve_all}
use git_hub_action_cache_ser.Lifecycle.Tx.Keeps.{bind-Keeps, gets-Keeps}
use git_hub_action_cache_ser.Lifecycle.Requests.Laws.{Laws, serve_all-Keeps}
use git_hub_action_cache_ser.Lifecycle.Protection.{Protected}
use git_hub_action_cache_ser.Lifecycle.Protection.Statements.{
  delete_entries-Protected, insert_lease-Protected,
}
use git_hub_action_cache_ser.Lifecycle.Protection.Claims.{
  fence_unreferenced-Protected, claim_found-Protected,
}
use git_hub_action_cache_ser.Lifecycle.Protection.Leases.{
  bump-Protected, acquire_found-Protected, renew_materialization-Protected,
  finish_materialization-Protected, mark_materialization_unsupported-Protected,
  release_materialization-Protected, renew_reader-Protected, extend_direct_reader-Protected,
  release_reader-Protected, release_readers-Protected, purge_expired_reader_leases-Protected,
}

-- The request neither renews nor releases the lease itself.
abbrev pub Spares : StorageReaderLease → Request → Type 0
Spares r (Request.renew_reader id) = id ≢ r.id
Spares r (Request.extend_direct_reader id) = id ≢ r.id
Spares r (Request.release_reader id) = id ≢ r.id
Spares r (Request.release_readers ids) = listed ids r.id ≡ false
Spares r _ = Unit

Protected-Laws :
    (r : StorageReaderLease) (s : Settings) (now : ℕ)
    → now < r.expires_at
    → Laws (Protected r) (Spares r) s now
Protected-Laws r s now alive = record {
  bump = bump-Protected r;
  entries = delete_entries-Protected r;
  fence = fence_unreferenced-Protected r s now alive;
  claim = claim_found-Protected r s now alive;
  insert = insert_lease-Protected r;
  merge = λ token k. bind-Keeps (gets-Keeps _) (acquire_found-Protected r s now token);
  expire = purge_expired_reader_leases-Protected r now alive;
  renew = renew_reader-Protected r s now;
  extend = extend_direct_reader-Protected r s now;
  release = release_reader-Protected r;
  release_all = release_readers-Protected r;
  renew_merge = λ token k u. renew_materialization-Protected r s now token k;
  finish_merge = λ token k u. finish_materialization-Protected r now token k;
  mark_merge = λ token k u. mark_materialization_unsupported-Protected r now token k;
  release_merge = λ token k u. release_materialization-Protected r token k;
}

-- A reader lease that protects its location at the start stays in its table, its location keeps its
-- row and, for a lease of the parts, the parts stay unclaimed, through every history of requests to
-- the lifecycle service that run before the lease expires and do not renew or release the lease
-- itself.
pub serve_all-Protected :
    (r : StorageReaderLease) (s : Settings) (qs : List (ℕ × Request)) (db : Db)
    → All (λ (tq : ℕ × Request). (tq.0 < r.expires_at) × Spares r tq.1) qs
    → Protected r db
    → Protected r (serve_all s qs db)
serve_all-Protected r s qs db = serve_all-Keeps s (λ t. t < r.expires_at) (Protected-Laws r s) qs db
