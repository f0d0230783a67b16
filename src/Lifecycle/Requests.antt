-- ===== src/Lifecycle/Requests.antt =====
-- The methods of the lifecycle service as requests that arrive in some order: each transaction runs
-- at its own time against the tables that the ones before it left.
pub mod Laws
use git_hub_action_cache_ser.Prelude.{ℕ, Bool, List, [], ◌∷◌}
use git_hub_action_cache_ser.Db.{Db, StorageLocation}
use git_hub_action_cache_ser.Lifecycle.Fence.{Settings}
use git_hub_action_cache_ser.Lifecycle.Reader
use git_hub_action_cache_ser.Lifecycle.Purge
use git_hub_action_cache_ser.Lifecycle.Deletion
use git_hub_action_cache_ser.Lifecycle.Deletion.{CapacityObservation}
use git_hub_action_cache_ser.Lifecycle.Parts
use git_hub_action_cache_ser.Lifecycle.Materialization

pub data Request : Type 0 where
  acquire_reader : (uuid : ℕ) (direct : Bool) (cache_entry_id : ℕ) → Request
  renew_reader extend_direct_reader release_reader : (lease_id : ℕ) → Request
  release_readers : List ℕ → Request
  purge_expired_reader_leases : Request
  purge_dangling_cache_entry : (cache_entry_id location_id : ℕ) → Request
  purge_dangling_cache_entry_if_unchanged : (cache_entry_id : ℕ) → StorageLocation → Request
  request_location_deletion :
      (location_id : ℕ) (delete_cache_entries require_orphan : Bool) → Request
  request_capacity_eviction : CapacityObservation → Request
  request_expired_location_deletion : (location_id cutoff : ℕ) → Request
  claim_parts_deletion : (location_id : ℕ) → Request
  acquire_materialization renew_materialization finish_materialization : (token k : ℕ) → Request
  mark_materialization_unsupported release_materialization : (token k : ℕ) → Request

module _ (s : Settings) (now : ℕ) where
  -- The tables after one request at the time `now`.
  unfoldable pub serve : Request → Db → Db
  serve (acquire_reader uuid direct e) db = (Reader.acquire_reader_once s now uuid direct e db).1
  serve (renew_reader id) db = (Reader.renew_reader s now id db).1
  serve (extend_direct_reader id) db = (Reader.extend_direct_reader s now id db).1
  serve (release_reader id) db = (Reader.release_reader id db).1
  serve (release_readers ids) db = (Reader.release_readers ids db).1
  serve purge_expired_reader_leases db = (Reader.purge_expired_reader_leases now db).1
  serve (purge_dangling_cache_entry e k) db = (Purge.purge_dangling_cache_entry s now e k db).1
  serve (purge_dangling_cache_entry_if_unchanged e l) db =
      (Purge.purge_dangling_cache_entry_if_unchanged s now e l db).1
  serve (request_location_deletion k delete orphan) db =
      (Deletion.request_location_deletion s now k delete orphan db).1
  serve (request_capacity_eviction o) db = (Deletion.request_capacity_eviction s now o db).1
  serve (request_expired_location_deletion k cutoff) db =
      (Deletion.request_expired_location_deletion s now k cutoff db).1
  serve (claim_parts_deletion k) db = (Parts.claim_parts_deletion now k db).1
  serve (acquire_materialization token k) db =
      (Materialization.acquire_materialization s now token k db).1
  serve (renew_materialization token k) db =
      (Materialization.renew_materialization s now token k db).1
  serve (finish_materialization token k) db =
      (Materialization.finish_materialization now token k db).1
  serve (mark_materialization_unsupported token k) db =
      (Materialization.mark_materialization_unsupported now token k db).1
  serve (release_materialization token k) db =
      (Materialization.release_materialization token k db).1

unfoldable pub serve_all : Settings → List (ℕ × Request) → Db → Db
serve_all s [] db = db
serve_all s ((now, q) ∷ qs) db = serve_all s qs (serve s now q db)
