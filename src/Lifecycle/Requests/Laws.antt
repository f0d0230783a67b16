-- ===== src/Lifecycle/Requests/Laws.antt =====
-- What every request keeps, from what its statements keep: an invariant of the tables gives the laws
-- below once, and has every history of requests.
use git_hub_action_cache_ser.Prelude.{ℕ, Bool, Option, none, some, List, [], ◌∷◌, All}
use git_hub_action_cache_ser.Db.{
  Db, CacheEntry, StorageLocation, StorageReaderLease, find_location, add_lease_version,
}
use git_hub_action_cache_ser.Lifecycle.Tx.{
  Action, Result, ok, err, direct_representation, ◌>>=◌, gets, update, delete_entries,
}
use git_hub_action_cache_ser.Lifecycle.Tx.Keeps.{Keeps, keeps, pure-Keeps, raise-Keeps}
use git_hub_action_cache_ser.Lifecycle.Fence.{Settings, fence_unreferenced, fence_detached_location}
use git_hub_action_cache_ser.Lifecycle.Reader as Reader
use git_hub_action_cache_ser.Lifecycle.Reader.{
  Attempt, leased, retry, rollback_retry, Classified, insert_lease, create_lease, acquire_scope,
  acquire_location, acquire_entry, acquire_reader_once,
}
use git_hub_action_cache_ser.Lifecycle.Purge.{
  detach_entry, purge_dangling_cache_entry, purge_dangling_cache_entry_if_unchanged,
}
use git_hub_action_cache_ser.Lifecycle.Deletion.{
  detach_cache_entries_and_fence, request_location_deletion, CapacityObservation, evict_claimed,
  request_capacity_eviction, expire_found, request_expired_location_deletion,
}
use git_hub_action_cache_ser.Lifecycle.Parts.{claim_found, claim_parts_deletion}
use git_hub_action_cache_ser.Lifecycle.Materialization as Materialization
use git_hub_action_cache_ser.Lifecycle.Materialization.{acquire_found, acquire_materialization}
use git_hub_action_cache_ser.Lifecycle.Requests.{Request, serve, serve_all}

-- The laws of an invariant `P` at the time `now`, for the requests that `Allows` admits.
pub record Laws (P : Db → Type 0) (Allows : Request → Type 0) (s : Settings) (now : ℕ)
    : Type 0 where
  pub bump : (k : ℕ) (c : StorageLocation → Bool) → Keeps P (update k c add_lease_version)
  pub entries : (q : CacheEntry → Bool) → Keeps P (delete_entries q)
  pub fence : (k : ℕ) → Keeps P (fence_unreferenced s now k)
  pub claim : (o : Option StorageLocation) → Keeps P (claim_found now o)
  pub insert : (r : StorageReaderLease) → Keeps P (insert_lease r)
  pub merge :
      (token k : ℕ)
      → Keeps P (gets (λ db. find_location k db.locations) >>= acquire_found s now token)
  pub expire : Keeps P (Reader.purge_expired_reader_leases now)
  pub renew : (id : ℕ) → Allows (Request.renew_reader id) → Keeps P (Reader.renew_reader s now id)
  pub extend :
      (id : ℕ)
      → Allows (Request.extend_direct_reader id)
      → Keeps P (Reader.extend_direct_reader s now id)
  pub release : (id : ℕ) → Allows (Request.release_reader id) → Keeps P (Reader.release_reader id)
  pub release_all :
      (ids : List ℕ) → Allows (Request.release_readers ids) → Keeps P (Reader.release_readers ids)
  pub renew_merge :
      (token k : ℕ)
      → Allows (Request.renew_materialization token k)
      → Keeps P (Materialization.renew_materialization s now token k)
  pub finish_merge :
      (token k : ℕ)
      → Allows (Request.finish_materialization token k)
      → Keeps P (Materialization.finish_materialization now token k)
  pub mark_merge :
      (token k : ℕ)
      → Allows (Request.mark_materialization_unsupported token k)
      → Keeps P (Materialization.mark_materialization_unsupported now token k)
  pub release_merge :
      (token k : ℕ)
      → Allows (Request.release_materialization token k)
      → Keeps P (Materialization.release_materialization token k)

rollback_retry-Keeps :
    {P : Db → Type 0} {m : Action Attempt} → Keeps P m → Keeps P (rollback_retry m)
unfolding rollback_retry
rollback_retry-Keeps {P} {m} hm = record {
  apply = λ db p. go db p (m db).0 (m db).1 (hm.apply db p);
}
  where
    go :
        (db : Db)
        → P db
        → (r : Result Attempt) (db' : Db) → P db'
        → P (
            (let k : Result Attempt × Db = elim r [
              | ok a ↦ elim a [ leased x ↦ (ok (leased x), db') | retry ↦ (ok retry, db) ]
              | err e ↦ (err e, db)
            ] in
              k).1)
    go db p (ok (leased x)) db' p' = p'
    go db p (ok retry) db' p' = p
    go db p (err e) db' p' = p

module _ {P : Db → Type 0} {Allows : Request → Type 0} (s : Settings) (now : ℕ)
    (laws : Laws P Allows s now) where
  open laws use {bump, entries, fence, claim, insert, merge}

  fence_detached_location-Keeps :
      (k : ℕ) (lock : Bool) → Keeps P (fence_detached_location s now k lock)
  unfolding fence_detached_location
  fence_detached_location-Keeps k lock = search (keeps, bump, fence)

  detach_entry-Keeps : (entry k : ℕ) (lock : Bool) → Keeps P (detach_entry s now entry k lock)
  unfolding detach_entry
  detach_entry-Keeps entry k lock = search (keeps, entries, fence_detached_location-Keeps)

  purge_dangling_cache_entry-Keeps :
      (entry k : ℕ) → Keeps P (purge_dangling_cache_entry s now entry k)
  unfolding purge_dangling_cache_entry
  purge_dangling_cache_entry-Keeps entry k = search (keeps, detach_entry-Keeps)

  purge_dangling_cache_entry_if_unchanged-Keeps :
      (entry : ℕ) (observed : StorageLocation)
      → Keeps P (purge_dangling_cache_entry_if_unchanged s now entry observed)
  unfolding purge_dangling_cache_entry_if_unchanged
  purge_dangling_cache_entry_if_unchanged-Keeps entry observed =
      search (keeps, bump, detach_entry-Keeps) depth 7

  detach_cache_entries_and_fence-Keeps :
      (k : ℕ) (lock : Bool) → Keeps P (detach_cache_entries_and_fence s now k lock)
  unfolding detach_cache_entries_and_fence
  detach_cache_entries_and_fence-Keeps k lock =
      search (keeps, entries, fence_detached_location-Keeps)

  request_location_deletion-Keeps :
      (k : ℕ) (delete orphan : Bool) → Keeps P (request_location_deletion s now k delete orphan)
  unfolding request_location_deletion
  request_location_deletion-Keeps k delete orphan =
      search (keeps, fence_detached_location-Keeps, detach_cache_entries_and_fence-Keeps) depth 7

  evict_claimed-Keeps : (o : Option StorageLocation) → Keeps P (evict_claimed s now o)
  unfolding evict_claimed
  evict_claimed-Keeps none = raise-Keeps _
  evict_claimed-Keeps (some l) = search (keeps, detach_cache_entries_and_fence-Keeps) depth 7

  request_capacity_eviction-Keeps :
      (o : CapacityObservation) → Keeps P (request_capacity_eviction s now o)
  unfolding request_capacity_eviction
  request_capacity_eviction-Keeps o = search (keeps, bump, evict_claimed-Keeps) depth 7

  expire_found-Keeps :
      (cutoff : ℕ) (o : Option StorageLocation) → Keeps P (expire_found s now cutoff o)
  unfolding expire_found
  expire_found-Keeps cutoff none = raise-Keeps _
  expire_found-Keeps cutoff (some l) = search (keeps, detach_cache_entries_and_fence-Keeps) depth 7

  request_expired_location_deletion-Keeps :
      (k cutoff : ℕ) → Keeps P (request_expired_location_deletion s now k cutoff)
  unfolding request_expired_location_deletion
  request_expired_location_deletion-Keeps k cutoff =
      search (keeps, bump, expire_found-Keeps) depth 7

  claim_parts_deletion-Keeps : (k : ℕ) → Keeps P (claim_parts_deletion now k)
  unfolding claim_parts_deletion
  claim_parts_deletion-Keeps k = search (keeps, bump, claim) depth 7

  acquire_materialization-Keeps : (token k : ℕ) → Keeps P (acquire_materialization s now token k)
  unfolding acquire_materialization
  acquire_materialization-Keeps token k = search (keeps, bump, merge) depth 7

  module _ (uuid : ℕ) (direct : Bool) where
    create_lease-Keeps :
        (l : StorageLocation) (scope : _) → Keeps P (create_lease s now uuid direct l scope)
    unfolding create_lease
    create_lease-Keeps l scope = search (keeps, insert)

    acquire_scope-Keeps :
        (l : StorageLocation) (c : Classified) → Keeps P (acquire_scope s now uuid direct l c)
    unfolding acquire_scope
    acquire_scope-Keeps l (err direct_representation) = raise-Keeps _
    acquire_scope-Keeps l (err _) = search keeps
    acquire_scope-Keeps l (ok scope) = search (keeps, bump, create_lease-Keeps) depth 7

    acquire_location-Keeps :
        (o : Option StorageLocation) → Keeps P (acquire_location s now uuid direct o)
    acquire_location-Keeps none = pure-Keeps _
    acquire_location-Keeps (some l) = acquire_scope-Keeps l _

    acquire_entry-Keeps : (o : Option CacheEntry) → Keeps P (acquire_entry s now uuid direct o)
    acquire_entry-Keeps none = raise-Keeps _
    acquire_entry-Keeps (some e) = search (keeps, acquire_location-Keeps)

    acquire_reader_once-Keeps : (entry : ℕ) → Keeps P (acquire_reader_once s now uuid direct entry)
    unfolding acquire_reader_once
    acquire_reader_once-Keeps entry = search (keeps, rollback_retry-Keeps, acquire_entry-Keeps)

  pub serve-Keeps : (q : Request) (db : Db) → Allows q → P db → P (serve s now q db)
  unfolding serve
  serve-Keeps (Request.acquire_reader uuid direct e) db a p =
      (acquire_reader_once-Keeps uuid direct e).apply db p
  serve-Keeps (Request.renew_reader id) db a p = (laws.renew id a).apply db p
  serve-Keeps (Request.extend_direct_reader id) db a p = (laws.extend id a).apply db p
  serve-Keeps (Request.release_reader id) db a p = (laws.release id a).apply db p
  serve-Keeps (Request.release_readers ids) db a p = (laws.release_all ids a).apply db p
  serve-Keeps Request.purge_expired_reader_leases db a p = laws.expire.apply db p
  serve-Keeps (Request.purge_dangling_cache_entry e k) db a p =
      (purge_dangling_cache_entry-Keeps e k).apply db p
  serve-Keeps (Request.purge_dangling_cache_entry_if_unchanged e l) db a p =
      (purge_dangling_cache_entry_if_unchanged-Keeps e l).apply db p
  serve-Keeps (Request.request_location_deletion k d o) db a p =
      (request_location_deletion-Keeps k d o).apply db p
  serve-Keeps (Request.request_capacity_eviction o) db a p =
      (request_capacity_eviction-Keeps o).apply db p
  serve-Keeps (Request.request_expired_location_deletion k c) db a p =
      (request_expired_location_deletion-Keeps k c).apply db p
  serve-Keeps (Request.claim_parts_deletion k) db a p = (claim_parts_deletion-Keeps k).apply db p
  serve-Keeps (Request.acquire_materialization token k) db a p =
      (acquire_materialization-Keeps token k).apply db p
  serve-Keeps (Request.renew_materialization token k) db a p =
      (laws.renew_merge token k a).apply db p
  serve-Keeps (Request.finish_materialization token k) db a p =
      (laws.finish_merge token k a).apply db p
  serve-Keeps (Request.mark_materialization_unsupported token k) db a p =
      (laws.mark_merge token k a).apply db p
  serve-Keeps (Request.release_materialization token k) db a p =
      (laws.release_merge token k a).apply db p

-- Laws at every time that a history visits give the invariant after it.
pub serve_all-Keeps :
    {P : Db → Type 0} {Allows : Request → Type 0} (s : Settings) (Visits : ℕ → Type 0)
    → ((now : ℕ) → Visits now → Laws P Allows s now)
    → (qs : List (ℕ × Request)) (db : Db) → All (λ (tq : ℕ × Request). Visits tq.0 × Allows tq.1) qs
    → P db
    → P (serve_all s qs db)
unfolding serve_all
serve_all-Keeps s Visits laws [] db h p = p
serve_all-Keeps s Visits laws ((now, q) ∷ qs) db (h, hs) p =
    serve_all-Keeps s Visits laws qs (serve s now q db) hs
      (serve-Keeps s now (laws now h.0) q db h.1 p)
