-- ===== src/Lifecycle/Protection/Claims.antt =====
-- A reader lease at the fence and at the claim on the parts.
use git_hub_action_cache_ser.Prelude.{
  ℕ, ◌<◌, ◌≡◌, refl, Bool, true, false, Option, none, some, List, [], ◌∷◌, if◌then◌else◌, any, ◌&&◌,
  is_none, arith,
}
use git_hub_action_cache_ser.Db.{
  Db, StorageLocation, StorageReaderLease, is_parts, always, find_location, update_location,
  enqueue,
}
use git_hub_action_cache_ser.Lifecycle.Tx.{Action, ◌>>=◌, pure, update, enqueue_task}
use git_hub_action_cache_ser.Lifecycle.Tx.Keeps.{
  Keeps, keeps, bind-Keeps, if-Keeps, pure-Keeps, raise-Keeps, gets_bind-Keeps,
}
use git_hub_action_cache_ser.Lifecycle.Fence.{
  Settings, is_expired, is_active, request_deletion, finalize, fence_marked, fence_found,
  fence_query, fence_unreferenced,
}
use git_hub_action_cache_ser.Db.Locations.{change_found, find_location-update, find_location-id}
use git_hub_action_cache_ser.Lifecycle.Parts.{parts_folder, deferred, claim_parts, claim_found}
use git_hub_action_cache_ser.Lifecycle.Protection.{is_lease, readable, Protected}
use git_hub_action_cache_ser.Lifecycle.Protection.Statements.{
  update-Protected, delete_leases-Protected, enqueue_task-Protected, delete_location_row-Protected,
}

module _ (r : StorageReaderLease) (s : Settings) (now : ℕ) (alive : now < r.expires_at) where
  abbrev Kept : {A : Type 0} → Action A → Type 0
  Kept m = Keeps (Protected r) m

  finalize-Protected : (l : StorageLocation) → Kept (finalize now l)
  unfolding finalize
  finalize-Protected l = search (keeps, enqueue_task-Protected r, delete_location_row-Protected r)

  is_expired_of_is_lease :
      (k : ℕ) (q : StorageReaderLease) → is_lease r q ≡ true → is_expired k now q ≡ false
  unfolding is_expired
  is_expired_of_is_lease k q h = ground arith

  request_deletion-Protected : (l : StorageLocation) → Kept (request_deletion now l)
  request_deletion-Protected l =
      if-Keeps (is_none l.deletion_requested_at)
        (update-Protected r l.id always _ (λ x. refl) (λ x. refl)) (pure-Keeps false)

  fence_found-Protected : (l : StorageLocation) → Kept (fence_found s now l)
  unfolding fence_found fence_marked
  fence_found-Protected l = bind-Keeps (request_deletion-Protected l) (λ u.
      bind-Keeps (delete_leases-Protected r _ (is_expired_of_is_lease l.id))
        (λ v. search (keeps, finalize-Protected)))

  fence_query-Protected : (o : Option StorageLocation) → Kept (fence_query s now o)
  fence_query-Protected none = pure-Keeps _
  fence_query-Protected (some l) = fence_found-Protected l

  pub fence_unreferenced-Protected : (k : ℕ) → Kept (fence_unreferenced s now k)
  unfolding fence_unreferenced
  fence_unreferenced-Protected k = search (keeps, fence_query-Protected)

  -- The claim on the parts: with a reader of the parts in the table it is deferred.
  any_part_reader :
      (k : ℕ) (ls : List StorageReaderLease)
      → any (is_lease r) ls ≡ true
      → is_parts r.scope ≡ true
      → r.storage_location_id ≡ k
      → any (λ q. is_parts q.scope && is_active k now q) ls ≡ true
  unfolding any is_active
  any_part_reader k [] h p e = h
  any_part_reader k (q ∷ ls) h p e = ground (arith, any_part_reader k ls)

  part_lease_alive :
      (k : ℕ) (q : StorageReaderLease)
      → is_lease r q ≡ true
      → (is_parts q.scope && is_expired k now q) ≡ false
  unfolding is_expired
  part_lease_alive k q h = ground arith

  -- Marking the parts of a location that no live parts lease reads.
  mark_parts-keeps :
      (l : StorageLocation) (db : Db)
      → any (λ q. is_parts q.scope && is_active l.id now q) db.leases ≡ false
      → Protected r db
      → Protected r (update l.id always (λ x. record x { parts_deleted_at = some now }) db).1
  unfolding update update_location
  mark_parts-keeps l db unread p = (
    p.0,
    rw
        (find_location-update r.storage_location_id l.id always
          (λ x. record x { parts_deleted_at = some now }) (λ x. refl) db)
        (kept (find_location r.storage_location_id db.locations) refl),
  )
    where
      kept :
          (o : Option StorageLocation)
          → find_location r.storage_location_id db.locations ≡ o
          → readable r (change_found l.id always (λ x. record x { parts_deleted_at = some now }) o)
            ≡ true
      kept none e = rw e at p.1
      kept (some x) e =
          let old : readable r (some x) ≡ true = rw e at p.1 in
          ground (
            arith,
            any_part_reader l.id db.leases p.0,
            find_location-id r.storage_location_id db.locations {l = x} e,
          )

  claim_unread-keeps :
      (l : StorageLocation) (has_readers : Bool) (db : Db)
      → any (λ q. is_parts q.scope && is_active l.id now q) db.leases ≡ has_readers
      → Protected r db
      → Protected r ((if has_readers then pure deferred else claim_parts now l) db).1
  unfolding claim_parts ◌>>=◌ enqueue_task enqueue pure update
  claim_unread-keeps l true db e p = p
  claim_unread-keeps l false db e p =
      mark_parts-keeps l (enqueue now (parts_folder l.folder_name) db) e p

  pub claim_found-Protected : (o : Option StorageLocation) → Kept (claim_found now o)
  unfolding claim_found
  claim_found-Protected none = raise-Keeps _
  claim_found-Protected (some l) =
      bind-Keeps (delete_leases-Protected r _ (part_lease_alive l.id))
        (λ u. gets_bind-Keeps _ _ (λ db p. claim_unread-keeps l _ db refl p))
