-- ===== src/Lifecycle/Protection/Statements.antt =====
-- A reader lease and the single statements of the transactions.
use git_hub_action_cache_ser.Prelude.{
  ℕ, ◌≡◌, Bool, true, false, Option, none, some, List, [], ◌∷◌, ◌==◌, any, any-append,
  any-delete_where, arith, ◌∙◌,
}
use git_hub_action_cache_ser.Db.{
  Db, Bytes, CacheEntry, StorageLocation, StorageReaderLease, find_location, enqueue,
  delete_location, update_location,
}
use git_hub_action_cache_ser.Db.Locations.{
  change_found, find_location-update, find_location-delete_ne,
}
use git_hub_action_cache_ser.Lifecycle.Tx.{
  update, delete_entries, delete_leases, enqueue_task, delete_location_row,
}
use git_hub_action_cache_ser.Lifecycle.Tx.Keeps.{Keeps}
use git_hub_action_cache_ser.Lifecycle.Reader.{insert_lease}
use git_hub_action_cache_ser.Lifecycle.Protection.{is_lease, readable, Protected}

change_found-readable :
    (r : StorageReaderLease) (k : ℕ) (c : StorageLocation → Bool)
    (f : StorageLocation → StorageLocation)
    → ((l : StorageLocation) → (f l).parts_deleted_at ≡ l.parts_deleted_at)
    → (o : Option StorageLocation) → readable r o ≡ true
    → readable r (change_found k c f o) ≡ true
change_found-readable r k c f same_parts none h = h
change_found-readable r k c f same_parts (some l) h = ground (arith, same_parts l)

module _ (r : StorageReaderLease) where
  -- An update that leaves the ids and the parts' column alone.
  pub update-Protected :
      (k : ℕ) (c : StorageLocation → Bool) (f : StorageLocation → StorageLocation)
      → ((l : StorageLocation) → (f l).id ≡ l.id)
      → ((l : StorageLocation) → (f l).parts_deleted_at ≡ l.parts_deleted_at)
      → Keeps (Protected r) (update k c f)
  unfolding update update_location
  update-Protected k c f same_id same_parts = record {
    apply = λ db p. (
      p.0,
      rw (find_location-update r.storage_location_id k c f same_id db) (
          change_found-readable r k c f same_parts
            (find_location r.storage_location_id db.locations) p.1),
    );
  }

  pub delete_entries-Protected : (q : CacheEntry → Bool) → Keeps (Protected r) (delete_entries q)
  unfolding delete_entries
  delete_entries-Protected q = record { apply = λ db p. p }

  -- A deletion of leases that does not meet this one.
  pub delete_leases-Protected :
      (q : StorageReaderLease → Bool)
      → ((x : StorageReaderLease) → is_lease r x ≡ true → q x ≡ false)
      → Keeps (Protected r) (delete_leases q)
  unfolding delete_leases
  delete_leases-Protected q h = record {
    apply = λ db p. (any-delete_where (is_lease r) q db.leases h ∙ p.0, p.1);
  }

  pub enqueue_task-Protected :
      (now : ℕ) (folder : Bytes) → Keeps (Protected r) (enqueue_task now folder)
  unfolding enqueue_task enqueue
  enqueue_task-Protected now folder = record { apply = λ db p. p }

  insert_lease-keeps :
      (q : StorageReaderLease) (db : Db) → Protected r db → Protected r (insert_lease q db).1
  unfolding insert_lease
  insert_lease-keeps q db p = ground (arith, any-append (is_lease r) db.leases (q ∷ []))

  pub insert_lease-Protected : (q : StorageReaderLease) → Keeps (Protected r) (insert_lease q)
  insert_lease-Protected q = record { apply = insert_lease-keeps q }

  any-is_lease-restricts :
      (ls : List StorageReaderLease)
      → any (is_lease r) ls ≡ true
      → any (λ q. q.storage_location_id == r.storage_location_id) ls ≡ true
  unfolding any
  any-is_lease-restricts [] h = h
  any-is_lease-restricts (q ∷ ls) h = ground (arith, any-is_lease-restricts ls)

  delete_location_row-keeps :
      (k : ℕ) (db : Db) → Protected r db → Protected r (delete_location_row k db).1
  unfolding delete_location_row delete_location
  delete_location_row-keeps k db p = ground (
    arith,
    any-is_lease-restricts db.leases p.0,
    find_location-delete_ne r.storage_location_id k db.locations,
  )

  -- The foreign key of the lease refuses the deletion of its location.
  pub delete_location_row-Protected : (k : ℕ) → Keeps (Protected r) (delete_location_row k)
  delete_location_row-Protected k = record { apply = delete_location_row-keeps k }
