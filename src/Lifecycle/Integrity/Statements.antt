-- ===== src/Lifecycle/Integrity/Statements.antt =====
-- The foreign keys and the single statements of the transactions.
use git_hub_action_cache_ser.Prelude.{
  ℕ, ◌≡◌, refl, Bool, true, false, Option, none, some, List, [], ◌∷◌, if◌then◌else◌, ◌==◌, not,
  ◌&&◌, is_none, is_some, any, delete_where, any-delete_where_self, All, All-map, All-map_unless,
  All-append, All-delete_where, arith, inl, inr, Bool-cases,
}
use git_hub_action_cache_ser.Db.{
  Db, Bytes, CacheEntry, StorageLocation, StorageReaderLease, find_location, has_entries, affects,
  always, enqueue, delete_location, update_location, add_lease_version,
}
use git_hub_action_cache_ser.Db.Locations.{
  change_found, find_location-update, find_location-delete_ne, find_location-id,
}
use git_hub_action_cache_ser.Lifecycle.Tx.{
  ◌>>=◌, gets, pure, update, delete_entries, delete_leases, enqueue_task, delete_location_row,
}
use git_hub_action_cache_ser.Lifecycle.Tx.Keeps.{Keeps, keeps, bind-keeps_at, gets_bind-Keeps}
use git_hub_action_cache_ser.Lifecycle.Fence.{
  Settings, untouched, request_deletion, finalize, fence_marked, fence_found, fence_query,
  fence_unreferenced,
}
use git_hub_action_cache_ser.Lifecycle.Reader.{insert_lease}
use git_hub_action_cache_ser.Lifecycle.Integrity.{is_live, IsAttached, IsPlaced, IsConsistent}

module _ (k : ℕ) (c : StorageLocation → Bool) (f : StorageLocation → StorageLocation)
    (same_id : (l : StorageLocation) → (f l).id ≡ l.id) where
  update-IsPlaced :
      (db : Db) (r : StorageReaderLease)
      → IsPlaced db.locations r
      → IsPlaced (update_location k c f db).locations r
  update-IsPlaced db r h =
      rw (find_location-update r.storage_location_id k c f same_id db)
        (placed (find_location r.storage_location_id db.locations) h)
    where
      placed :
          (o : Option StorageLocation) → is_some o ≡ true → is_some (change_found k c f o) ≡ true
      placed none h = h
      placed (some l) h = refl

  -- An update that leaves the ids and the mark for deletion alone.
  pub update-IsConsistent :
      ((l : StorageLocation) → (f l).deletion_requested_at ≡ l.deletion_requested_at)
      → Keeps IsConsistent (update k c f)
  unfolding update update_location
  update-IsConsistent same_mark = record {
    apply = λ db h. (
      All-map _ _ db.entries
          (λ e a.
            rw (find_location-update e.location_id k c f same_id db)
              (live (find_location e.location_id db.locations) a))
          h.0,
      All-map _ _ db.leases (update-IsPlaced db) h.1,
    );
  }
    where
      live : (o : Option StorageLocation) → is_live o ≡ true → is_live (change_found k c f o) ≡ true
      live none h = h
      live (some l) h = ground (arith, same_mark l)

  -- An update that may mark the location, where no entry references it.
  pub update_unreferenced-IsConsistent :
      (db : Db)
      → has_entries k db.entries ≡ false
      → IsConsistent db
      → IsConsistent (update k c f db).1
  unfolding update update_location has_entries
  update_unreferenced-IsConsistent db free h = (
    All-map_unless _ _ (λ e. e.location_id == k) db.entries
        (λ e other a.
          rw (find_location-update e.location_id k c f same_id db)
            (other_row e other (find_location e.location_id db.locations) refl a))
        free h.0,
    All-map _ _ db.leases (update-IsPlaced db) h.1,
  )
    where
      other_row :
          (e : CacheEntry)
          → (e.location_id == k) ≡ false
          → (o : Option StorageLocation) → find_location e.location_id db.locations ≡ o
          → is_live o ≡ true
          → is_live (change_found k c f o) ≡ true
      other_row e other none found a = a
      other_row e other (some l) found a =
          ground (arith, find_location-id e.location_id db.locations {l = l} found)

pub bump-IsConsistent :
    (k : ℕ) (c : StorageLocation → Bool) → Keeps IsConsistent (update k c add_lease_version)
bump-IsConsistent k c = update-IsConsistent k c add_lease_version (λ l. refl) (λ l. refl)

pub delete_entries-IsConsistent : (q : CacheEntry → Bool) → Keeps IsConsistent (delete_entries q)
unfolding delete_entries
delete_entries-IsConsistent q = record {
  apply = λ db h. (All-delete_where _ q db.entries h.0, h.1);
}

pub delete_leases-IsConsistent :
    (q : StorageReaderLease → Bool) → Keeps IsConsistent (delete_leases q)
unfolding delete_leases
delete_leases-IsConsistent q = record { apply = λ db h. (h.0, All-delete_where _ q db.leases h.1) }

pub enqueue_task-IsConsistent :
    (now : ℕ) (folder : Bytes) → Keeps IsConsistent (enqueue_task now folder)
unfolding enqueue_task enqueue
enqueue_task-IsConsistent now folder = record { apply = λ db h. h }

placed_of_affects :
    (k : ℕ) (b : Bool) (ls : List StorageLocation)
    → (affects k always ls && b) ≡ true
    → is_some (find_location k ls) ≡ true
unfolding affects
placed_of_affects k b ls h = ground arith

pub insert_lease-IsConsistent : (r : StorageReaderLease) → Keeps IsConsistent (insert_lease r)
unfolding insert_lease
insert_lease-IsConsistent r = record {
  apply = λ db h.
      elim (Bool-cases (
        affects r.storage_location_id always db.locations
        && not (any (λ q. q.id == r.id) db.leases))) [
          | inl t ↦
              rw t (
                h.0,
                All-append _ db.leases (r ∷ []) h.1 (placed_of_affects _ _ db.locations t, tt),
              )
          | inr f ↦ rw f h
        ];
}

-- The cascade takes the entries of the location, the foreign key of the leases guards the rest.
delete_location-consistent :
    (k : ℕ) (db : Db)
    → any (λ r. r.storage_location_id == k) db.leases ≡ false
    → IsConsistent db
    → All
        (IsAttached (delete_where (λ l. l.id == k) db.locations))
        (delete_where (λ e. e.location_id == k) db.entries)
      × All (IsPlaced (delete_where (λ l. l.id == k) db.locations)) db.leases
delete_location-consistent k db free h = (
  All-map_unless _ _ (λ e. e.location_id == k) (delete_where (λ e. e.location_id == k) db.entries)
      (λ e other a. rw (find_location-delete_ne e.location_id k db.locations (ground arith)) a)
      (any-delete_where_self _ db.entries) (All-delete_where _ _ db.entries h.0),
  All-map_unless _ _ (λ r. r.storage_location_id == k) db.leases
      (λ r other a.
        rw (find_location-delete_ne r.storage_location_id k db.locations (ground arith)) a)
      free h.1,
)

pub delete_location_row-IsConsistent : (k : ℕ) → Keeps IsConsistent (delete_location_row k)
unfolding delete_location_row delete_location
delete_location_row-IsConsistent k = record {
  apply = λ db h. elim (Bool-cases (any (λ r. r.storage_location_id == k) db.leases)) [
    | inl t ↦ rw (t, delete_location_row, delete_location) h
    | inr f ↦ rw (f, delete_location_row, delete_location) (delete_location-consistent k db f h)
  ];
}

finalize-IsConsistent : (now : ℕ) (l : StorageLocation) → Keeps IsConsistent (finalize now l)
unfolding finalize
finalize-IsConsistent now l =
    search (keeps, enqueue_task-IsConsistent, delete_location_row-IsConsistent)

module _ (s : Settings) (now : ℕ) where
  request_deletion-IsConsistent :
      (l : StorageLocation) (db : Db)
      → has_entries l.id db.entries ≡ false
      → IsConsistent db
      → IsConsistent (request_deletion now l db).1
  unfolding pure
  request_deletion-IsConsistent l db free h = elim (Bool-cases (is_none l.deletion_requested_at)) [
    | inl t ↦ rw t (
        update_unreferenced-IsConsistent l.id always
          (λ x. record x { deletion_requested_at = some now }) (λ x. refl) db free h)
    | inr f ↦ rw f h
  ]

  fence_marked-IsConsistent : (l : StorageLocation) → Keeps IsConsistent (fence_marked s now l)
  unfolding fence_marked
  fence_marked-IsConsistent l =
      search (keeps, delete_leases-IsConsistent, finalize-IsConsistent) depth 7

  fence_query-IsConsistent :
      (k : ℕ) (db : Db) (o : Option StorageLocation)
      → find_location k db.locations ≡ o
      → has_entries k db.entries ≡ false
      → IsConsistent db
      → IsConsistent (fence_query s now o db).1
  unfolding fence_found pure
  fence_query-IsConsistent k db none found free h = h
  fence_query-IsConsistent k db (some l) found free h =
      bind-keeps_at _ _ db
        (request_deletion-IsConsistent l db (rw (find_location-id k db.locations found) free) h)
        (λ u. fence_marked-IsConsistent l)

  fence_referenced-IsConsistent :
      (k : ℕ) (referenced : Bool) (db : Db)
      → has_entries k db.entries ≡ referenced
      → IsConsistent db
      → IsConsistent
          ((if referenced
              then pure untouched
              else gets (λ d. find_location k d.locations) >>= fence_query s now)
            db).1
  unfolding pure gets ◌>>=◌
  fence_referenced-IsConsistent k true db e h = h
  fence_referenced-IsConsistent k false db e h = fence_query-IsConsistent k db _ refl e h

  -- The mark is set only where no entry references the location.
  pub fence_unreferenced-IsConsistent : (k : ℕ) → Keeps IsConsistent (fence_unreferenced s now k)
  unfolding fence_unreferenced
  fence_unreferenced-IsConsistent k =
      gets_bind-Keeps _ _ (λ db h. fence_referenced-IsConsistent k _ db refl h)
