-- ===== src/Lifecycle/Fence/Outcome.antt =====
-- What the fence of a location returns and what it leaves, on every branch.
use git_hub_action_cache_ser.Prelude.{
  ℕ, ◌+◌, ◌≡◌, refl, Bool, true, false, ◌||◌, Option, none, some, List, [], ◌∷◌, ◌++◌,
  if◌then◌else◌, ◌==◌, ltb, any, delete_where, any-delete_where, arith, Bool-cases, Option-cases,
  inl, inr,
}
use git_hub_action_cache_ser.Db.{
  Db, Bytes, StorageLocation, StorageReaderLease, StorageDeletion, find_location, has_entries,
  affects, always, add_lease_version, enqueue, update_location, delete_location,
}
use git_hub_action_cache_ser.Db.Locations.{
  find_location-update, find_location-id, find_location-delete_self,
}
use git_hub_action_cache_ser.Lifecycle.Tx.{
  Result, ok, ◌>>=◌, pure, gets, update, delete_leases, enqueue_task, delete_location_row,
}
use git_hub_action_cache_ser.Lifecycle.Fence.{
  Settings, DeletionResult, untouched, active_materialization, is_expired, is_active, requested_at,
  finalize, fence_marked, fence_found, fence_unreferenced, fence_detached_location,
}

-- What still holds a fenced location.
abbrev pub is_busy : Settings → ℕ → StorageLocation → List StorageReaderLease → Bool
is_busy s now l leases =
    any (is_active l.id now) leases
    || active_materialization l now
    || ltb now (requested_at now l + s.deletion_grace_period)

abbrev task_of : ℕ → Bytes → Db → StorageDeletion
task_of now folder_name db = record {
  id = db.next_deletion;
  folder_name = folder_name;
  created_at = now;
  attempt_count = 0;
  last_attempted_at = none;
}

abbrev finalized_result : StorageDeletion → DeletionResult
finalized_result task = record { task = some task; fenced = true; finalized = true }

any_active-delete_expired :
    (k now : ℕ) (ls : List StorageReaderLease)
    → any (is_active k now) (delete_where (is_expired k now) ls) ≡ any (is_active k now) ls
unfolding is_active is_expired
any_active-delete_expired k now ls = any-delete_where _ _ ls (λ r h. ground arith)

-- Once the expired leases are gone, a location without active ones has none at all.
none_left :
    (k now : ℕ) (ls : List StorageReaderLease)
    → any (is_active k now) ls ≡ false
    → any (λ r. r.storage_location_id == k) (delete_where (is_expired k now) ls) ≡ false
unfolding any delete_where is_active is_expired
none_left k now [] h = refl
none_left k now (r ∷ ls) h = ground (arith, none_left k now ls)

module _ (s : Settings) (now : ℕ) (l : StorageLocation) (db : Db) where
  fence_found-result :
      (fence_found s now l db).0
      ≡ ok (
          if is_busy s now l db.leases
          then record untouched { fenced = true }
          else finalized_result (task_of now l.folder_name db))
  unfolding fence_found fence_marked ◌>>=◌ pure gets update delete_leases finalize enqueue_task
      delete_location_row delete_location enqueue update_location
  fence_found-result =
      ground (arith, none_left l.id now db.leases, any_active-delete_expired l.id now db.leases)

  -- A location that is still held keeps its row, with the time of the first request.
  fence_found-held :
      is_busy s now l db.leases ≡ true
      → find_location l.id db.locations ≡ some l
      → (find_location l.id (fence_found s now l db).1.locations
          ≡ some (record l { deletion_requested_at = some (requested_at now l) }))
        × ((fence_found s now l db).1.deletions ≡ db.deletions)
  unfolding fence_found fence_marked ◌>>=◌ pure gets update delete_leases update_location
  fence_found-held busy found = ground (
    arith,
    find_location-update l.id l.id always (λ x. record x { deletion_requested_at = some now })
        (λ x. refl) db,
    any_active-delete_expired l.id now db.leases,
  )

  -- A location that nothing holds is gone, and the outbox has its folder.
  fence_found-gone :
      is_busy s now l db.leases ≡ false
      → (find_location l.id (fence_found s now l db).1.locations ≡ none)
        × ((fence_found s now l db).1.deletions ≡ db.deletions ++ task_of now l.folder_name db ∷ [])
  unfolding fence_found fence_marked ◌>>=◌ pure gets update delete_leases finalize enqueue_task
      delete_location_row delete_location enqueue update_location
  fence_found-gone idle = ground (
    arith,
    none_left l.id now db.leases,
    any_active-delete_expired l.id now db.leases,
    find_location-delete_self l.id db.locations,
    find_location-delete_self l.id
        (update_location l.id always (λ x. record x { deletion_requested_at = some now })
          db).locations,
  )

-- The result by the tables before the call, in terms of the rows only.
abbrev pub fence_outcome : Settings → ℕ → ℕ → Db → Option StorageLocation → Result DeletionResult
fence_outcome s now k db none = ok untouched
fence_outcome s now k db (some l) =
    if has_entries k db.entries
    then ok untouched
    else ok (
        if is_busy s now l db.leases
        then record untouched { fenced = true }
        else finalized_result (task_of now l.folder_name db))

module _ (s : Settings) (now k : ℕ) where
  fence_unreferenced-outcome :
      (db : Db) (o : Option StorageLocation)
      → find_location k db.locations ≡ o
      → (fence_unreferenced s now k db).0 ≡ fence_outcome s now k db o
  unfolding fence_unreferenced ◌>>=◌ pure gets
  fence_unreferenced-outcome db none e = ground arith
  fence_unreferenced-outcome db (some l) e = ground (arith, fence_found-result s now l db)

  pub fence_detached_location-outcome :
      (lock : Bool) (db : Db)
      → (fence_detached_location s now k lock db).0
        ≡ fence_outcome s now k db (find_location k db.locations)
  unfolding fence_detached_location ◌>>=◌ pure update affects update_location active_materialization
  fence_detached_location-outcome false db = fence_unreferenced-outcome db _ refl
  fence_detached_location-outcome true db = elim (Option-cases (find_location k db.locations)) [
    | inl e ↦ ground arith
    | inr (l, e) ↦ ground (
      arith,
      find_location-id k db.locations {l = l} e,
      find_location-update k k always add_lease_version (λ x. refl) db,
      fence_unreferenced-outcome (update_location k always add_lease_version db)
          (some (add_lease_version l)),
    )
  ]

  fence_found-tables :
      (l : StorageLocation) (db : Db)
      → find_location l.id db.locations ≡ some l
      → (find_location l.id (fence_found s now l db).1.locations ≡ (
          if is_busy s now l db.leases
          then some (record l { deletion_requested_at = some (requested_at now l) })
          else none))
        × ((fence_found s now l db).1.deletions ≡ (
            if is_busy s now l db.leases
            then db.deletions
            else db.deletions ++ task_of now l.folder_name db ∷ []))
  fence_found-tables l db found = elim (Bool-cases (is_busy s now l db.leases)) [
    | inl h ↦ rw h (fence_found-held s now l db h found)
    | inr h ↦ rw h (fence_found-gone s now l db h)
  ]

  -- For a location that is there and that no cache entry references, the fence either leaves the
  -- row, marked with the time of the first request, and the outbox as it was, or removes the row and
  -- adds exactly the task for its folder; the two never come apart.
  pub fence_detached_location-tables :
      (lock : Bool) (db : Db) (l : StorageLocation)
      → find_location k db.locations ≡ some l
      → has_entries k db.entries ≡ false
      → (find_location k (fence_detached_location s now k lock db).1.locations ≡ (
          if is_busy s now l db.leases
          then some (record l {
            lease_version = l.lease_version + (if lock then 1 else 0);
            deletion_requested_at = some (requested_at now l);
          })
          else none))
        × ((fence_detached_location s now k lock db).1.deletions ≡ (
            if is_busy s now l db.leases
            then db.deletions
            else db.deletions ++ task_of now l.folder_name db ∷ []))
  unfolding fence_detached_location fence_unreferenced ◌>>=◌ pure gets update affects
      update_location active_materialization
  fence_detached_location-tables false db l e h =
      ground (arith, find_location-id k db.locations {l = l} e, fence_found-tables l db)
  fence_detached_location-tables true db l e h = ground (
    arith,
    find_location-id k db.locations {l = l} e,
    find_location-update k k always add_lease_version (λ x. refl) db,
    fence_found-tables (add_lease_version l) (update_location k always add_lease_version db),
  )
