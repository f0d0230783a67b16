-- ===== src/Lifecycle/Exclusion/Statements.antt =====
-- A materialization lease and the single statements of the transactions.
use git_hub_action_cache_ser.Prelude.{
  ℕ, ◌<◌, ◌≡◌, ◌≢◌, refl, Bool, true, false, ◌||◌, ◌∙◌, ap, Option, none, some, if◌then◌else◌,
  arith,
}
use native.Mathlib.Decide.{ℕ_discrete}
use git_hub_action_cache_ser.Db.{
  Db, Bytes, CacheEntry, StorageLocation, StorageReaderLease, find_location, always, enqueue,
  delete_location, add_lease_version,
}
use git_hub_action_cache_ser.Db.Locations.{
  change_found, find_location-update, find_location-delete_ne, find_location-id,
}
use git_hub_action_cache_ser.Lifecycle.Tx.{
  Action, ◌>>=◌, gets, pure, raise, update, delete_entries, delete_leases, enqueue_task,
  delete_location_row,
}
use git_hub_action_cache_ser.Lifecycle.Tx.Keeps.{
  Keeps, keeps, pure-Keeps, raise-Keeps, bind-Keeps, gets_bind-Keeps, if-Keeps, gets-Keeps,
}
use git_hub_action_cache_ser.Lifecycle.Fence.{
  Settings, active_materialization, request_deletion, finalize, fence_marked, fence_found,
  fence_query, fence_unreferenced,
}
use git_hub_action_cache_ser.Lifecycle.Reader.{insert_lease}
use git_hub_action_cache_ser.Lifecycle.Materialization.{
  cannot_merge, start_merge, acquire_found, is_holder, as_holder,
}
use git_hub_action_cache_ser.Lifecycle.Parts.{claim_parts, claim_found}
use git_hub_action_cache_ser.Lifecycle.Exclusion.{is_held_row, IsHeld}

module _ (P : Db → Type 0) {A : Type 0} (m n : Action A) where
  busy-Kept : (a b c : Bool) → b ≡ true → Keeps P m → Keeps P (if a || b || c then m else n)
  busy-Kept true b c e h = h
  busy-Kept false true c e h = h
  busy-Kept false false c e h = cc

module _ (k token expiry : ℕ) where
  abbrev Kept : {A : Type 0} → Action A → Type 0
  Kept m = Keeps (IsHeld k token expiry) m

  change_found-held :
      (j : ℕ) (c : StorageLocation → Bool) (f : StorageLocation → StorageLocation)
      → ((l : StorageLocation)
          → is_held_row token expiry (some l) ≡ true
          → c l ≡ true
          → is_held_row token expiry (some (f l)) ≡ true)
      → (o : Option StorageLocation) → is_held_row token expiry o ≡ true
      → is_held_row token expiry (change_found j c f o) ≡ true
  change_found-held j c f g none h = h
  change_found-held j c f g (some l) h = ground (arith, g l)

  -- An update that leaves the lease to its holder.
  pub update-IsHeld :
      (j : ℕ) (c : StorageLocation → Bool) (f : StorageLocation → StorageLocation)
      → ((l : StorageLocation) → (f l).id ≡ l.id)
      → ((l : StorageLocation)
          → is_held_row token expiry (some l) ≡ true
          → c l ≡ true
          → is_held_row token expiry (some (f l)) ≡ true)
      → Kept (update j c f)
  unfolding update
  update-IsHeld j c f i g = record {
    apply = λ db h.
        rw (find_location-update k j c f i db)
          (change_found-held j c f g (find_location k db.locations) h);
  }

  pub bump-IsHeld : (j : ℕ) (c : StorageLocation → Bool) → Kept (update j c add_lease_version)
  bump-IsHeld j c = update-IsHeld j c add_lease_version (λ l. refl) (λ l h t. h)

  pub delete_entries-IsHeld : (q : CacheEntry → Bool) → Kept (delete_entries q)
  unfolding delete_entries
  delete_entries-IsHeld q = record { apply = λ db h. h }

  pub delete_leases-IsHeld : (q : StorageReaderLease → Bool) → Kept (delete_leases q)
  unfolding delete_leases
  delete_leases-IsHeld q = record { apply = λ db h. h }

  enqueue_task-IsHeld : (now : ℕ) (folder : Bytes) → Kept (enqueue_task now folder)
  unfolding enqueue_task enqueue
  enqueue_task-IsHeld now folder = record { apply = λ db h. h }

  insert_lease-held :
      (r : StorageReaderLease) (db : Db) → (insert_lease r db).1.locations ≡ db.locations
  unfolding insert_lease
  insert_lease-held r db = ground arith

  pub insert_lease-IsHeld : (r : StorageReaderLease) → Kept (insert_lease r)
  insert_lease-IsHeld r = record { apply = λ db h. rw (insert_lease-held r db) h }

  delete_location_row-locations :
      (j : ℕ) (db : Db)
      → k ≢ j
      → find_location k (delete_location_row j db).1.locations ≡ find_location k db.locations
  unfolding delete_location_row delete_location
  delete_location_row-locations j db ne = ground (arith, find_location-delete_ne k j db.locations)

  module _ (s : Settings) (now : ℕ) (alive : now < expiry) where
    active_of_held :
        (l : StorageLocation)
        → is_held_row token expiry (some l) ≡ true
        → active_materialization l now ≡ true
    unfolding active_materialization
    active_of_held l h = ground arith

    finalize_other-IsHeld : (l : StorageLocation) → k ≢ l.id → Kept (finalize now l)
    unfolding finalize
    finalize_other-IsHeld l ne = bind-Keeps (enqueue_task-IsHeld now l.folder_name) (λ task.
        bind-Keeps (record { apply = λ db h. rw (delete_location_row-locations l.id db ne) h })
          (λ u. pure-Keeps _))

    fence_marked_other-IsHeld : (l : StorageLocation) → k ≢ l.id → Kept (fence_marked s now l)
    unfolding fence_marked
    fence_marked_other-IsHeld l ne = bind-Keeps (delete_leases-IsHeld _) (λ u.
        bind-Keeps (gets-Keeps _)
          (λ has_readers. if-Keeps _ (pure-Keeps _) (finalize_other-IsHeld l ne)))

    -- The fence finds the merge active, and leaves the row.
    fence_marked_active-IsHeld :
        (l : StorageLocation) → active_materialization l now ≡ true → Kept (fence_marked s now l)
    unfolding fence_marked
    fence_marked_active-IsHeld l a = bind-Keeps (delete_leases-IsHeld _) (λ u.
        bind-Keeps (gets-Keeps _) (λ has_readers. busy-Kept _ _ _ has_readers _ _ a (pure-Keeps _)))

    request_deletion-IsHeld : (l : StorageLocation) → Kept (request_deletion now l)
    request_deletion-IsHeld l =
        if-Keeps _ (update-IsHeld l.id always _ (λ x. refl) (λ x h t. h)) (pure-Keeps _)

    fence_query-IsHeld :
        (j : ℕ) (db : Db) (o : Option StorageLocation)
        → find_location j db.locations ≡ o
        → IsHeld k token expiry db
        → IsHeld k token expiry (fence_query s now o db).1
    unfolding fence_found pure
    fence_query-IsHeld j db none found h = h
    fence_query-IsHeld j db (some l) found h = elim (ℕ_discrete k l.id) [
      | yes same ↦
          let e : find_location k db.locations ≡ some l =
            ap (λ (i : ℕ). find_location i db.locations)
              (same ∙ find_location-id j db.locations {l = l} found)
            ∙ found in
          (bind-Keeps (request_deletion-IsHeld l)
              (λ u. fence_marked_active-IsHeld l (active_of_held l (rw e at h)))).apply
            db h
      | no other ↦
          (bind-Keeps (request_deletion-IsHeld l) (λ u. fence_marked_other-IsHeld l other)).apply db
            h
    ]

    pub fence_unreferenced-IsHeld : (j : ℕ) → Kept (fence_unreferenced s now j)
    unfolding fence_unreferenced
    fence_unreferenced-IsHeld j = bind-Keeps (gets-Keeps _) (λ referenced.
        if-Keeps _ (pure-Keeps _) (gets_bind-Keeps _ _ (λ db h. fence_query-IsHeld j db _ refl h)))

    pub claim_found-IsHeld : (o : Option StorageLocation) → Kept (claim_found now o)
    unfolding claim_found claim_parts
    claim_found-IsHeld none = raise-Keeps _
    claim_found-IsHeld (some l) = bind-Keeps (delete_leases-IsHeld _) (λ u.
        bind-Keeps (gets-Keeps _) (λ has_readers. if-Keeps _ (pure-Keeps _) (
          bind-Keeps (enqueue_task-IsHeld now _) (λ task.
            bind-Keeps (update-IsHeld l.id always _ (λ x. refl) (λ x h t. h))
              (λ v. pure-Keeps _)))))

    start_other-IsHeld :
        (other : ℕ) (l : StorageLocation)
        → k ≢ l.id
        → (db : Db) → IsHeld k token expiry db
        → IsHeld k token expiry (update l.id always (start_merge s now other) db).1
    unfolding update
    start_other-IsHeld other l ne db h =
        rw (find_location-update k l.id always (start_merge s now other) (λ x. refl) db)
          (kept (find_location k db.locations) refl h)
      where
        kept :
            (o : Option StorageLocation)
            → find_location k db.locations ≡ o
            → is_held_row token expiry o ≡ true
            → is_held_row token expiry (change_found l.id always (start_merge s now other) o) ≡ true
        kept none e h' = h'
        kept (some x) e h' = ground (arith, find_location-id k db.locations {l = x} e)

    acquire_found-Keeps :
        (other j : ℕ) (db : Db) (o : Option StorageLocation)
        → find_location j db.locations ≡ o
        → IsHeld k token expiry db
        → IsHeld k token expiry (acquire_found s now other o db).1
    unfolding acquire_found raise
    acquire_found-Keeps other j db none found h = h
    acquire_found-Keeps other j db (some l) found h = elim (ℕ_discrete k l.id) [
      | yes same ↦
          let e : find_location k db.locations ≡ some l =
            ap (λ (i : ℕ). find_location i db.locations)
              (same ∙ find_location-id j db.locations {l = l} found)
            ∙ found in
          rw (cannot_merge_of_active l (active_of_held l (rw e at h))) h
      | no different ↦
          (if-Keeps (cannot_merge now l) (raise-Keeps _) (
              bind-Keeps (record { apply = start_other-IsHeld other l different })
                (λ u. pure-Keeps _))).apply
            db h
    ]
      where
        cannot_merge_of_active :
            (x : StorageLocation) → active_materialization x now ≡ true → cannot_merge now x ≡ true
        cannot_merge_of_active x a = ground arith

    pub acquire_found-IsHeld :
        (other j : ℕ)
        → Kept (gets (λ db. find_location j db.locations) >>= acquire_found s now other)
    acquire_found-IsHeld other j =
        gets_bind-Keeps _ _ (λ db h. acquire_found-Keeps other j db _ refl h)

  -- Another token is no holder.
  pub as_holder-IsHeld :
      (now other j : ℕ) (f : StorageLocation → StorageLocation)
      → other ≢ token
      → ((l : StorageLocation) → (f l).id ≡ l.id)
      → Kept (as_holder now other j f)
  unfolding as_holder
  as_holder-IsHeld now other j f ne i =
      bind-Keeps (update-IsHeld j (is_holder now other) f i (λ l h t. absurd (not_other l h t)))
        (λ held. search keeps)
    where
      not_other :
          (l : StorageLocation)
          → is_held_row token expiry (some l) ≡ true
          → is_holder now other l ≡ true
          → ⊥
      not_other l h t = ground arith
