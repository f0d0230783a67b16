-- ===== src/Lifecycle/Protection/Success.antt =====
-- When `AcquireReader` hands out a lease.
use git_hub_action_cache_ser.Prelude.{
  ℕ, ◌≡◌, refl, sym, subst, ap, Bool, true, false, some, if◌then◌else◌, ◌==◌, any, find, arith,
}
use git_hub_action_cache_ser.Db.{
  Db, CacheEntry, StorageLocation, StorageReaderLease, LeaseScope, parts, storage, find_location,
  affects, always, add_lease_version, update_location,
}
use git_hub_action_cache_ser.Db.Locations.{find_location-update, find_location-id}
use git_hub_action_cache_ser.Lifecycle.Tx.{Action, Result, ok, ◌>>=◌, gets, pure, update}
use git_hub_action_cache_ser.Lifecycle.Fence.{Settings}
use git_hub_action_cache_ser.Lifecycle.Reader.{
  ReaderLease, Attempt, retry, leased, classify_reader_location, needs_lock, has_parts,
  insert_lease, create_lease, acquire_scope, acquire_location, acquire_entry, rollback_retry,
  acquire_reader_once, Surroundings, acquire_attempts, acquire_reader,
}
use git_hub_action_cache_ser.Lifecycle.Protection.Acquire.{
  lease_of, row_of, GrantedBy, acquire_reader-granted, HasRepresentation,
  classify_reader_location_iff,
}

bind-ok :
    {A B : Type 0} (m : Action A) (f : A → Action B) (db : Db) (a : A) (r : Result B)
    → (m db).0 ≡ ok a
    → (f a (m db).1).0 ≡ r
    → ((m >>= f) db).0 ≡ r
unfolding ◌>>=◌
bind-ok m f db a r h e = rw (h, ◌>>=◌) e

module _ (s : Settings) (now uuid : ℕ) (direct : Bool) where
  insert_lease-fresh :
      (r : StorageReaderLease) (db : Db)
      → affects r.storage_location_id always db.locations ≡ true
      → any (λ q. q.id == r.id) db.leases ≡ false
      → (insert_lease r db).0 ≡ ok true
  unfolding insert_lease
  insert_lease-fresh r db there fresh = rw (there, insert_lease) (rw (fresh, insert_lease) refl)

  create_lease-fresh :
      (l : StorageLocation) (scope : LeaseScope) (db : Db)
      → affects l.id always db.locations ≡ true
      → any (λ q. q.id == uuid) db.leases ≡ false
      → (create_lease s now uuid direct l scope db).0
        ≡ ok (leased (lease_of s now uuid direct l scope))
  unfolding create_lease pure lease_of
  create_lease-fresh l scope db there fresh =
      bind-ok (insert_lease (row_of (lease_of s now uuid direct l scope))) _ db true _
        (insert_lease-fresh (row_of (lease_of s now uuid direct l scope)) db there fresh) refl

  affects-found :
      (l : StorageLocation) (db : Db)
      → find_location l.id db.locations ≡ some l
      → affects l.id always db.locations ≡ true
  unfolding affects
  affects-found l db there = rw (there, affects) refl

  affects-bumped :
      (l : StorageLocation) (db : Db)
      → find_location l.id db.locations ≡ some l
      → affects l.id always (update_location l.id has_parts add_lease_version db).locations ≡ true
  unfolding affects
  affects-bumped l db there =
      rw (find_location-update l.id l.id has_parts add_lease_version (λ x. refl) db, affects)
        (rw (there, affects) refl)

  -- The row lock of a location that still has its parts is taken.
  locked-fresh :
      (l : StorageLocation) (scope : LeaseScope) (lock : Bool) (db : Db)
      → find_location l.id db.locations ≡ some l
      → (lock ≡ true → has_parts l ≡ true)
      → any (λ q. q.id == uuid) db.leases ≡ false
      → (((if lock then update l.id has_parts add_lease_version else pure true)
            >>= (λ locked. if locked then create_lease s now uuid direct l scope else pure retry))
          db).0
        ≡ ok (leased (lease_of s now uuid direct l scope))
  unfolding pure update affects update_location
  locked-fresh l scope false db there held fresh =
      bind-ok (pure true) _ db true _ refl
        (create_lease-fresh l scope db (affects-found l db there) fresh)
  locked-fresh l scope true db there held fresh =
      bind-ok (update l.id has_parts add_lease_version) _ db true _
        (rw (there, affects) (ap ok (held refl)))
        (create_lease-fresh l scope (update_location l.id has_parts add_lease_version db)
          (affects-bumped l db there) fresh)

  needs_lock-has_parts :
      (l : StorageLocation) (scope : LeaseScope)
      → classify_reader_location direct l ≡ ok scope
      → needs_lock s scope l ≡ true
      → has_parts l ≡ true
  unfolding classify_reader_location
  needs_lock-has_parts l parts read h = ground arith
  needs_lock-has_parts l storage read h = absurd (ground arith)

  acquire_scope-fresh :
      (l : StorageLocation) (scope : LeaseScope) (db : Db)
      → find_location l.id db.locations ≡ some l
      → classify_reader_location direct l ≡ ok scope
      → any (λ q. q.id == uuid) db.leases ≡ false
      → (acquire_scope s now uuid direct l (ok scope) db).0
        ≡ ok (leased (lease_of s now uuid direct l scope))
  unfolding acquire_scope
  acquire_scope-fresh l scope db there read fresh =
      locked-fresh l scope (needs_lock s scope l) db there (needs_lock-has_parts l scope read) fresh

  rollback_retry-leased_ok :
      (body : Action Attempt) (db : Db) (x : ReaderLease)
      → (body db).0 ≡ ok (leased x)
      → (rollback_retry body db).0 ≡ ok (leased x)
  unfolding rollback_retry
  rollback_retry-leased_ok body db x h = rw (h, rollback_retry) refl

  placed_itself :
      (k : ℕ) (l : StorageLocation) (db : Db)
      → find_location k db.locations ≡ some l
      → find_location l.id db.locations ≡ some l
  placed_itself k l db there =
      subst (λ j. find_location j db.locations ≡ some l)
        (sym (find_location-id k db.locations {l = l} there)) there

  acquire_reader_once-fresh :
      (entry : ℕ) (e : CacheEntry) (l : StorageLocation) (scope : LeaseScope) (db : Db)
      → find (λ x. x.id == entry) db.entries ≡ some e
      → find_location e.location_id db.locations ≡ some l
      → classify_reader_location direct l ≡ ok scope
      → any (λ q. q.id == uuid) db.leases ≡ false
      → (acquire_reader_once s now uuid direct entry db).0
        ≡ ok (leased (lease_of s now uuid direct l scope))
  unfolding acquire_reader_once rollback_retry gets
  acquire_reader_once-fresh entry e l scope db here there read fresh =
      rollback_retry-leased_ok
        (gets (λ db. find (λ e. e.id == entry) db.entries) >>= acquire_entry s now uuid direct) db
        (lease_of s now uuid direct l scope)
        (bind-ok (gets (λ db. find (λ e. e.id == entry) db.entries))
          (acquire_entry s now uuid direct) db (some e)
          (ok (leased (lease_of s now uuid direct l scope))) (ap ok here)
          (bind-ok (gets (λ db. find_location e.location_id db.locations))
            (acquire_location s now uuid direct) db (some l)
            (ok (leased (lease_of s now uuid direct l scope))) (ap ok there)
            (rw read (
              acquire_scope-fresh l scope db (placed_itself e.location_id l db there) read fresh))))

module _ (s : Settings) (w : Surroundings) (direct : Bool) (entry : ℕ) where
  attempt-succeeds :
      (db : Db) (e : CacheEntry) (l : StorageLocation) (scope : LeaseScope)
      → find (λ x. x.id == entry) (w.others 0 db).entries ≡ some e
      → find_location e.location_id (w.others 0 db).locations ≡ some l
      → HasRepresentation direct scope l
      → any (λ q. q.id == w.uuid 0) (w.others 0 db).leases ≡ false
      → (acquire_reader s w direct entry db).0
        ≡ ok (lease_of s (w.clock 0) (w.uuid 0) direct l scope)
  unfolding acquire_reader acquire_attempts
  attempt-succeeds db e l scope there placed read fresh =
      rw
        (acquire_reader_once-fresh s (w.clock 0) (w.uuid 0) direct entry e l scope (w.others 0 db)
          there placed ((classify_reader_location_iff direct l scope).1 read) fresh)
        refl

  -- The first attempt hands out a lease of the scope where the entry and its location are there at its
  -- start, the location has a representation of that scope, and the new id is not taken. That lease is
  -- granted: it is recorded and protects the location in the tables that the call leaves.
  pub acquire_reader-succeeds :
      (db : Db) (e : CacheEntry) (l : StorageLocation) (scope : LeaseScope)
      → find (λ x. x.id == entry) (w.others 0 db).entries ≡ some e
      → find_location e.location_id (w.others 0 db).locations ≡ some l
      → HasRepresentation direct scope l
      → any (λ q. q.id == w.uuid 0) (w.others 0 db).leases ≡ false
      → ((acquire_reader s w direct entry db).0
          ≡ ok (lease_of s (w.clock 0) (w.uuid 0) direct l scope))
        × GrantedBy s w direct entry 3
            (lease_of s (w.clock 0) (w.uuid 0) direct l scope)
            (acquire_reader s w direct entry db).1
  acquire_reader-succeeds db e l scope there placed read fresh =
      let won = attempt-succeeds db e l scope there placed read fresh in
      (won, acquire_reader-granted s w direct entry db _ won)
