-- ===== src/Lifecycle/Protection/Acquire.antt =====
-- What `AcquireReader` has done when it returns a lease.
use git_hub_action_cache_ser.Prelude.{
  ℕ, zero, suc, ◌+◌, ◌≡◌, refl, sym, subst, ap, ◌∙◌, ◌<◌, ◌⊎◌, ◌++◌, Bool, true, false, is_some,
  ◌↔◌, Option, none, some, [], ◌∷◌, if◌then◌else◌, any, any-append, arith,
}
use git_hub_action_cache_ser.Db.{
  Db, CacheEntry, StorageLocation, StorageReaderLease, LeaseScope, parts, storage, find_location,
  affects, add_lease_version, update_location,
}
use git_hub_action_cache_ser.Db.Locations.{find_location-update, find_location-id}
use git_hub_action_cache_ser.Lifecycle.Tx.{
  Action, Result, ok, err, direct_representation, ◌>>=◌, gets, pure, raise, update,
}
use git_hub_action_cache_ser.Lifecycle.Fence.{Settings}
use git_hub_action_cache_ser.Lifecycle.Reader.{
  ReaderLease, Attempt, retry, leased, Classified, classify_reader_location, needs_lock, has_parts,
  insert_lease, lease_duration, create_lease, acquire_scope, acquire_location, acquire_entry,
  rollback_retry, acquire_reader_once, Surroundings, after_attempt, acquire_attempts,
  acquire_reader,
}
use git_hub_action_cache_ser.Lifecycle.Protection.{is_lease, readable, Protected}

-- The row of a lease that was handed out.
abbrev pub row_of : ReaderLease → StorageReaderLease
row_of x = record {
  id = x.id;
  storage_location_id = x.location.id;
  scope = x.scope;
  expires_at = x.expires_at;
}

-- What a reader of a scope needs of its location, which is not marked for deletion: a merged object,
-- whatever became of the parts, or the parts with no merged object to prefer, and exactly one part
-- where the reader takes a direct download.
abbrev pub HasRepresentation : Bool → LeaseScope → StorageLocation → Type 0
HasRepresentation direct storage l = (l.deletion_requested_at ≡ none) × (is_some l.merged_at ≡ true)
HasRepresentation direct parts l =
    (l.deletion_requested_at ≡ none)
    × (l.merged_at ≡ none)
    × (l.parts_deleted_at ≡ none)
    × ((direct ≡ false) ⊎ (l.part_count ≡ 1))

-- `classifyReaderLocation` gives a scope exactly where the location has it.
pub classify_reader_location_iff :
    (direct : Bool) (l : StorageLocation) (scope : LeaseScope)
    → (classify_reader_location direct l ≡ ok scope) ↔ HasRepresentation direct scope l
unfolding classify_reader_location
classify_reader_location_iff direct l storage = ground arith
classify_reader_location_iff direct l parts = ground arith

-- The lease is recorded and protects its location, it runs from the attempt for the configured time,
-- and its scope is that of a representation which the location has.
pub record IsGranted (s : Settings) (direct : Bool) (now : ℕ) (x : ReaderLease) (db : Db)
    : Type 0 where
  pub protected : Protected (row_of x) db
  pub duration : x.expires_at ≡ now + lease_duration s direct
  pub represented : HasRepresentation direct x.scope x.location

is_lease_refl : (r : StorageReaderLease) → is_lease r r ≡ true
is_lease_refl r = ground arith

insert_lease-cases :
    (r : StorageReaderLease) (db : Db)
    → (((insert_lease r db).0 ≡ ok true)
        × ((insert_lease r db).1.leases ≡ db.leases ++ r ∷ [])
        × ((insert_lease r db).1.locations ≡ db.locations))
      ⊎ ((insert_lease r db).0 ≡ ok false)
unfolding insert_lease
insert_lease-cases r db = ground arith

module _ (s : Settings) (now uuid : ℕ) (direct : Bool) where
  abbrev Grants : (Db → Result Attempt × Db) → Db → Type 0
  Grants m db = (x : ReaderLease) → (m db).0 ≡ ok (leased x) → IsGranted s direct now x (m db).1

  unfoldable pub lease_of : StorageLocation → LeaseScope → ReaderLease
  lease_of l scope = record {
    id = uuid;
    location = l;
    scope = scope;
    expires_at = now + lease_duration s direct;
    renew_after = s.lease_renewal_interval;
  }

  create_lease-result :
      (l : StorageLocation) (scope : LeaseScope) (db : Db) (x : ReaderLease)
      → (create_lease s now uuid direct l scope db).0 ≡ ok (leased x)
      → (x ≡ lease_of l scope)
        × (any
              (is_lease (row_of (lease_of l scope)))
              (create_lease s now uuid direct l scope db).1.leases
            ≡ true)
        × ((create_lease s now uuid direct l scope db).1.locations ≡ db.locations)
  unfolding create_lease ◌>>=◌ pure lease_of any
  create_lease-result l scope db x e = ground (
    arith,
    insert_lease-cases (row_of (lease_of l scope)) db,
    any-append (is_lease (row_of (lease_of l scope))) db.leases (row_of (lease_of l scope) ∷ []),
    is_lease_refl (row_of (lease_of l scope)),
  )

  create_lease-Grants :
      (l : StorageLocation) (scope : LeaseScope) (db : Db)
      → classify_reader_location direct l ≡ ok scope
      → readable (row_of (lease_of l scope)) (find_location l.id db.locations) ≡ true
      → Grants (create_lease s now uuid direct l scope) db
  unfolding lease_of
  create_lease-Grants l scope db c h x e =
      let (same, there, kept) = create_lease-result l scope db x e in
      subst (λ y. IsGranted s direct now y (create_lease s now uuid direct l scope db).1) (sym same)
        (record {
          protected = (there, rw kept h);
          duration = refl;
          represented = (classify_reader_location_iff direct l scope).0 c;
        })

  readable_of_classify :
      (l : StorageLocation) (scope : LeaseScope)
      → classify_reader_location direct l ≡ ok scope
      → readable (row_of (lease_of l scope)) (some l) ≡ true
  unfolding classify_reader_location lease_of
  readable_of_classify l scope c = ground arith

  readable_bumped :
      (l : StorageLocation) (scope : LeaseScope) (db : Db)
      → find_location l.id db.locations ≡ some l
      → readable (row_of (lease_of l scope)) (some l) ≡ true
      → readable
          (row_of (lease_of l scope))
          (find_location l.id (update_location l.id has_parts add_lease_version db).locations)
        ≡ true
  unfolding lease_of
  readable_bumped l scope db found h =
      rw (find_location-update l.id l.id has_parts add_lease_version (λ x. refl) db, found)
        (ground arith)

  -- After the row lock, if it was taken.
  locked-Grants :
      (l : StorageLocation) (scope : LeaseScope) (lock affected : Bool) (db : Db)
      → affects l.id has_parts db.locations ≡ affected
      → classify_reader_location direct l ≡ ok scope
      → find_location l.id db.locations ≡ some l
      → Grants
          ((if lock then update l.id has_parts add_lease_version else pure true)
            >>= (λ locked. if locked then create_lease s now uuid direct l scope else pure retry))
          db
  unfolding ◌>>=◌ pure update
  locked-Grants l scope false affected db a c found x e =
      create_lease-Grants l scope db c (rw found (readable_of_classify l scope c)) x e
  locked-Grants l scope true true db a c found x e =
      let e' = rw a at e in
      rw a (
        create_lease-Grants l scope (update_location l.id has_parts add_lease_version db) c
          (readable_bumped l scope db found (readable_of_classify l scope c)) x e')
  locked-Grants l scope true false db a c found x e = cc

  acquire_scope-Grants :
      (l : StorageLocation) (c : Classified) (db : Db)
      → classify_reader_location direct l ≡ c
      → find_location l.id db.locations ≡ some l
      → Grants (acquire_scope s now uuid direct l c) db
  unfolding acquire_scope raise pure
  acquire_scope-Grants l (err direct_representation) db ec found x e = cc
  acquire_scope-Grants l (err _) db ec found x e = absurd (ground arith)
  acquire_scope-Grants l (ok scope) db ec found x e =
      locked-Grants l scope (needs_lock s scope l) _ db refl ec found x e

  acquire_location-Grants :
      (k : ℕ) (o : Option StorageLocation) (db : Db)
      → find_location k db.locations ≡ o
      → Grants (acquire_location s now uuid direct o) db
  unfolding pure
  acquire_location-Grants k none db found x e = cc
  acquire_location-Grants k (some l) db found x e =
      acquire_scope-Grants l _ db refl
        (ap (λ (i : ℕ). find_location i db.locations)
            (find_location-id k db.locations {l = l} found)
          ∙ found)
        x e

  acquire_entry-Grants :
      (o : Option CacheEntry) (db : Db) → Grants (acquire_entry s now uuid direct o) db
  unfolding raise gets ◌>>=◌
  acquire_entry-Grants none db x e = cc
  acquire_entry-Grants (some c) db x e = acquire_location-Grants c.location_id _ db refl x e

  rollback_retry-leased :
      (m : Action Attempt) (db : Db) (x : ReaderLease)
      → (rollback_retry m db).0 ≡ ok (leased x)
      → ((m db).0 ≡ ok (leased x)) × ((rollback_retry m db).1 ≡ (m db).1)
  unfolding rollback_retry
  rollback_retry-leased m db x e = ground arith

  -- A lease that `acquireReaderOnce` returns is in its table and protects its location, expires after
  -- the configured time, and has the scope of a representation that the location had.
  pub acquire_reader_once-Grants :
      (entry : ℕ) (db : Db) → Grants (acquire_reader_once s now uuid direct entry) db
  unfolding acquire_reader_once gets ◌>>=◌
  acquire_reader_once-Grants entry db x e =
      let (inner, same) = rollback_retry-leased _ db x e in
      subst (IsGranted s direct now x) (sym same) (acquire_entry-Grants _ db x inner)

after_attempt-returns :
    (Q : Db → Type 0) (gave_up : Bool) (r : Result Attempt) (db : Db)
    (rest : Result ReaderLease × Db) (x : ReaderLease)
    → (r ≡ ok (leased x) → Q db)
    → (rest.0 ≡ ok x → Q rest.1)
    → (after_attempt gave_up r db rest).0 ≡ ok x
    → Q (after_attempt gave_up r db rest).1
after_attempt-returns Q gave_up (err e) db rest x now later h = cc
after_attempt-returns Q gave_up (ok (leased y)) db rest x now later h = now (cc)
after_attempt-returns Q true (ok retry) db rest x now later h = cc
after_attempt-returns Q false (ok retry) db rest x now later h = later h

module _ (s : Settings) (w : Surroundings) (direct : Bool) (entry : ℕ) where
  -- Granted at the clock of one of the attempts.
  abbrev pub GrantedBy : ℕ → ReaderLease → Db → Type 0
  GrantedBy bound x db = (i : ℕ) × (i < bound) × IsGranted s direct (w.clock i) x db

  acquire_attempts-granted :
      (left attempt : ℕ) (db : Db) (x : ReaderLease)
      → (acquire_attempts s w direct entry left attempt db).0 ≡ ok x
      → GrantedBy (attempt + left) x (acquire_attempts s w direct entry left attempt db).1
  unfolding acquire_attempts
  acquire_attempts-granted zero attempt db x e = cc
  acquire_attempts-granted (suc left) attempt db x e =
      after_attempt-returns (GrantedBy (attempt + suc left) x) _ _ _
        (acquire_attempts s w direct entry left (attempt + 1) _) x
        (λ r. (
          attempt,
          omega arith,
          acquire_reader_once-Grants s (w.clock attempt) (w.uuid attempt) direct entry _ x r,
        ))
        (λ h.
          let (i, below, granted) = acquire_attempts-granted left (attempt + 1) _ x h in
          (i, omega arith, granted))
        e

  -- Whatever other transactions commit between the attempts, a lease that `AcquireReader` returns was
  -- granted by one of its three attempts: it is recorded and protects its location in the tables as
  -- the call leaves them, and it expires the configured time after the clock of that attempt.
  pub acquire_reader-granted :
      (db : Db) (x : ReaderLease)
      → (acquire_reader s w direct entry db).0 ≡ ok x
      → GrantedBy 3 x (acquire_reader s w direct entry db).1
  unfolding acquire_reader
  acquire_reader-granted db x e = acquire_attempts-granted 3 0 db x e
