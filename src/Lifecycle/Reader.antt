-- ===== src/Lifecycle/Reader.antt =====
-- Reader leases: `AcquireReader` with its three attempts, `InspectReader`, renewal and release.
use git_hub_action_cache_ser.Prelude.{
  ℕ, suc, ◌+◌, Bool, true, false, not, ◌&&◌, Option, none, some, List, [], ◌∷◌, ◌++◌, if◌then◌else◌,
  ◌==◌, ltb, leb, is_none, is_some, any, find, update_where, delete_where,
}
use git_hub_action_cache_ser.Db.{
  Db, CacheEntry, StorageLocation, StorageReaderLease, LeaseScope, parts, storage, is_parts,
  find_location, affects, always, add_lease_version,
}
use git_hub_action_cache_ser.Lifecycle.Tx.{
  Action, Result, ok, err, location_unavailable, direct_representation, reader_lease_lost, canceled,
  ◌>>=◌, pure, raise, gets, update,
}
use git_hub_action_cache_ser.Lifecycle.Fence.{Settings}

pub record ReaderLease : Type 0 where
  pub id : ℕ
  pub location : StorageLocation
  pub scope : LeaseScope
  pub expires_at : ℕ
  pub renew_after : ℕ

pub data Attempt : Type 0 where
  retry : Attempt
  leased : ReaderLease → Attempt

-- A transaction that is rolled back before another attempt too.
unfoldable pub rollback_retry : Action Attempt → Action Attempt
rollback_retry body db =
    let (r, db') = body db in
    elim r [
      | ok a ↦ elim a [ leased x ↦ (ok (leased x), db') | retry ↦ (ok retry, db) ]
      | err e ↦ (err e, db)
    ]

abbrev pub Classified : Type 0
Classified = Result LeaseScope

-- `classifyReaderLocation`
unfoldable pub classify_reader_location : Bool → StorageLocation → Classified
classify_reader_location direct l =
    if is_some l.deletion_requested_at
    then err location_unavailable
    else if is_some l.merged_at
    then ok storage
    else if is_some l.parts_deleted_at
    then err location_unavailable
    else if direct && not (l.part_count == 1)
    then err direct_representation
    else ok parts

-- The condition of the row lock, and the columns that it rechecks.
abbrev pub needs_lock : Settings → LeaseScope → StorageLocation → Bool
needs_lock s scope l =
    is_parts scope
    && not s.materialization_disabled
    && leb 2 l.part_count
    && is_none l.materialization_unsupported_at

abbrev pub has_parts : StorageLocation → Bool
has_parts l = is_none l.deletion_requested_at && is_none l.merged_at && is_none l.parts_deleted_at

-- A lease needs its location's row, and an id of its own; a constraint error is tried again.
unfoldable pub insert_lease : StorageReaderLease → Action Bool
insert_lease r db =
    if affects r.storage_location_id always db.locations && not (any (λ q. q.id == r.id) db.leases)
    then (ok true, record db { leases = db.leases ++ r ∷ [] })
    else (ok false, db)

abbrev pub lease_duration : Settings → Bool → ℕ
lease_duration s direct =
    if direct then s.direct_download_lease_duration else s.reader_lease_duration

module _ (s : Settings) (now uuid : ℕ) (direct : Bool) where
  unfoldable pub create_lease : StorageLocation → LeaseScope → Action Attempt
  create_lease l scope = do
    created ← insert_lease (record {
      id = uuid;
      storage_location_id = l.id;
      scope = scope;
      expires_at = now + lease_duration s direct;
    })
    pure (
        if created
        then leased (record {
          id = uuid;
          location = l;
          scope = scope;
          expires_at = now + lease_duration s direct;
          renew_after = s.lease_renewal_interval;
        })
        else retry)

  unfoldable pub acquire_scope : StorageLocation → Classified → Action Attempt
  acquire_scope l (err direct_representation) = raise direct_representation
  acquire_scope l (err e) = if is_some l.deletion_requested_at then pure retry else raise e
  acquire_scope l (ok scope) = do
    locked ← (if needs_lock s scope l then update l.id has_parts add_lease_version else pure true)
    if locked then create_lease l scope else pure retry

  abbrev pub acquire_location : Option StorageLocation → Action Attempt
  acquire_location none = pure retry
  acquire_location (some l) = acquire_scope l (classify_reader_location direct l)

  abbrev pub acquire_entry : Option CacheEntry → Action Attempt
  acquire_entry none = raise location_unavailable
  acquire_entry (some e) =
      gets (λ db. find_location e.location_id db.locations) >>= acquire_location

  -- `acquireReaderOnce`
  unfoldable pub acquire_reader_once : ℕ → Action Attempt
  acquire_reader_once cache_entry_id =
      rollback_retry (gets (λ db. find (λ e. e.id == cache_entry_id) db.entries) >>= acquire_entry)

-- What happens round the attempts of one call: before attempt `i` other transactions commit, the
-- clock is read, an id is generated; after it the caller may have given up.
pub record Surroundings : Type 0 where
  pub others : ℕ → Db → Db
  pub clock : ℕ → ℕ
  pub uuid : ℕ → ℕ
  pub gives_up : ℕ → Bool

-- The end of one round of the loop: return, or go on unless the caller gives up in the backoff.
abbrev pub after_attempt :
    Bool → Result Attempt → Db → Result ReaderLease × Db → Result ReaderLease × Db
after_attempt gave_up (err e) db rest = (err e, db)
after_attempt gave_up (ok (leased lease)) db rest = (ok lease, db)
after_attempt gave_up (ok retry) db rest = if gave_up then (err canceled, db) else rest

-- The loop of `AcquireReader` from an attempt on, with the attempts that are left.
unfoldable pub acquire_attempts :
    Settings → Surroundings → Bool → ℕ → ℕ → ℕ → Db → Result ReaderLease × Db
acquire_attempts s w direct entry ℕ.zero attempt db = (err location_unavailable, db)
acquire_attempts s w direct entry (suc left) attempt db =
    let (r, db') =
      acquire_reader_once s (w.clock attempt) (w.uuid attempt) direct entry (w.others attempt db) in
    let rest = acquire_attempts s w direct entry left (attempt + 1) db' in
    after_attempt (ltb attempt 2 && w.gives_up attempt) r db' rest

unfoldable pub acquire_reader : Settings → Surroundings → Bool → ℕ → Db → Result ReaderLease × Db
acquire_reader s w direct entry db = acquire_attempts s w direct entry 3 0 db

abbrev inspect_location : Bool → Option StorageLocation → Action (StorageLocation × LeaseScope)
inspect_location direct none = raise location_unavailable
inspect_location direct (some l) = elim (classify_reader_location direct l) [
  | ok scope ↦ pure (l, scope)
  | err e ↦ raise e
]

abbrev inspect_entry : Bool → Option CacheEntry → Action (StorageLocation × LeaseScope)
inspect_entry direct none = raise location_unavailable
inspect_entry direct (some e) =
    gets (λ db. find_location e.location_id db.locations) >>= inspect_location direct

-- `InspectReader`: the same view, without a lease.
unfoldable pub inspect_reader : Bool → ℕ → Action (StorageLocation × LeaseScope)
inspect_reader direct cache_entry_id =
    gets (λ db. find (λ e. e.id == cache_entry_id) db.entries) >>= inspect_entry direct

abbrev pub live_lease : ℕ → ℕ → StorageReaderLease → Bool
live_lease now id r = r.id == id && ltb now r.expires_at

-- The update of `RenewReader` and of `ExtendDirectReader`, to the given expiry.
unfoldable pub set_expiry : ℕ → ℕ → ℕ → Action (Unit {0})
set_expiry now id expires_at db =
    if any (live_lease now id) db.leases
    then (
      ok tt,
      record db {
        leases =
            update_where (live_lease now id) (λ r. record r { expires_at = expires_at }) db.leases;
      },
    )
    else (err reader_lease_lost, db)

unfoldable pub renew_reader : Settings → ℕ → ℕ → Action (Unit {0})
renew_reader s now id = set_expiry now id (now + s.reader_lease_duration)

unfoldable pub extend_direct_reader : Settings → ℕ → ℕ → Action (Unit {0})
extend_direct_reader s now id = set_expiry now id (now + s.direct_download_lease_duration)

-- `ReleaseReader`: releasing an absent lease is no error.
unfoldable pub release_reader : ℕ → Action (Unit {0})
release_reader id db = (ok tt, record db { leases = delete_where (λ r. r.id == id) db.leases })

-- The number of rows that a DELETE meets.
unfoldable pub rows_where : (StorageReaderLease → Bool) → List StorageReaderLease → ℕ
rows_where p [] = 0
rows_where p (r ∷ rs) = let rest = rows_where p rs in if p r then rest + 1 else rest

abbrev pub listed : List ℕ → ℕ → Bool
listed ids id = any (λ i. i == id) ids

-- `ReleaseReaders`, with the number of deleted rows
unfoldable pub release_readers : List ℕ → Action ℕ
release_readers ids db = (
  ok (rows_where (λ r. listed ids r.id) db.leases),
  record db { leases = delete_where (λ r. listed ids r.id) db.leases },
)

-- `PurgeExpiredReaderLeases`, with the number of deleted rows
unfoldable pub purge_expired_reader_leases : ℕ → Action ℕ
purge_expired_reader_leases now db = (
  ok (rows_where (λ r. leb r.expires_at now) db.leases),
  record db { leases = delete_where (λ r. leb r.expires_at now) db.leases },
)
