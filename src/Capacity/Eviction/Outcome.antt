-- ===== src/Capacity/Eviction/Outcome.antt =====
-- `RequestCapacityEviction` of internal/storagelifecycle/service.go on each of its branches.
use git_hub_action_cache_ser.Prelude.{
  ℕ, ◌≡◌, ◌⊎◌, inl, inr, refl, ap, sym, subst, ◌∙◌, true, false, Option, none, some, any,
  Bool-cases, arith, if◌then◌else◌,
}
use git_hub_action_cache_ser.Db.{
  Db, StorageLocation, find_location, affects, add_lease_version, update_location,
}
use git_hub_action_cache_ser.Db.Locations.{find_location-update, find_location-id}
use git_hub_action_cache_ser.Lifecycle.Tx.{Action, Result, ok, ◌>>=◌, pure, gets, update}
use git_hub_action_cache_ser.Lifecycle.Fence.{Settings, is_active}
use git_hub_action_cache_ser.Lifecycle.Deletion.{
  CapacityObservation, CapacityEvictionResult, is_current, stale, evict_claimed,
  request_capacity_eviction,
}
use git_hub_action_cache_ser.Capacity.Eviction.{
  IsAsObserved, is_current_iff, transaction-done, IsClaimed, evict_claimed-free,
  evict_claimed-pinned,
}

module _ (s : Settings) (now : ℕ) where
  -- The three ends of an eviction: the observation is stale, an active reader pins the location, or the
  -- location is claimed.
  unfoldable pub IsEvictionOf :
      CapacityObservation → Db → Result CapacityEvictionResult × Db → Type 0
  IsEvictionOf o db x =
      ((¬ (
          (l : StorageLocation) × (find_location o.location_id db.locations ≡ some l)
          × IsAsObserved o l))
        × (x.0 ≡ ok stale)
        × (find_location o.location_id x.1.locations ≡ find_location o.location_id db.locations)
        × (x.1.entries ≡ db.entries))
      ⊎ ((l : StorageLocation) × (find_location o.location_id db.locations ≡ some l)
          × IsAsObserved o l
          × (((any (is_active l.id now) db.leases ≡ true)
                × (x.0 ≡ ok (record stale { pinned = true }))
                × (find_location l.id x.1.locations ≡ some (add_lease_version l))
                × (x.1.entries ≡ db.entries))
              ⊎ ((any (is_active l.id now) db.leases ≡ false)
                  × IsClaimed s now (add_lease_version l) db x)))

  abbrev attempt : CapacityObservation → Action CapacityEvictionResult
  attempt o = update o.location_id (is_current o) add_lease_version >>= λ claimed.
      if claimed
      then gets (λ db. find_location o.location_id db.locations) >>= evict_claimed s now
      else pure stale

  bumped : CapacityObservation → Db → Db
  bumped o db = update_location o.location_id (is_current o) add_lease_version db

  attempt-stale :
      (o : CapacityObservation) (db : Db)
      → affects o.location_id (is_current o) db.locations ≡ false
      → attempt o db ≡ (ok stale, bumped o db)
  unfolding ◌>>=◌ update pure bumped
  attempt-stale o db h = rw h refl

  attempt-claims :
      (o : CapacityObservation) (db : Db) (l : StorageLocation)
      → affects o.location_id (is_current o) db.locations ≡ true
      → find_location o.location_id (bumped o db).locations ≡ some l
      → attempt o db ≡ evict_claimed s now (some l) (bumped o db)
  unfolding ◌>>=◌ update gets bumped
  attempt-claims o db l h k = rw (h, k) refl

  request_capacity_eviction-attempt :
      (o : CapacityObservation) (db db' : Db) (r : CapacityEvictionResult)
      → (attempt o db).0 ≡ ok r
      → request_capacity_eviction s now o db ≡ (ok r, (attempt o db).1)
  unfolding request_capacity_eviction
  request_capacity_eviction-attempt o db db' r h = transaction-done (attempt o) db r h

  -- The row of the candidate after its first update.
  bumped-row :
      (o : CapacityObservation) (db : Db) (l : StorageLocation)
      → find_location o.location_id db.locations ≡ some l
      → find_location o.location_id (bumped o db).locations
        ≡ some (if is_current o l then add_lease_version l else l)
  unfolding bumped
  bumped-row o db l found = ground (
    arith,
    find_location-id o.location_id db.locations {l = l} found,
    find_location-update o.location_id o.location_id (is_current o) add_lease_version (λ x. refl)
        db,
  )

  bumped-none :
      (o : CapacityObservation) (db : Db)
      → find_location o.location_id db.locations ≡ none
      → find_location o.location_id (bumped o db).locations ≡ none
  unfolding bumped
  bumped-none o db found = ground (
    arith,
    find_location-update o.location_id o.location_id (is_current o) add_lease_version (λ x. refl)
        db,
  )

  affects_row :
      (o : CapacityObservation) (db : Db) (r : Option StorageLocation)
      → find_location o.location_id db.locations ≡ r
      → affects o.location_id (is_current o) db.locations
        ≡ elim r [ none ↦ false | some l ↦ is_current o l ]
  unfolding affects
  affects_row o db r found = rw (found, affects) refl

  stale-IsEvictionOf :
      (o : CapacityObservation) (db : Db)
      → affects o.location_id (is_current o) db.locations ≡ false
      → (¬ (
          (l : StorageLocation) × (find_location o.location_id db.locations ≡ some l)
          × IsAsObserved o l))
      → find_location o.location_id (bumped o db).locations
        ≡ find_location o.location_id db.locations
      → IsEvictionOf o db (request_capacity_eviction s now o db)
  unfolding IsEvictionOf bumped update_location
  stale-IsEvictionOf o db h none_current same =
      let e = attempt-stale o db h in
      subst (IsEvictionOf o db)
        (sym (
          request_capacity_eviction-attempt o db db stale (ap (λ x. x.0) e)
          ∙ ap (λ x. (ok stale, x.1)) e))
        (inl (none_current, refl, same, refl))

  current-IsEvictionOf :
      (o : CapacityObservation) (db : Db) (l : StorageLocation)
      → find_location o.location_id db.locations ≡ some l
      → l.id ≡ o.location_id
      → is_current o l ≡ true
      → find_location l.id (bumped o db).locations ≡ some (add_lease_version l)
      → attempt o db ≡ evict_claimed s now (some (add_lease_version l)) (bumped o db)
      → IsEvictionOf o db (request_capacity_eviction s now o db)
  unfolding IsEvictionOf bumped update_location
  current-IsEvictionOf o db l found id e row claims =
      elim (Bool-cases (any (is_active l.id now) db.leases)) [
        | inl busy ↦
            let ended =
              claims ∙ evict_claimed-pinned s now (add_lease_version l) (bumped o db) busy in
            subst (IsEvictionOf o db)
              (sym (
                request_capacity_eviction-attempt o db db _ (ap (λ x. x.0) ended)
                ∙ ap (λ x. (ok (record stale { pinned = true }), x.1)) ended))
              (inr (l, found, (is_current_iff o l).0 e, inl (busy, refl, row, refl)))
        | inr free ↦
            let claimed : IsClaimed s now (add_lease_version l) (bumped o db) (attempt o db) =
              subst (IsClaimed s now (add_lease_version l) (bumped o db)) (sym claims)
                (evict_claimed-free s now (add_lease_version l) (bumped o db) row free) in
            let done = claimed.0 in
            subst (IsEvictionOf o db) (sym (request_capacity_eviction-attempt o db db _ done))
              (inr (l, found, (is_current_iff o l).0 e, inr (free, (refl, claimed.1, claimed.2))))
      ]

  eviction_of :
      (o : CapacityObservation) (db : Db) (r : Option StorageLocation)
      → find_location o.location_id db.locations ≡ r
      → IsEvictionOf o db (request_capacity_eviction s now o db)
  eviction_of o db none found =
      stale-IsEvictionOf o db (affects_row o db none found) (λ (l, k, c). absurd (missing l k))
        (bumped-none o db found ∙ sym found)
    where
      missing : (l : StorageLocation) → find_location o.location_id db.locations ≡ some l → ⊥
      missing l k = cc
  eviction_of o db (some l) found = elim (Bool-cases (is_current o l)) [
    | inr e ↦
        stale-IsEvictionOf o db (affects_row o db (some l) found ∙ e)
          (λ (m, k, c). outdated m (same m k) ((is_current_iff o m).1 c) e)
          (bumped-row o db l found
            ∙ ap (λ b. some (if b then add_lease_version l else l)) e
            ∙ sym found)
    | inl e ↦
        let id = find_location-id o.location_id db.locations {l = l} found in
        let row =
          bumped-row o db l found ∙ ap (λ b. some (if b then add_lease_version l else l)) e in
        current-IsEvictionOf o db l found id e
          (subst (λ j. find_location j (bumped o db).locations ≡ some (add_lease_version l))
            (sym id) row)
          (attempt-claims o db (add_lease_version l) (affects_row o db (some l) found ∙ e) row)
  ]
    where
      same : (m : StorageLocation) → find_location o.location_id db.locations ≡ some m → m ≡ l
      same m k = cc

      outdated : (m : StorageLocation) → m ≡ l → is_current o m ≡ true → ¬ (is_current o l ≡ false)
      outdated m q c f = cc

  -- An eviction finds no location as it was observed, with a size and unmarked, and is stale: its row
  -- and all entries stay. Or it finds one with an active reader, and is pinned: only the row's lease
  -- version grows. Or it finds one without, and claims it with its size: no entry references it
  -- afterwards, and its row is gone, or stays with its mark where something else holds it.
  pub request_capacity_eviction-outcome :
      (o : CapacityObservation) (db : Db) → IsEvictionOf o db (request_capacity_eviction s now o db)
  request_capacity_eviction-outcome o db =
      eviction_of o db (find_location o.location_id db.locations) refl
