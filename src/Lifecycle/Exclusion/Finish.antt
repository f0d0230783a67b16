-- ===== src/Lifecycle/Exclusion/Finish.antt =====
-- The end of a merge: `FinishMaterialization` of internal/storagelifecycle/service.go.
use git_hub_action_cache_ser.Prelude.{
  ℕ, ◌<◌, ◌≡◌, ◌⊎◌, inl, inr, refl, Bool, true, false, none, some, is_some, is_none, Option,
  Option-cases, Bool-cases, arith,
}
use git_hub_action_cache_ser.Db.{Db, StorageLocation, find_location, affects, add_lease_version}
use git_hub_action_cache_ser.Db.Locations.{find_location-update, find_location-id}
use git_hub_action_cache_ser.Lifecycle.Tx.{
  ok, err, materialization_lease_held, materialization_lease_lost, ◌>>=◌, gets, pure, raise, update,
  transaction,
}
use git_hub_action_cache_ser.Lifecycle.Fence.{Settings}
use git_hub_action_cache_ser.Lifecycle.Materialization.{
  acquire_found, acquire_materialization, as_holder, is_holder, finish_materialization,
}
use git_hub_action_cache_ser.Lifecycle.Exclusion.{is_held_row, IsHeld}

abbrev pub merged : ℕ → StorageLocation → StorageLocation
merged now l = record l {
  merged_at = some now;
  merge_lease_token = none;
  merge_lease_expires_at = none;
}

-- A location that is merged is not leased for a merge again.
acquire_materialization-merged :
    (s : Settings) (later other k : ℕ) (db : Db) (l : StorageLocation)
    → find_location k db.locations ≡ some l
    → is_some l.merged_at ≡ true
    → acquire_materialization s later other k db ≡ (err materialization_lease_held, db)
unfolding acquire_materialization transaction ◌>>=◌ gets raise update affects acquire_found
acquire_materialization-merged s later other k db l found h = ground (
  arith,
  found,
  find_location-update k k (λ l. is_none l.deletion_requested_at) add_lease_version (λ l. refl) db,
)

module _ (now token : ℕ) where
  abbrev row_affects : Option StorageLocation → Bool
  row_affects none = false
  row_affects (some l) = is_holder now token l

  row_expiry :
      (o : Option StorageLocation)
      → row_affects o ≡ true
      → (expiry : ℕ) × (now < expiry) × (is_held_row token expiry o ≡ true)
  row_expiry none h = cc
  row_expiry (some l) h = elim (Option-cases l.merge_lease_expires_at) [
    | inl e ↦ absurd (ground arith)
    | inr (t, e) ↦ (t, ground arith, ground arith)
  ]

  row_is_held :
      (o : Option StorageLocation) (expiry : ℕ)
      → now < expiry
      → is_held_row token expiry o ≡ true
      → row_affects o ≡ true
  row_is_held none expiry alive h = cc
  row_is_held (some l) expiry alive h = elim (Option-cases l.merge_lease_expires_at) [
    | inl e ↦ absurd (ground arith)
    | inr (t, e) ↦ ground arith
  ]

module _ (now token k : ℕ) where
  -- The location is leased to the token until some time that has not come.
  abbrev pub IsLive : Db → Type 0
  IsLive db = (expiry : ℕ) × (now < expiry) × IsHeld k token expiry db

  finish-found :
      (db : Db) (o : Option StorageLocation)
      → find_location k db.locations ≡ o
      → row_affects now token o ≡ true
      → ((finish_materialization now token k db).0 ≡ ok tt)
        × ((l : StorageLocation) × (find_location k db.locations ≡ some l)
            × (find_location k (finish_materialization now token k db).1.locations
                ≡ some (merged now l)))
  unfolding finish_materialization as_holder ◌>>=◌ pure raise update affects
  finish-found db none found h = cc
  finish-found db (some l) found h = (
    ground arith,
    (
      l,
      found,
      ground (
        arith,
        find_location-id k db.locations {l = l} found,
        find_location-update k k (is_holder now token) (merged now) (λ x. refl) db,
      ),
    ),
  )

  finish-lost :
      (db : Db) (o : Option StorageLocation)
      → find_location k db.locations ≡ o
      → row_affects now token o ≡ false
      → ((finish_materialization now token k db).0 ≡ err materialization_lease_lost)
        × (find_location k (finish_materialization now token k db).1.locations
            ≡ find_location k db.locations)
  unfolding finish_materialization as_holder ◌>>=◌ pure raise update affects
  finish-lost db none found h = (
    ground arith,
    ground (arith, find_location-update k k (is_holder now token) (merged now) (λ x. refl) db),
  )
  finish-lost db (some l) found h = (
    ground arith,
    ground (arith, find_location-update k k (is_holder now token) (merged now) (λ x. refl) db),
  )

  -- A token finishes a merge exactly where the location is leased to it until some time that has not
  -- come: the location is then marked merged at the time of the call, without a lease, and nobody's
  -- later acquisition of it succeeds or changes anything. Everywhere else the lease is reported as
  -- lost and the location's row stays as it was.
  pub finish_materialization-outcome :
      (s : Settings) (later other : ℕ) (db : Db)
      → (IsLive db
          × ((finish_materialization now token k db).0 ≡ ok tt)
          × ((l : StorageLocation) × (find_location k db.locations ≡ some l)
              × (find_location k (finish_materialization now token k db).1.locations
                  ≡ some (merged now l)))
          × (acquire_materialization s later other k (finish_materialization now token k db).1
              ≡ (err materialization_lease_held, (finish_materialization now token k db).1)))
        ⊎ ((¬ IsLive db)
            × ((finish_materialization now token k db).0 ≡ err materialization_lease_lost)
            × (find_location k (finish_materialization now token k db).1.locations
                ≡ find_location k db.locations))
  finish_materialization-outcome s later other db =
      elim (Bool-cases (row_affects now token (find_location k db.locations))) [
        | inl h ↦
            let (done, (l, found, after)) = finish-found db (find_location k db.locations) refl h in
            inl (
              row_expiry now token (find_location k db.locations) h,
              done,
              (l, found, after),
              acquire_materialization-merged s later other k
                  (finish_materialization now token k db).1 (merged now l) after refl,
            )
        | inr h ↦
            let (lost, same) = finish-lost db (find_location k db.locations) refl h in
            inr (
              (λ (expiry, alive, held).
                  cannot (row_is_held now token (find_location k db.locations) expiry alive held)
                    h),
              lost,
              same,
            )
      ]
    where
      cannot : {b : Bool} → b ≡ true → ¬ (b ≡ false)
      cannot t f = cc
