-- ===== src/Lifecycle/Exclusion/Histories.antt =====
-- A materialization lease through a history of requests, and at its end.
use git_hub_action_cache_ser.Prelude.{ℕ, ◌<◌, ◌≡◌, ◌≢◌, refl, true, some, List, All, arith, is_none}
use git_hub_action_cache_ser.Db.{Db, StorageLocation, find_location, affects, add_lease_version}
use git_hub_action_cache_ser.Db.Locations.{find_location-update}
use git_hub_action_cache_ser.Lifecycle.Tx.{
  err, materialization_lease_held, ◌>>=◌, gets, raise, update, transaction,
}
use git_hub_action_cache_ser.Lifecycle.Tx.Keeps.{Keeps, bind-Keeps, pure-Keeps}
use git_hub_action_cache_ser.Lifecycle.Fence.{Settings, active_materialization}
use git_hub_action_cache_ser.Lifecycle.Reader.{
  set_expiry, renew_reader, extend_direct_reader, release_reader, release_readers,
  purge_expired_reader_leases,
}
use git_hub_action_cache_ser.Lifecycle.Materialization.{
  acquire_found, acquire_materialization, has_token, renew_materialization, finish_materialization,
  mark_materialization_unsupported, release_materialization,
}
use git_hub_action_cache_ser.Lifecycle.Requests.{Request, serve_all}
use git_hub_action_cache_ser.Lifecycle.Requests.Laws.{Laws, serve_all-Keeps}
use git_hub_action_cache_ser.Lifecycle.Exclusion.{is_held_row, IsHeld}
use git_hub_action_cache_ser.Lifecycle.Exclusion.Statements.{
  update-IsHeld, bump-IsHeld, delete_entries-IsHeld, insert_lease-IsHeld, fence_unreferenced-IsHeld,
  claim_found-IsHeld, acquire_found-IsHeld, as_holder-IsHeld,
}

-- The request does not act with the token.
abbrev pub ActsWithout : ℕ → Request → Type 0
ActsWithout token (Request.renew_materialization t k) = t ≢ token
ActsWithout token (Request.finish_materialization t k) = t ≢ token
ActsWithout token (Request.mark_materialization_unsupported t k) = t ≢ token
ActsWithout token (Request.release_materialization t k) = t ≢ token
ActsWithout token _ = Unit

module _ (k token expiry : ℕ) where
  set_expiry-locations :
      (now id t : ℕ) (db : Db) → (set_expiry now id t db).1.locations ≡ db.locations
  unfolding set_expiry
  set_expiry-locations now id t db = ground arith

  set_expiry-IsHeld : (now id t : ℕ) → Keeps (IsHeld k token expiry) (set_expiry now id t)
  set_expiry-IsHeld now id t = record { apply = λ db h. rw (set_expiry-locations now id t db) h }

  not_token :
      (t : ℕ) (l : StorageLocation)
      → t ≢ token
      → is_held_row token expiry (some l) ≡ true
      → has_token t l ≡ true
      → ⊥
  not_token t l ne h e = ground arith

  release-IsHeld :
      (t j : ℕ) → t ≢ token → Keeps (IsHeld k token expiry) (release_materialization t j)
  unfolding release_materialization
  release-IsHeld t j ne =
      bind-Keeps
        (update-IsHeld k token expiry j (has_token t) _ (λ x. refl)
          (λ x h e. absurd (not_token t x ne h e)))
        (λ u. pure-Keeps _)

  IsHeld-Laws :
      (s : Settings) (now : ℕ)
      → now < expiry
      → Laws (IsHeld k token expiry) (ActsWithout token) s now
  unfolding renew_reader extend_direct_reader release_reader release_readers
      purge_expired_reader_leases renew_materialization finish_materialization
      mark_materialization_unsupported
  IsHeld-Laws s now alive = record {
    bump = bump-IsHeld k token expiry;
    entries = delete_entries-IsHeld k token expiry;
    fence = fence_unreferenced-IsHeld k token expiry s now alive;
    claim = claim_found-IsHeld k token expiry s now alive;
    insert = insert_lease-IsHeld k token expiry;
    merge = acquire_found-IsHeld k token expiry s now alive;
    expire = record { apply = λ db h. h };
    renew = λ id u. set_expiry-IsHeld now id _;
    extend = λ id u. set_expiry-IsHeld now id _;
    release = λ id u. record { apply = λ db h. h };
    release_all = λ ids u. record { apply = λ db h. h };
    renew_merge = λ t j ne. as_holder-IsHeld k token expiry now t j _ ne (λ l. refl);
    finish_merge = λ t j ne. as_holder-IsHeld k token expiry now t j _ ne (λ l. refl);
    mark_merge = λ t j ne. as_holder-IsHeld k token expiry now t j _ ne (λ l. refl);
    release_merge = λ t j ne. release-IsHeld t j ne;
  }

  -- A location leased for a merge keeps its row, its token and its expiry, and is not marked merged,
  -- through every history of requests that run before the expiry and do not act with the token,
  -- deletions of the location and other acquisitions among them.
  pub serve_all-IsHeld :
      (s : Settings) (qs : List (ℕ × Request)) (db : Db)
      → All (λ (tq : ℕ × Request). (tq.0 < expiry) × ActsWithout token tq.1) qs
      → IsHeld k token expiry db
      → IsHeld k token expiry (serve_all s qs db)
  serve_all-IsHeld s qs db = serve_all-Keeps s (λ t. t < expiry) (IsHeld-Laws s) qs db

  found_held :
      (db : Db)
      → IsHeld k token expiry db
      → (l : StorageLocation) × (find_location k db.locations ≡ some l)
        × (is_held_row token expiry (some l) ≡ true)
  found_held db h = ground arith

  -- While the lease has not expired, every other acquisition of the location is refused and changes
  -- nothing.
  pub acquire_materialization-held :
      (s : Settings) (now other : ℕ) (db : Db)
      → now < expiry
      → IsHeld k token expiry db
      → acquire_materialization s now other k db ≡ (err materialization_lease_held, db)
  unfolding acquire_materialization transaction ◌>>=◌ gets raise update affects acquire_found
      active_materialization
  acquire_materialization-held s now other db alive h = ground (
    arith,
    found_held db h,
    find_location-update k k (λ l. is_none l.deletion_requested_at) add_lease_version (λ l. refl)
        db,
  )
