-- ===== src/Capacity/Eviction.antt =====
-- The claim of a location by `RequestCapacityEviction` of internal/storagelifecycle/service.go.
pub mod Outcome
pub mod Counted
use git_hub_action_cache_ser.Prelude.{
  ℕ, ◌+◌, ◌≡◌, ◌↔◌, ◌⊎◌, inl, inr, refl, ap, sym, subst, ◌∙◌, Bool, true, false, Option, none, some,
  ◌==◌, List, is_some, same_optional, any, delete_where, any-delete_where_self,
  any-delete_where-false, Bool-cases, arith, ◌++◌, [], ◌∷◌, if◌then◌else◌,
}
use git_hub_action_cache_ser.Db.{
  Db, StorageLocation, find_location, has_entries, affects, add_lease_version, update_location,
  enqueue, delete_location,
}
use git_hub_action_cache_ser.Db.Locations.{find_location-update, find_location-id}
use git_hub_action_cache_ser.Lifecycle.Tx.{
  Action, Result, ok, ◌>>=◌, pure, gets, update, delete_entries, delete_leases, enqueue_task,
  delete_location_row, transaction,
}
use git_hub_action_cache_ser.Lifecycle.Fence.{
  Settings, DeletionResult, is_active, requested_at, untouched, fence_detached_location,
}
use git_hub_action_cache_ser.Lifecycle.Fence.Outcome.{
  is_busy, fence_outcome, fence_detached_location-outcome, fence_detached_location-tables,
}
use git_hub_action_cache_ser.Capacity.Statements.{StatementLaws, fence_unlocked-Keeps}
use git_hub_action_cache_ser.Lifecycle.Deletion.{
  CapacityObservation, CapacityEvictionResult, is_current, stale, size_or_zero, evict_claimed,
  detach_cache_entries_and_fence, request_capacity_eviction,
}

-- The location is as it was observed, with a size, and not marked for deletion.
abbrev pub IsAsObserved : CapacityObservation → StorageLocation → Type 0
IsAsObserved o l =
    (l.lease_version ≡ o.lease_version)
    × (l.deletion_requested_at ≡ none)
    × (is_some l.size_bytes ≡ true)
    × (l.recency_at ≡ o.recency_at)
    × (l.last_downloaded_at ≡ o.last_downloaded_at)

same_optional_iff : (x y : Option ℕ) → (same_optional x y ≡ true) ↔ (x ≡ y)
same_optional_iff none none = ground arith
same_optional_iff none (some b) = ground arith
same_optional_iff (some a) none = ground arith
same_optional_iff (some a) (some b) = ground arith

pub is_current_iff :
    (o : CapacityObservation) (l : StorageLocation) → (is_current o l ≡ true) ↔ IsAsObserved o l
unfolding is_current
is_current_iff o l = ground (arith, same_optional_iff l.last_downloaded_at o.last_downloaded_at)

bind-done :
    {A B : Type 0} (m : Action A) (f : A → Action B) (db : Db) (a : A)
    → (m db).0 ≡ ok a
    → (m >>= f) db ≡ f a (m db).1
unfolding ◌>>=◌
bind-done m f db a h = rw (h, ◌>>=◌) refl

pub transaction-done :
    {A : Type 0} (m : Action A) (db : Db) (a : A)
    → (m db).0 ≡ ok a
    → transaction m db ≡ (ok a, (m db).1)
unfolding transaction
transaction-done m db a h = rw (h, transaction) refl

-- No entry references the location, whatever an eviction does from then on.
module _ (now k : ℕ) where
  abbrev IsDetached : Db → Type 0
  IsDetached db = has_entries k db.entries ≡ false

  IsDetached-Laws : StatementLaws IsDetached now
  unfolding update update_location enqueue_task enqueue delete_entries delete_leases
      delete_location_row delete_location has_entries
  IsDetached-Laws = record {
    bump = λ j c. record { apply = λ db h. h };
    mark = λ j. record { apply = λ db h. h };
    entries = λ q. record {
      apply = λ db h. any-delete_where-false (λ e. e.location_id == k) q db.entries h;
    };
    leases = λ j. record { apply = λ db h. h };
    task = λ folder. record { apply = λ db h. h };
    row = λ j. record {
      apply = λ db h. ground (
        arith,
        any-delete_where-false (λ e. e.location_id == k) (λ e. e.location_id == j) db.entries,
      );
    };
  }

abbrev pub claimed_result : StorageLocation → CapacityEvictionResult
claimed_result l = record { claimed = true; pinned = false; size_bytes = size_or_zero l.size_bytes }

module _ (s : Settings) (now : ℕ) where
  -- What is left of a claimed location: its row with the mark while something holds it.
  abbrev pub claimed_row : StorageLocation → Db → Option StorageLocation
  claimed_row l db =
      if is_busy s now l db.leases
      then some (record l {
        lease_version = l.lease_version + 0;
        deletion_requested_at = some (requested_at now l);
      })
      else none

  abbrev without : ℕ → Db → Db
  without k db = record db { entries = delete_where (λ e. e.location_id == k) db.entries }

  fenced-true :
      (l : StorageLocation) (db : Db) (o : Option StorageLocation)
      → o ≡ some l
      → has_entries l.id db.entries ≡ false
      → (r : DeletionResult) × (fence_outcome s now l.id db o ≡ ok r) × (r.fenced ≡ true)
  fenced-true l db none h k = cc
  fenced-true l db (some m) h k = elim (Bool-cases (is_busy s now m db.leases)) [
    | inl e ↦ rw (k, e) (record untouched { fenced = true }, refl, refl)
    | inr e ↦ rw (k, e) (_, refl, refl)
  ]

  detached : (l : StorageLocation) (db : Db) → has_entries l.id (without l.id db).entries ≡ false
  unfolding has_entries
  detached l db = any-delete_where_self (λ e. e.location_id == l.id) db.entries

  detach_cache_entries_and_fence-without :
      (k : ℕ) (db : Db)
      → detach_cache_entries_and_fence s now k false db
        ≡ fence_detached_location s now k false (without k db)
  unfolding detach_cache_entries_and_fence delete_entries ◌>>=◌
  detach_cache_entries_and_fence-without k db = refl

  evict_claimed-fence :
      (l : StorageLocation) (db : Db) (r : DeletionResult)
      → any (is_active l.id now) db.leases ≡ false
      → (fence_detached_location s now l.id false (without l.id db)).0 ≡ ok r
      → r.fenced ≡ true
      → evict_claimed s now (some l) db
        ≡ (ok (claimed_result l), (fence_detached_location s now l.id false (without l.id db)).1)
  unfolding evict_claimed ◌>>=◌ gets pure
  evict_claimed-fence l db r free done fenced = rw free (
      bind-done (detach_cache_entries_and_fence s now l.id false)
        (λ result. pure (record {
          claimed = result.fenced;
          pinned = false;
          size_bytes = size_or_zero l.size_bytes;
        }))
        db r (ap (λ x. x.0) (detach_cache_entries_and_fence-without l.id db) ∙ done)
      ∙ settled)
    where
      settled :
          pure
            (record { claimed = r.fenced; pinned = false; size_bytes = size_or_zero l.size_bytes })
            (detach_cache_entries_and_fence s now l.id false db).1
          ≡ (ok (claimed_result l), (fence_detached_location s now l.id false (without l.id db)).1)
      settled = rw (fenced, detach_cache_entries_and_fence-without l.id db) refl

  -- What a claim gives: the result, the row and the entries afterwards.
  abbrev pub IsClaimed : StorageLocation → Db → Result CapacityEvictionResult × Db → Type 0
  IsClaimed l db x =
      (x.0 ≡ ok (claimed_result l))
      × (find_location l.id x.1.locations ≡ claimed_row l db)
      × (has_entries l.id x.1.entries ≡ false)

  -- The claim of a location without active readers.
  pub evict_claimed-free :
      (l : StorageLocation) (db : Db)
      → find_location l.id db.locations ≡ some l
      → any (is_active l.id now) db.leases ≡ false
      → IsClaimed l db (evict_claimed s now (some l) db)
  evict_claimed-free l db found free =
      let (r, outcome, fenced) =
        fenced-true l (without l.id db) (find_location l.id db.locations) found (detached l db) in
      let done = fence_detached_location-outcome s now l.id false (without l.id db) ∙ outcome in
      let (row, tasks) =
        fence_detached_location-tables s now l.id false (without l.id db) l found (detached l db) in
      subst (IsClaimed l db) (sym (evict_claimed-fence l db r free done fenced)) (
        refl,
        row,
        (fence_unlocked-Keeps s now (IsDetached-Laws now l.id) l.id).apply (without l.id db)
            (detached l db),
      )

  pub evict_claimed-pinned :
      (l : StorageLocation) (db : Db)
      → any (is_active l.id now) db.leases ≡ true
      → evict_claimed s now (some l) db ≡ (ok (record stale { pinned = true }), db)
  unfolding evict_claimed ◌>>=◌ gets pure
  evict_claimed-pinned l db busy = rw busy refl
