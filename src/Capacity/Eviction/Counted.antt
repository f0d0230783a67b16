-- ===== src/Capacity/Eviction/Counted.antt =====
-- What a pass of internal/storagecapacity/service.go counts for a candidate.
use git_hub_action_cache_ser.Prelude.{
  ℕ, ◌+◌, ◌-◌, ◌≡◌, inl, inr, refl, ap, subst, Bool, true, false, none, some, is_some, any,
}
use git_hub_action_cache_ser.Db.{Db, StorageLocation, find_location}
use git_hub_action_cache_ser.Lifecycle.Tx.{Result}
use git_hub_action_cache_ser.Lifecycle.Fence.{Settings, is_active}
use git_hub_action_cache_ser.Lifecycle.Deletion.{CapacityEvictionResult, size_or_zero}
use git_hub_action_cache_ser.Capacity.{
  CapacityResult, Pass, EnforceError, no_error, observation_of, evict, after_eviction,
  count_eviction,
}
use git_hub_action_cache_ser.Capacity.Eviction.{IsAsObserved}
use git_hub_action_cache_ser.Capacity.Eviction.Outcome.{
  IsEvictionOf, request_capacity_eviction-outcome,
}

-- A candidate's eviction is counted as what it was.
abbrev pub IsCountedAs : CapacityResult → StorageLocation → Bool → EnforceError × Pass → Type 0
IsCountedAs r c true x =
    (x.0 ≡ no_error)
    × (x.1.result
        ≡ record r { candidates = r.candidates + 1; pinned_locations = r.pinned_locations + 1 })
IsCountedAs r c false x =
    (x.0 ≡ no_error)
    × (x.1.result ≡ record r {
      candidates = r.candidates + 1;
      claimed_locations = r.claimed_locations + 1;
      claimed_bytes = r.claimed_bytes + size_or_zero c.size_bytes;
      usage_after_bytes = r.usage_after_bytes - size_or_zero c.size_bytes;
    })

module _ (s : Settings) (clock : ℕ → ℕ) (others : Db → Db) where
  observed_current :
      (c : StorageLocation)
      → c.deletion_requested_at ≡ none
      → is_some c.size_bytes ≡ true
      → IsAsObserved (observation_of c) c
  observed_current c open_row sized = (refl, open_row, sized, refl, refl)

  counted :
      (c : StorageLocation) (p : Pass)
      → find_location c.id (others p.db).locations ≡ some c
      → IsAsObserved (observation_of c) c
      → (x : Result CapacityEvictionResult × Db)
      → IsEvictionOf s (clock p.result.candidates) (observation_of c) (others p.db) x
      → IsCountedAs p.result c
          (any (is_active c.id (clock p.result.candidates)) (others p.db).leases)
          (after_eviction c p x)
  unfolding after_eviction count_eviction IsEvictionOf
  counted c p found observed (r, db) (inl (missing, done, row, kept)) =
      absurd (missing (c, found, observed))
  counted c p found observed (r, db) (inr (l, found', obs, inl (busy, done, row, kept))) =
      let busy' =
        subst (λ m. any (is_active m.id (clock p.result.candidates)) (others p.db).leases ≡ true)
          (unique l found') busy in
      rw (busy', done) (refl, refl)
    where
      unique : (l : StorageLocation) → find_location c.id (others p.db).locations ≡ some l → l ≡ c
      unique l h = cc
  counted c p found observed (r, db) (inr (l, found', obs, inr (free, (done, row, gone)))) =
      let free' =
        subst (λ m. any (is_active m.id (clock p.result.candidates)) (others p.db).leases ≡ false)
          (unique l found') free in
      let size : size_or_zero l.size_bytes ≡ size_or_zero c.size_bytes =
        ap (λ m. size_or_zero m.size_bytes) (unique l found') in
      rw (free', done) (rw size (refl, refl))
    where
      unique : (l : StorageLocation) → find_location c.id (others p.db).locations ≡ some l → l ≡ c
      unique l h = cc

  -- A candidate that the other transactions have left as it was on its page is never stale: it counts
  -- as pinned exactly where it has an active reader at the time of its eviction, and else as claimed,
  -- with its size taken off the usage.
  pub evict-IsCountedAs :
      (c : StorageLocation) (p : Pass)
      → find_location c.id (others p.db).locations ≡ some c
      → c.deletion_requested_at ≡ none
      → is_some c.size_bytes ≡ true
      → IsCountedAs p.result c
          (any (is_active c.id (clock p.result.candidates)) (others p.db).leases)
          (evict s clock others c p)
  unfolding evict
  evict-IsCountedAs c p found open_row sized =
      counted c p found (observed_current c open_row sized) _ (
        request_capacity_eviction-outcome s (clock p.result.candidates) (observation_of c)
          (others p.db))
