-- ===== src/Capacity/Accounting.antt =====
-- The counts and sums of a pass of internal/storagecapacity/service.go.
use git_hub_action_cache_ser.Prelude.{
  ℕ, zero, suc, ◌+◌, ◌-◌, ◌*◌, ◌/◌, ◌≡◌, ◌≢◌, refl, Bool, true, false, not, ◌&&◌, ◌||◌, Option,
  none, some, List, [], ◌∷◌, if-cases, ltb, leb, ◌==◌, any, arith, is_some,
}
use git_hub_action_cache_ser.Prelude.Int.{ℤ, pos, negsuc}
use git_hub_action_cache_ser.Db.{Db, StorageLocation}
use git_hub_action_cache_ser.Lifecycle.Tx.{Result, ok, err}
use git_hub_action_cache_ser.Lifecycle.Fence.{Settings}
use git_hub_action_cache_ser.Lifecycle.Deletion.{CapacityEvictionResult, request_capacity_eviction}
use git_hub_action_cache_ser.Capacity.{
  capacity_candidates, observation_of, add_candidate, count_eviction, has_reached, after_eviction,
  Pass, after_eviction, evict, next_candidate, evict_page, after_page, next_page, evict_pages,
  finish_pass, enforce_budget, enforce, is_unresolved,
}
use git_hub_action_cache_ser.Capacity.Usage.{
  EnforceError, no_error, unresolved_sizes, usage_failed, invalid_usage, budget_range,
  eviction_failed, out_of_rounds, Mode, CapacityResult, CapacityService, FilesystemUsage,
  ratio_floor, new_usage_result, usage_within, filesystem_usage_result, adapter_budget, explicit,
  filesystem, current_budget_usage,
}

-- A candidate whose eviction failed is counted, but not as what became of it.
abbrev pub failed_count : EnforceError → ℕ
failed_count eviction_failed = 1
failed_count no_error = 0
failed_count unresolved_sizes = 0
failed_count usage_failed = 0
failed_count invalid_usage = 0
failed_count budget_range = 0
failed_count out_of_rounds = 0

-- The usage after the pass is the one before it less the claimed bytes, every candidate is claimed,
-- pinned, stale or the one whose eviction failed, and the target is nine tenths of the budget.
abbrev pub IsCounted : EnforceError → CapacityResult → Type 0
IsCounted e r =
    (r.usage_after_bytes ≡ r.usage_before_bytes - r.claimed_bytes)
    × (r.candidates ≡ r.claimed_locations + r.pinned_locations + r.stale_locations + failed_count e)
    × (r.target_bytes ≡ r.budget_bytes * 9 / 10)

abbrev IsOver : EnforceError → CapacityResult → Type 0
IsOver e r = IsCounted e r × (ltb r.budget_bytes r.usage_before_bytes ≡ true)

abbrev IsPassCounted : EnforceError × Pass → Type 0
IsPassCounted (e, p) = IsOver e p.result

ratio_floor-tenths : (n : ℕ) → ratio_floor n 9 10 ≡ n * 9 / 10
unfolding ratio_floor
ratio_floor-tenths n = omega arith

count_eviction-IsOver :
    (e : CapacityEvictionResult) (r : CapacityResult)
    → IsOver no_error r
    → IsOver no_error (count_eviction e (add_candidate r))
unfolding count_eviction
count_eviction-IsOver e r ((h, k, t), o) =
    if-cases (IsOver no_error) e.claimed _ _ (λ c. ((omega arith, omega arith, t), o))
      (λ c.
        if-cases (IsOver no_error) e.pinned _ _ (λ q. ((h, omega arith, t), o))
          (λ q. ((h, omega arith, t), o)))

next_candidate-IsPassCounted :
    (x : EnforceError × Pass) (again : Pass → EnforceError × Pass)
    → IsPassCounted x
    → ((p : Pass) → IsPassCounted (no_error, p) → IsPassCounted (again p))
    → IsPassCounted (next_candidate x again)
unfolding next_candidate
next_candidate-IsPassCounted (no_error, p) again h g =
    if-cases IsPassCounted (has_reached p.result) _ _ (λ e. h) (λ e. g p h)
next_candidate-IsPassCounted (unresolved_sizes, p) again h g = h
next_candidate-IsPassCounted (usage_failed, p) again h g = h
next_candidate-IsPassCounted (invalid_usage, p) again h g = h
next_candidate-IsPassCounted (budget_range, p) again h g = h
next_candidate-IsPassCounted (eviction_failed, p) again h g = h
next_candidate-IsPassCounted (out_of_rounds, p) again h g = h

after_page-IsPassCounted :
    (x : EnforceError × Pass) (again : Pass → EnforceError × Pass)
    → IsPassCounted x
    → ((p : Pass) → IsPassCounted (no_error, p) → IsPassCounted (again p))
    → IsPassCounted (after_page x again)
unfolding after_page
after_page-IsPassCounted (no_error, p) again h g = g p h
after_page-IsPassCounted (unresolved_sizes, p) again h g = h
after_page-IsPassCounted (usage_failed, p) again h g = h
after_page-IsPassCounted (invalid_usage, p) again h g = h
after_page-IsPassCounted (budget_range, p) again h g = h
after_page-IsPassCounted (eviction_failed, p) again h g = h
after_page-IsPassCounted (out_of_rounds, p) again h g = h

-- Whether a result is constrained: over the budget before, and over the target after.
abbrev pub is_constrained : CapacityResult → Bool
is_constrained r = ltb r.budget_bytes r.usage_before_bytes && ltb r.target_bytes r.usage_after_bytes

abbrev pub IsAccounted : EnforceError × CapacityResult × Db → Type 0
IsAccounted (no_error, r, db) = IsCounted no_error r × (r.constrained ≡ is_constrained r)
IsAccounted (e, r, db) = IsCounted e r

-- What a pass starts from.
abbrev pub IsStart : EnforceError × CapacityResult → Type 0
IsStart (no_error, r) =
    (r.claimed_bytes ≡ 0)
    × (r.candidates ≡ r.claimed_locations + r.pinned_locations + r.stale_locations)
    × (r.target_bytes ≡ r.budget_bytes * 9 / 10)
    × (r.constrained ≡ false)
IsStart (e, r) = (failed_count e ≡ 0) × (e ≢ out_of_rounds)

new_usage_result-IsStart :
    (mode : Mode) (budget usage credit : ℕ)
    → IsStart (no_error, new_usage_result mode budget usage credit)
unfolding new_usage_result
new_usage_result-IsStart mode budget usage credit =
    (refl, omega arith, ratio_floor-tenths budget, refl)

usage_within-IsStart : (used credit : ℕ) (o : Option ℕ) → IsStart (usage_within used credit o)
unfolding usage_within
usage_within-IsStart used credit none = (refl, λ q. cc)
usage_within-IsStart used credit (some b) =
    new_usage_result-IsStart filesystem b (used - credit) credit

filesystem_usage_result-IsStart :
    (v : CapacityService) (capacity used : ℤ) (credit : ℕ)
    → IsStart (filesystem_usage_result v capacity used credit)
unfolding filesystem_usage_result
filesystem_usage_result-IsStart v (negsuc n) used credit = (refl, λ q. cc)
filesystem_usage_result-IsStart v (pos n) (negsuc m) credit = (refl, λ q. cc)
filesystem_usage_result-IsStart v (pos n) (pos m) credit =
    if-cases IsStart (n == 0) _ _ (λ e. (refl, λ q. cc))
      (λ e. usage_within-IsStart m credit (v.percentage_bytes n))

adapter_budget-IsStart :
    (v : CapacityService) (o : Option (Option FilesystemUsage)) (db : Db)
    → IsStart (adapter_budget v o db)
unfolding adapter_budget
adapter_budget-IsStart v none db = (refl, refl, omega arith, refl)
adapter_budget-IsStart v (some none) db = (refl, λ q. cc)
adapter_budget-IsStart v (some (some u)) db =
    filesystem_usage_result-IsStart v u.capacity_bytes u.used_bytes _

pub current_budget_usage-IsStart :
    (v : CapacityService) (db : Db) → IsStart (current_budget_usage v db)
unfolding current_budget_usage
current_budget_usage-IsStart v db =
    if-cases IsStart v.explicit_budget _ _
      (λ e. new_usage_result-IsStart explicit v.explicit_budget_bytes _ 0)
      (λ e. adapter_budget-IsStart v v.filesystem_usage db)

finish_pass-IsAccounted : (x : EnforceError × Pass) → IsPassCounted x → IsAccounted (finish_pass x)
unfolding finish_pass
finish_pass-IsAccounted (no_error, p) (h, o) = (h, ground arith)
finish_pass-IsAccounted (unresolved_sizes, p) (h, o) = h
finish_pass-IsAccounted (usage_failed, p) (h, o) = h
finish_pass-IsAccounted (invalid_usage, p) (h, o) = h
finish_pass-IsAccounted (budget_range, p) (h, o) = h
finish_pass-IsAccounted (eviction_failed, p) (h, o) = h
finish_pass-IsAccounted (out_of_rounds, p) (h, o) = h

after_eviction-IsPassCounted :
    (c : StorageLocation) (p : Pass) (x : Result CapacityEvictionResult × Db)
    → IsPassCounted (no_error, p)
    → IsPassCounted (after_eviction c p x)
unfolding after_eviction
after_eviction-IsPassCounted c p (ok e, db) h = count_eviction-IsOver e p.result h
after_eviction-IsPassCounted c p (err e, db) ((h, k, t), o) = ((h, omega arith, t), o)

module _ (s : Settings) (clock : ℕ → ℕ) (others : Db → Db) where
  evict-IsPassCounted :
      (c : StorageLocation) (p : Pass)
      → IsPassCounted (no_error, p)
      → IsPassCounted (evict s clock others c p)
  unfolding evict
  evict-IsPassCounted c p h =
      after_eviction-IsPassCounted c p
        (request_capacity_eviction s (clock p.result.candidates) (observation_of c) (others p.db)) h

  evict_page-IsPassCounted :
      (cs : List StorageLocation) (p : Pass)
      → IsPassCounted (no_error, p)
      → IsPassCounted (evict_page s clock others cs p)
  unfolding evict_page
  evict_page-IsPassCounted [] p h = h
  evict_page-IsPassCounted (c ∷ cs) p h =
      next_candidate-IsPassCounted (evict s clock others c p) _ (evict-IsPassCounted c p h)
        (evict_page-IsPassCounted cs)

  next_page-IsPassCounted :
      (cs : List StorageLocation) (p : Pass) (again : Pass → EnforceError × Pass)
      → IsPassCounted (no_error, p)
      → ((p : Pass) → IsPassCounted (no_error, p) → IsPassCounted (again p))
      → IsPassCounted (next_page s clock others cs p again)
  unfolding next_page
  next_page-IsPassCounted [] p again h g = h
  next_page-IsPassCounted (c ∷ cs) p again h g =
      after_page-IsPassCounted (evict_page s clock others (c ∷ cs) p) again
        (evict_page-IsPassCounted (c ∷ cs) p h) g

  evict_pages-IsPassCounted :
      (rounds : ℕ) (p : Pass)
      → IsPassCounted (no_error, p)
      → IsPassCounted (evict_pages s clock others rounds p)
  unfolding evict_pages
  evict_pages-IsPassCounted zero p h = h
  evict_pages-IsPassCounted (suc rounds) p h =
      if-cases IsPassCounted (has_reached p.result) _ _ (λ e. h)
        (λ e.
          next_page-IsPassCounted (capacity_candidates p.cursor (others p.db))
            (record p { db = others p.db }) _ h (evict_pages-IsPassCounted rounds))

  enforce_budget-IsAccounted :
      (x : EnforceError × CapacityResult) (db : Db)
      → IsStart x
      → IsAccounted (enforce_budget s clock others x db)
  unfolding enforce_budget
  enforce_budget-IsAccounted (no_error, r) db (z, k, t, c) =
      if-cases IsAccounted (leb r.usage_before_bytes r.budget_bytes) _ _
        (λ e. ((omega arith, omega arith, t), ground arith))
        (λ e. finish_pass-IsAccounted _ (
          evict_pages-IsPassCounted _ _
            ((omega arith, omega arith, t), over r.usage_before_bytes r.budget_bytes e)))
    where
      over : (n m : ℕ) → leb n m ≡ false → ltb m n ≡ true
      over n m e = ground arith
  enforce_budget-IsAccounted (unresolved_sizes, r) db h = (refl, refl, omega arith)
  enforce_budget-IsAccounted (usage_failed, r) db h = (refl, refl, omega arith)
  enforce_budget-IsAccounted (invalid_usage, r) db h = (refl, refl, omega arith)
  enforce_budget-IsAccounted (budget_range, r) db h = (refl, refl, omega arith)
  enforce_budget-IsAccounted (eviction_failed, r) db (h, k) = cc
  enforce_budget-IsAccounted (out_of_rounds, r) db h = (refl, refl, omega arith)

  -- Whatever other transactions do during the pass, at each end of it, errors included: the usage
  -- after the pass is the one before less the claimed bytes, but not below 0; each candidate is
  -- claimed, pinned or stale, but for the one whose eviction failed; the target is nine tenths of the
  -- budget; and without an error the result is constrained exactly where the usage was over the
  -- budget and is over the target still.
  pub enforce-IsAccounted :
      (v : CapacityService) (db : Db) → IsAccounted (enforce s clock others v db)
  unfolding enforce
  enforce-IsAccounted v db =
      if-cases IsAccounted (not (v.explicit_budget || is_some v.filesystem_usage)) _ _
        (λ e. ((refl, refl, omega arith), refl))
        (λ e.
          if-cases IsAccounted (any is_unresolved db.locations) _ _ (λ u. (refl, refl, omega arith))
            (λ u.
              enforce_budget-IsAccounted (current_budget_usage v db) db
                (current_budget_usage-IsStart v db)))
