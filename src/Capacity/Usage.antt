-- ===== src/Capacity/Usage.antt =====
-- The usage and the budget of internal/storagecapacity/service.go, `currentBudgetUsage`, and the results of
-- a pass. The usage of the file system and the percentage of its capacity, a product of floating-point
-- numbers, are parameters.
use git_hub_action_cache_ser.Prelude.{
  ℕ, ◌+◌, ◌-◌, ◌*◌, ◌/◌, ◌%◌, Bool, false, Option, none, some, List, [], ◌∷◌, if◌then◌else◌, ◌==◌,
  is_none, is_some,
}
use git_hub_action_cache_ser.Prelude.Int.{ℤ, pos, negsuc}
use git_hub_action_cache_ser.Db.{Db, StorageLocation}

pub data Mode : Type 0 where
  no_mode explicit filesystem : Mode

pub data EnforceError : Type 0 where
  no_error unresolved_sizes usage_failed invalid_usage budget_range eviction_failed : EnforceError
  out_of_rounds : EnforceError

pub record CapacityResult : Type 0 where
  pub mode : Mode
  pub budget_bytes : ℕ
  pub target_bytes : ℕ
  pub usage_before_bytes : ℕ
  pub usage_after_bytes : ℕ
  pub pending_credit_bytes : ℕ
  pub candidates : ℕ
  pub claimed_locations : ℕ
  pub claimed_bytes : ℕ
  pub pinned_locations : ℕ
  pub stale_locations : ℕ
  pub unresolved_locations : ℕ
  pub constrained : Bool

pub record FilesystemUsage : Type 0 where
  pub capacity_bytes : ℤ
  pub used_bytes : ℤ

-- `Service`: the adapter's usage is missing where the storage is no file system, and its call may
-- fail; `percentage_bytes` is the budget of a capacity.
pub record CapacityService : Type 0 where
  pub explicit_budget : Bool
  pub explicit_budget_bytes : ℕ
  pub filesystem_usage : Option (Option FilesystemUsage)
  pub percentage_bytes : ℕ → Option ℕ

abbrev pub empty_result : CapacityResult
empty_result = record {
  mode = no_mode;
  budget_bytes = 0;
  target_bytes = 0;
  usage_before_bytes = 0;
  usage_after_bytes = 0;
  pending_credit_bytes = 0;
  candidates = 0;
  claimed_locations = 0;
  claimed_bytes = 0;
  pinned_locations = 0;
  stale_locations = 0;
  unresolved_locations = 0;
  constrained = false;
}

unfoldable pub ratio_floor : ℕ → ℕ → ℕ → ℕ
ratio_floor value numerator denominator =
    value / denominator * numerator + value % denominator * numerator / denominator

-- `newUsageResult`
unfoldable pub new_usage_result : Mode → ℕ → ℕ → ℕ → CapacityResult
new_usage_result mode budget usage pending_credit = record empty_result {
  mode = mode;
  budget_bytes = budget;
  target_bytes = ratio_floor budget 9 10;
  usage_before_bytes = usage;
  pending_credit_bytes = pending_credit;
}

-- `sumLocationSizes` of the locations that a query meets: null sizes do not count.
unfoldable pub sum_location_sizes : (StorageLocation → Bool) → List StorageLocation → ℕ
sum_location_sizes q [] = 0
sum_location_sizes q (l ∷ ls) =
    (if q l then elim l.size_bytes [ none ↦ 0 | some n ↦ n ] else 0) + sum_location_sizes q ls

abbrev pub is_requested : StorageLocation → Bool
is_requested l = is_some l.deletion_requested_at

abbrev pub is_kept : StorageLocation → Bool
is_kept l = is_none l.deletion_requested_at

unfoldable pub usage_within : ℕ → ℕ → Option ℕ → EnforceError × CapacityResult
usage_within used credit none = (budget_range, empty_result)
usage_within used credit (some budget) =
    (no_error, new_usage_result filesystem budget (used - credit) credit)

unfoldable pub filesystem_usage_result : CapacityService → ℤ → ℤ → ℕ → EnforceError × CapacityResult
filesystem_usage_result v (negsuc n) used credit = (invalid_usage, empty_result)
filesystem_usage_result v (pos capacity) (negsuc n) credit = (invalid_usage, empty_result)
filesystem_usage_result v (pos capacity) (pos used) credit =
    if capacity == 0
    then (invalid_usage, empty_result)
    else usage_within used credit (v.percentage_bytes capacity)

abbrev pub filesystem_budget :
    CapacityService → Option FilesystemUsage → Db → EnforceError × CapacityResult
filesystem_budget v none db = (usage_failed, empty_result)
filesystem_budget v (some u) db =
    filesystem_usage_result v u.capacity_bytes u.used_bytes
      (sum_location_sizes is_requested db.locations)

unfoldable pub adapter_budget :
    CapacityService → Option (Option FilesystemUsage) → Db → EnforceError × CapacityResult
adapter_budget v none db = (no_error, empty_result)
adapter_budget v (some u) db = filesystem_budget v u db

-- `currentBudgetUsage`
unfoldable pub current_budget_usage : CapacityService → Db → EnforceError × CapacityResult
current_budget_usage v db =
    if v.explicit_budget
    then (
      no_error,
      new_usage_result explicit v.explicit_budget_bytes (sum_location_sizes is_kept db.locations) 0,
    )
    else adapter_budget v v.filesystem_usage db
