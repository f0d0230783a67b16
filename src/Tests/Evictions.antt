-- ===== src/Tests/Evictions.antt =====
-- A pass of the capacity service over two locations, the older one with an active reader.
use git_hub_action_cache_ser.Prelude.{
  ◌+◌, ◌≡◌, ◌≢◌, refl, true, false, none, some, [], ◌∷◌, any, find, update_where, delete_where,
}
use git_hub_action_cache_ser.Db.{
  Db, codes, StorageLocation, find_location, affects, update_location, delete_location, enqueue,
  has_entries,
}
use git_hub_action_cache_ser.Lifecycle.Tx.{
  ◌>>=◌, pure, gets, update, transaction, delete_entries, delete_leases, enqueue_task,
  delete_location_row,
}
use git_hub_action_cache_ser.Lifecycle.Fence.{
  is_active, is_expired, active_materialization, fence_detached_location, fence_unreferenced,
  fence_found, fence_marked, finalize,
}
use git_hub_action_cache_ser.Lifecycle.Deletion.{
  request_capacity_eviction, evict_claimed, detach_cache_entries_and_fence, is_current,
}
use git_hub_action_cache_ser.Capacity.{
  enforce, enforce_budget, finish_pass, evict_pages, next_page, after_page, evict_page,
  next_candidate, evict, after_eviction, count_eviction, capacity_candidates, ordered_where,
  insert_ordered, comes_first, is_candidate, is_after, alone, Pass, observation_of,
}
use git_hub_action_cache_ser.Capacity.Usage.{
  CapacityService, empty_result, explicit, no_error, out_of_rounds, current_budget_usage,
  new_usage_result, ratio_floor, sum_location_sizes,
}
use git_hub_action_cache_ser.Capacity.Accounting.{IsAccounted, enforce-IsAccounted}
use git_hub_action_cache_ser.Capacity.Eviction.Outcome.{
  IsEvictionOf, request_capacity_eviction-outcome,
}
use git_hub_action_cache_ser.Capacity.Eviction.Counted.{IsCountedAs, evict-IsCountedAs}
use git_hub_action_cache_ser.Capacity.Rounds.{enforce-rounds}
use git_hub_action_cache_ser.Tests.Services.{settings, location, lease, entry}

abbrev idle_location : StorageLocation
idle_location = record location {
  id = 8;
  folder_name = codes "idle";
  size_bytes = some 40;
  recency_at = 600;
  merge_lease_token = none;
  merge_started_at = none;
  merged_at = some 700;
}

abbrev tables : Db
tables = record {
  locations = idle_location ∷ location ∷ [];
  entries = entry ∷ record entry { id = 4; location_id = 8 } ∷ [];
  leases = lease ∷ [];
  uploads = [];
  deletions = [];
  next_deletion = 1;
}

-- A budget of twenty bytes.
abbrev small : CapacityService
small = record {
  explicit_budget = true;
  explicit_budget_bytes = 20;
  filesystem_usage = none;
  percentage_bytes = λ n. none;
}

-- The reader pins the older location; the other one is claimed, and the target of eighteen bytes is
-- not reached.
enforce-run :
    ((enforce settings (λ i. 1000 + i) alone small tables).0 ≡ no_error)
    × ((enforce settings (λ i. 1000 + i) alone small tables).1 ≡ record {
      mode = explicit;
      budget_bytes = 20;
      target_bytes = 18;
      usage_before_bytes = 70;
      usage_after_bytes = 30;
      pending_credit_bytes = 0;
      candidates = 2;
      claimed_locations = 1;
      claimed_bytes = 40;
      pinned_locations = 1;
      stale_locations = 0;
      unresolved_locations = 0;
      constrained = true;
    })
unfolding enforce enforce_budget finish_pass evict_pages next_page after_page evict_page
    next_candidate evict after_eviction count_eviction capacity_candidates ordered_where
    insert_ordered comes_first is_candidate is_after current_budget_usage new_usage_result
    ratio_floor sum_location_sizes request_capacity_eviction evict_claimed
    detach_cache_entries_and_fence is_current ◌>>=◌ pure gets update transaction delete_entries
    delete_leases enqueue_task delete_location_row is_active is_expired active_materialization
    fence_detached_location fence_unreferenced fence_found fence_marked finalize find_location
    affects update_location delete_location enqueue has_entries any find update_where delete_where
enforce-run = (refl, refl)

enforce-IsAccounted_example : IsAccounted (enforce settings (λ i. 1000 + i) alone small tables)
enforce-IsAccounted_example = enforce-IsAccounted settings (λ i. 1000 + i) alone small tables

enforce-rounds_example : (enforce settings (λ i. 1000 + i) alone small tables).0 ≢ out_of_rounds
enforce-rounds_example = enforce-rounds settings (λ i. 1000 + i) small tables

abbrev first_pass : Pass
first_pass = record { result = empty_result; cursor = none; db = tables }

request_capacity_eviction-outcome_example :
    IsEvictionOf settings 1000
      (observation_of idle_location)
      tables
      (request_capacity_eviction settings 1000 (observation_of idle_location) tables)
request_capacity_eviction-outcome_example =
    request_capacity_eviction-outcome settings 1000 (observation_of idle_location) tables

evict-IsCountedAs_example :
    IsCountedAs empty_result idle_location false
      (evict settings (λ i. 1000) alone idle_location first_pass)
unfolding find_location any is_active
evict-IsCountedAs_example =
    evict-IsCountedAs settings (λ i. 1000) alone idle_location first_pass refl refl refl
