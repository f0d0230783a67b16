-- ===== src/Capacity.antt =====
-- internal/storagecapacity/service.go: the eviction of the least recently used locations when the
-- stored payloads, or the files of the file system, pass their budget. Each eviction is the
-- transaction of the lifecycle service; `others` is what other transactions do to the tables before it, and
-- before each query for a page; `clock` is the time of each eviction, by the candidates before it.
-- Usage and counts are not below 0, and sums stay within 64 bits.
pub mod Usage
pub mod Eviction
pub mod Accounting
pub mod Ordering
pub mod Rounds
pub mod Counts
pub mod Statements
use git_hub_action_cache_ser.Prelude.{
  ℕ, zero, suc, ◌+◌, ◌-◌, ◌*◌, ◌/◌, ◌%◌, Bool, true, false, not, ◌&&◌, ◌||◌, Option, none, some,
  List, [], ◌∷◌, if◌then◌else◌, ltb, leb, ◌==◌, is_none, is_some, length, take, any, delete_where,
}
use git_hub_action_cache_ser.Prelude.Int.{ℤ, pos, negsuc}
use git_hub_action_cache_ser.Db.{Db, StorageLocation, has_entries}
use git_hub_action_cache_ser.Lifecycle.Tx.{Result, ok, err}
use git_hub_action_cache_ser.Lifecycle.Fence.{Settings}
use git_hub_action_cache_ser.Lifecycle.Deletion.{
  CapacityObservation, CapacityEvictionResult, request_capacity_eviction,
}
use git_hub_action_cache_ser.Capacity.Usage.{
  Mode, EnforceError, CapacityResult, FilesystemUsage, CapacityService, empty_result, ratio_floor,
  new_usage_result, sum_location_sizes, is_requested, is_kept, usage_within,
  filesystem_usage_result, filesystem_budget, adapter_budget, current_budget_usage, no_mode,
  explicit, filesystem, no_error, unresolved_sizes, usage_failed, invalid_usage, budget_range,
  eviction_failed, out_of_rounds,
}

pub record CapacityCursor : Type 0 where
  pub recency : ℕ
  pub location_id : ℕ

-- The rows of the query in `capacityCandidates`.
unfoldable pub is_after : Option CapacityCursor → StorageLocation → Bool
is_after none l = true
is_after (some c) l =
    leb c.recency l.recency_at && (ltb c.recency l.recency_at || ltb c.location_id l.id)

unfoldable pub is_candidate : Db → Option CapacityCursor → StorageLocation → Bool
is_candidate db cursor l =
    is_none l.deletion_requested_at
    && is_some l.size_bytes
    && has_entries l.id db.entries
    && is_after cursor l

-- `Order(ByRecencyAt(), ByID())`
unfoldable pub comes_first : StorageLocation → StorageLocation → Bool
comes_first l m = ltb l.recency_at m.recency_at || (l.recency_at == m.recency_at && leb l.id m.id)

unfoldable pub insert_ordered : StorageLocation → List StorageLocation → List StorageLocation
insert_ordered l [] = l ∷ []
insert_ordered l (m ∷ ms) =
    let rest = insert_ordered l ms in if comes_first l m then l ∷ m ∷ ms else m ∷ rest

unfoldable pub ordered_where :
    (StorageLocation → Bool) → List StorageLocation → List StorageLocation
ordered_where q [] = []
ordered_where q (l ∷ ls) =
    let rest = ordered_where q ls in if q l then insert_ordered l rest else rest

abbrev pub candidate_page_size : ℕ
candidate_page_size = 50

-- `capacityCandidates`
unfoldable pub capacity_candidates : Option CapacityCursor → Db → List StorageLocation
capacity_candidates cursor db =
    take candidate_page_size (ordered_where (is_candidate db cursor) db.locations)

abbrev pub observation_of : StorageLocation → CapacityObservation
observation_of l = record {
  location_id = l.id;
  lease_version = l.lease_version;
  last_downloaded_at = l.last_downloaded_at;
  recency_at = l.recency_at;
}

abbrev pub cursor_of : StorageLocation → Option CapacityCursor
cursor_of l = some (record { recency = l.recency_at; location_id = l.id })

-- The counts of a candidate, and of what became of it.
abbrev pub add_candidate : CapacityResult → CapacityResult
add_candidate r = record r { candidates = r.candidates + 1 }

unfoldable pub count_eviction : CapacityEvictionResult → CapacityResult → CapacityResult
count_eviction e r =
    if e.claimed
    then record r {
      claimed_locations = r.claimed_locations + 1;
      claimed_bytes = r.claimed_bytes + e.size_bytes;
      usage_after_bytes = r.usage_after_bytes - e.size_bytes;
    }
    else if e.pinned
    then record r { pinned_locations = r.pinned_locations + 1 }
    else record r { stale_locations = r.stale_locations + 1 }

abbrev pub has_reached : CapacityResult → Bool
has_reached r = leb r.usage_after_bytes r.target_bytes

-- A pass through the candidates, with what it has counted and its place.
pub record Pass : Type 0 where
  pub result : CapacityResult
  pub cursor : Option CapacityCursor
  pub db : Db

-- What follows a candidate: an error and a usage that is low enough end the page.
unfoldable pub next_candidate :
    EnforceError × Pass → (Pass → EnforceError × Pass) → EnforceError × Pass
next_candidate (no_error, p) again =
    let rest = again p in if has_reached p.result then (no_error, p) else rest
next_candidate (e, p) again = (e, p)

unfoldable pub after_page : EnforceError × Pass → (Pass → EnforceError × Pass) → EnforceError × Pass
after_page (no_error, p) again = again p
after_page (e, p) again = (e, p)

abbrev pub start_pass : CapacityResult → Db → Pass
start_pass r db = record {
  result = record r { usage_after_bytes = r.usage_before_bytes };
  cursor = none;
  db = db;
}

unfoldable pub finish_pass : EnforceError × Pass → EnforceError × CapacityResult × Db
finish_pass (no_error, p) = (
  no_error,
  record p.result { constrained = ltb p.result.target_bytes p.result.usage_after_bytes },
  p.db,
)
finish_pass (e, p) = (e, p.result, p.db)

abbrev pub is_unresolved : StorageLocation → Bool
is_unresolved l = is_none l.deletion_requested_at && is_none l.size_bytes

unfoldable pub after_eviction :
    StorageLocation → Pass → Result CapacityEvictionResult × Db → EnforceError × Pass
after_eviction c p (err e, db) =
    (eviction_failed, record { result = add_candidate p.result; cursor = cursor_of c; db = db })
after_eviction c p (ok e, db) = (
  no_error,
  record { result = count_eviction e (add_candidate p.result); cursor = cursor_of c; db = db },
)

-- No other transaction runs between those of the pass.
abbrev pub alone : Db → Db
alone db = db

module _ (s : Settings) (clock : ℕ → ℕ) (others : Db → Db) where
  -- A candidate's eviction, with its counts.
  unfoldable pub evict : StorageLocation → Pass → EnforceError × Pass
  evict c p =
      after_eviction c p
        (request_capacity_eviction s (clock p.result.candidates) (observation_of c) (others p.db))

  -- The inner loop of `Enforce`.
  unfoldable pub evict_page : List StorageLocation → Pass → EnforceError × Pass
  evict_page [] p = (no_error, p)
  evict_page (c ∷ cs) p = next_candidate (evict c p) (evict_page cs)

  unfoldable pub next_page :
      List StorageLocation → Pass → (Pass → EnforceError × Pass) → EnforceError × Pass
  next_page [] p again = (no_error, p)
  next_page (c ∷ cs) p again = after_page (evict_page (c ∷ cs) p) again

  -- The outer loop, with the rounds that remain.
  unfoldable pub evict_pages : ℕ → Pass → EnforceError × Pass
  evict_pages zero p = (out_of_rounds, p)
  evict_pages (suc rounds) p =
      let q : Pass = record p { db = others p.db } in
      let rest = next_page (capacity_candidates q.cursor q.db) q (evict_pages rounds) in
      if has_reached p.result then (no_error, p) else rest

  -- `Enforce` from the usage on; there is a round for each location, and one for the last page.
  unfoldable pub enforce_budget :
      EnforceError × CapacityResult → Db → EnforceError × CapacityResult × Db
  enforce_budget (no_error, r) db =
      if leb r.usage_before_bytes r.budget_bytes
      then (no_error, (start_pass r db).result, db)
      else finish_pass (evict_pages (suc (length db.locations)) (start_pass r db))
  enforce_budget (e, r) db = (e, empty_result, db)

  -- `Enforce`
  unfoldable pub enforce : CapacityService → Db → EnforceError × CapacityResult × Db
  enforce v db =
      if not (v.explicit_budget || is_some v.filesystem_usage)
      then (no_error, empty_result, db)
      else if any is_unresolved db.locations
      then (
        unresolved_sizes,
        record empty_result {
          unresolved_locations = length (delete_where (λ l. not (is_unresolved l)) db.locations);
        },
        db,
      )
      else enforce_budget (current_budget_usage v db) db
