-- ===== src/Tests/Services.antt =====
-- The lifecycle service on one location that is read, merged and deleted.
use git_hub_action_cache_ser.Prelude.{
  ℕ, ◌<◌, ◌≡◌, ◌⊎◌, inl, refl, true, false, none, some, List, [], ◌∷◌, All, arith, any, find,
  update_where,
}
use git_hub_action_cache_ser.Db.{
  Db, codes, CacheEntry, StorageLocation, StorageReaderLease, parts, find_location, affects,
  update_location, has_entries,
}
use git_hub_action_cache_ser.Lifecycle.Tx.{
  ok, err, ◌>>=◌, pure, gets, update, materialization_lease_held, materialization_lease_lost,
}
use git_hub_action_cache_ser.Lifecycle.Fence.{
  Settings, new_with_options, is_active, active_materialization, fence_detached_location,
}
use git_hub_action_cache_ser.Lifecycle.Fence.Outcome.{fence_detached_location-tables}
use git_hub_action_cache_ser.Lifecycle.Reader.{
  ReaderLease, Surroundings, acquire_reader, acquire_attempts, acquire_reader_once,
  classify_reader_location, acquire_scope, create_lease, insert_lease, rollback_retry,
}
use git_hub_action_cache_ser.Lifecycle.Requests.{Request, serve_all}
use git_hub_action_cache_ser.Lifecycle.Materialization.{
  acquire_materialization, finish_materialization,
}
use git_hub_action_cache_ser.Lifecycle.Protection.{Protected}
use git_hub_action_cache_ser.Lifecycle.Protection.Histories.{Spares, serve_all-Protected}
use git_hub_action_cache_ser.Lifecycle.Protection.Acquire.{
  lease_of, GrantedBy, acquire_reader-granted,
}
use git_hub_action_cache_ser.Lifecycle.Protection.Success.{acquire_reader-succeeds}
use git_hub_action_cache_ser.Lifecycle.Integrity.{IsConsistent}
use git_hub_action_cache_ser.Lifecycle.Integrity.Histories.{serve_all-IsConsistent}
use git_hub_action_cache_ser.Lifecycle.Exclusion.{IsHeld}
use git_hub_action_cache_ser.Lifecycle.Exclusion.Finish.{
  IsLive, merged, finish_materialization-outcome,
}
use git_hub_action_cache_ser.Lifecycle.Exclusion.Histories.{
  ActsWithout, serve_all-IsHeld, acquire_materialization-held,
}

abbrev unset : Settings
unset = record {
  reader_lease_duration = 0;
  lease_renewal_interval = 0;
  direct_download_lease_duration = 0;
  deletion_grace_period = 0;
  materialization_lease_duration = 0;
  materialization_disabled = false;
}

abbrev pub settings : Settings
settings = record {
  reader_lease_duration = 120000;
  lease_renewal_interval = 30000;
  direct_download_lease_duration = 600000;
  deletion_grace_period = 600000;
  materialization_lease_duration = 120000;
  materialization_disabled = false;
}

new_with_options-unset : new_with_options unset ≡ settings
unfolding new_with_options
new_with_options-unset = refl

abbrev pub location : StorageLocation
location = record {
  id = 7;
  folder_name = codes "up";
  part_count = 3;
  size_bytes = some 30;
  lease_version = 0;
  deletion_requested_at = none;
  merge_started_at = some 900;
  merge_lease_token = some 55;
  merge_lease_expires_at = some 5000;
  merged_at = none;
  materialization_unsupported_at = none;
  parts_deleted_at = none;
  last_downloaded_at = none;
  recency_at = 500;
}

abbrev pub lease : StorageReaderLease
lease = record { id = 1; storage_location_id = 7; scope = parts; expires_at = 4000 }

abbrev pub entry : CacheEntry
entry = record {
  id = 3;
  key = codes "k";
  version = codes "v";
  scope = codes "main";
  repo_id = codes "r";
  updated_at = 500;
  location_id = 7;
}

abbrev tables : Db
tables = record {
  locations = location ∷ [];
  entries = entry ∷ [];
  leases = lease ∷ [];
  uploads = [];
  deletions = [];
  next_deletion = 1;
}

-- Nothing references the location any more.
abbrev orphaned : Db
orphaned = record tables { entries = [] }

-- A deletion is asked for, the merge finishes, the parts are claimed and the lease table is purged.
abbrev history : List (ℕ × Request)
history =
    (1000, Request.acquire_reader 2 false 3)
    ∷ (1500, Request.request_location_deletion 7 true false)
    ∷ (2000, Request.finish_materialization 55 7)
    ∷ (2500, Request.claim_parts_deletion 7)
    ∷ (3000, Request.purge_expired_reader_leases)
    ∷ (3500, Request.release_reader 2)
    ∷ []

abbrev quiet : List (ℕ × Request)
quiet =
    (1000, Request.acquire_reader 2 false 3)
    ∷ (1500, Request.request_location_deletion 7 true false)
    ∷ (2000, Request.acquire_materialization 56 7)
    ∷ (2500, Request.finish_materialization 56 7)
    ∷ []

abbrev alone : Surroundings
alone = record { others = λ i db. db; clock = λ i. 1000; uuid = λ i. 2; gives_up = λ i. false }

fence_detached_location-tables_example :
    (find_location 7 (fence_detached_location settings 604000 7 true orphaned).1.locations
      ≡ some (record location { lease_version = 1; deletion_requested_at = some 604000 }))
    × ((fence_detached_location settings 604000 7 true orphaned).1.deletions ≡ [])
unfolding find_location has_entries any is_active active_materialization
fence_detached_location-tables_example =
    fence_detached_location-tables settings 604000 7 true orphaned location refl refl

lease-Protected : Protected lease tables
unfolding find_location any
lease-Protected = (refl, refl)

history-Spares : All (λ (tq : ℕ × Request). (tq.0 < 4000) × Spares lease tq.1) history
history-Spares = (
  (omega arith, tt),
  (
    (omega arith, tt),
    ((omega arith, tt), ((omega arith, tt), ((omega arith, tt), ((omega arith, omega arith), tt)))),
  ),
)

serve_all-Protected_example : Protected lease (serve_all settings history tables)
serve_all-Protected_example =
    serve_all-Protected lease settings history tables history-Spares lease-Protected

tables-IsConsistent : IsConsistent tables
unfolding find_location
tables-IsConsistent = ((refl, tt), (refl, tt))

serve_all-IsConsistent_example : IsConsistent (serve_all settings history tables)
serve_all-IsConsistent_example = serve_all-IsConsistent settings history tables tables-IsConsistent

tables-IsHeld : IsHeld 7 55 5000 tables
unfolding find_location
tables-IsHeld = refl

quiet-ActsWithout : All (λ (tq : ℕ × Request). (tq.0 < 5000) × ActsWithout 55 tq.1) quiet
quiet-ActsWithout =
    ((omega arith, tt), ((omega arith, tt), ((omega arith, tt), ((omega arith, omega arith), tt))))

serve_all-IsHeld_example : IsHeld 7 55 5000 (serve_all settings quiet tables)
serve_all-IsHeld_example =
    serve_all-IsHeld 7 55 5000 settings quiet tables quiet-ActsWithout tables-IsHeld

acquire_materialization-held_example :
    acquire_materialization settings 1000 56 7 tables ≡ (err materialization_lease_held, tables)
acquire_materialization-held_example =
    acquire_materialization-held 7 55 5000 settings 1000 56 tables (omega arith) tables-IsHeld

finish_materialization-outcome_example :
    (IsLive 2000 55 7 tables
      × ((finish_materialization 2000 55 7 tables).0 ≡ ok tt)
      × ((l : StorageLocation) × (find_location 7 tables.locations ≡ some l)
          × (find_location 7 (finish_materialization 2000 55 7 tables).1.locations
              ≡ some (merged 2000 l)))
      × (acquire_materialization settings 3000 56 7 (finish_materialization 2000 55 7 tables).1
          ≡ (err materialization_lease_held, (finish_materialization 2000 55 7 tables).1)))
    ⊎ ((¬ IsLive 2000 55 7 tables)
        × ((finish_materialization 2000 55 7 tables).0 ≡ err materialization_lease_lost)
        × (find_location 7 (finish_materialization 2000 55 7 tables).1.locations
            ≡ find_location 7 tables.locations))
finish_materialization-outcome_example =
    finish_materialization-outcome 2000 55 7 settings 3000 56 tables

abbrev handed_out : ReaderLease
handed_out = record {
  id = 2;
  location = location;
  scope = parts;
  expires_at = 121000;
  renew_after = 30000;
}

acquire_reader-succeeds_example :
    ((acquire_reader settings alone false 3 tables).0 ≡ ok handed_out)
    × GrantedBy settings alone false 3 3 handed_out (acquire_reader settings alone false 3 tables).1
unfolding lease_of find find_location any
acquire_reader-succeeds_example =
    acquire_reader-succeeds settings alone false 3 tables entry location parts refl refl
      (refl, refl, refl, inl refl) refl

handed_out_again : (acquire_reader settings alone false 3 tables).0 ≡ ok handed_out
unfolding acquire_reader acquire_attempts acquire_reader_once find find_location any
    classify_reader_location acquire_scope create_lease insert_lease rollback_retry ◌>>=◌ pure gets
    update update_location affects update_where
handed_out_again = refl

acquire_reader-granted_example :
    GrantedBy settings alone false 3 3 handed_out (acquire_reader settings alone false 3 tables).1
acquire_reader-granted_example =
    acquire_reader-granted settings alone false 3 tables handed_out handed_out_again
