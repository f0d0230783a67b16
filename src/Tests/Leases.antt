-- ===== src/Tests/Leases.antt =====
-- A releaser with batches of two leases and room for three.
use git_hub_action_cache_ser.Prelude.{◌≡◌, refl, true, false, List, [], ◌∷◌}
use git_hub_action_cache_ser.Db.{codes}
use git_hub_action_cache_ser.Download.LeaseReleaser.{
  Event, enqueues, shuts_down, receives, advance_all, advance, start_trace, new_releaser, work,
  enqueue_lease, receive, take_lease, flush, release_batch, stop_unless, drain, shutdown,
}
use git_hub_action_cache_ser.Download.LeaseReleaser.Histories.{IsHistory, advance_all-IsHistory}
use git_hub_action_cache_ser.Download.LeaseReleaser.Shutdown.{receptions}

-- Three leases, of which the worker has taken one.
abbrev calls : List Event
calls =
    enqueues (codes "a") ∷ receives false false ∷ enqueues (codes "b") ∷ enqueues (codes "c") ∷ []

calls-run :
    (advance_all
      (shuts_down ∷ receptions (true ∷ false ∷ false ∷ []))
      (advance_all calls (start_trace 2 3))).calls
    ≡ record { leases = codes "a" ∷ codes "b" ∷ []; failed = true }
      ∷ record { leases = codes "c" ∷ []; failed = false }
      ∷ []
unfolding advance_all advance work enqueue_lease receive take_lease new_releaser flush release_batch
    stop_unless drain shutdown
calls-run = refl

advance_all-IsHistory_example :
    IsHistory (new_releaser 2 3).batch_size (advance_all calls (start_trace 2 3))
advance_all-IsHistory_example = advance_all-IsHistory 2 3 calls
