-- ===== src/Download/LeaseReleaser/Shutdown.antt =====
-- The end of the worker of internal/cache/reader_lease_releaser.go after `Shutdown`.
use git_hub_action_cache_ser.Prelude.{ℕ, ◌⊎◌, map, ◌<◌, ◌≡◌, Bool, true, false, List, length}
use git_hub_action_cache_ser.Download.LeaseReleaser.{Releaser, Event, receives}

-- The queue is closed, and the context lasts.
abbrev IsClosing : Releaser → Type 0
IsClosing r = (r.queue_closed ≡ true) × (r.canceled ≡ false) × (r.worker_started ≡ true)

-- The worker has ended, or has fewer leases in its queue than `n`.
abbrev IsCloserThan : ℕ → Releaser → Type 0
IsCloserThan n r =
    IsClosing r × ((r.worker_done ≡ true) ⊎ ((r.worker_done ≡ false) × (length r.queue < n)))

-- The worker's steps from the queue, with releases that fail or not.
abbrev pub receptions : List Bool → List Event
receptions = map (λ fails. receives fails false)
