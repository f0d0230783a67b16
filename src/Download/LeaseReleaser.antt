-- ===== src/Download/LeaseReleaser.antt =====
-- `readerLeaseReleaser` of internal/cache/reader_lease_releaser.go: reader leases are released in
-- batches by one worker. The state holds the channel's content and the worker's locals; an event is a
-- call, or what the worker's `select` takes. `release` is a call of the lifecycle service: an event
-- says whether it fails, and whether the context ends meanwhile. Logging, and the length of the
-- delay, are left out.
pub mod Batches
pub mod Histories
pub mod Shutdown
use git_hub_action_cache_ser.Prelude.{
  ℕ, ◌<◌, Bool, true, false, not, ◌&&◌, ◌||◌, List, [], ◌∷◌, ◌++◌, if◌then◌else◌, ltb, ◌==◌, length,
}
use git_hub_action_cache_ser.Db.{Bytes}

pub record Releaser : Type 0 where
  pub batch_size : ℕ
  pub max_pending : ℕ
  pub accepting : Bool
  pub worker_started : Bool
  pub queue_closed : Bool
  pub canceled : Bool
  pub worker_done : Bool
  pub timer_set : Bool
  pub queue : List Bytes
  pub batch : List Bytes

-- `newReaderLeaseReleaserWithOptions`
unfoldable pub new_releaser : ℕ → ℕ → Releaser
new_releaser batch_size max_pending =
    let size : ℕ = if ltb batch_size 1 then 1 else batch_size in
    record {
      batch_size = size;
      max_pending = if ltb max_pending size then size else max_pending;
      accepting = true;
      worker_started = false;
      queue_closed = false;
      canceled = false;
      worker_done = false;
      timer_set = false;
      queue = [];
      batch = [];
    }

abbrev pub is_empty {ℓ} : {A : Type ℓ} → List A → Bool
is_empty [] = true
is_empty (x ∷ xs) = false

-- `Enqueue`, with its result
unfoldable pub enqueue_lease : Bytes → Releaser → Bool × Releaser
enqueue_lease lease_id r =
    if is_empty lease_id
    then (true, r)
    else if not r.accepting
    then (false, r)
    else if ltb (length r.queue) r.max_pending
    then (true, record r { worker_started = true; queue = r.queue ++ lease_id ∷ [] })
    else (false, record r { worker_started = true })

-- `Shutdown` before it waits, and where its context ends while it waits
unfoldable pub shutdown : Releaser → Releaser
shutdown r =
    if r.accepting then record r { accepting = false; queue_closed = r.worker_started } else r

unfoldable pub cancel : Releaser → Releaser
cancel r = if not r.accepting && r.worker_started then record r { canceled = true } else r

-- A call of `release`: its leases, and whether it failed, so that they expire by themselves.
pub record Call : Type 0 where
  pub leases : List Bytes
  pub failed : Bool

abbrev pub call_of : Bool → Releaser → Call
call_of fails r = record { leases = r.batch; failed = fails }

-- `releaseBatch` after its call: whether the worker goes on, and the state without the batch.
unfoldable pub release_batch : (fails ends : Bool) → Releaser → Bool × Releaser
release_batch fails ends r =
    let after = (if ends then cancel r else r) in
    (
      (if fails then if after.canceled then false else true else not after.canceled),
      record after { batch = [] },
    )

unfoldable pub stop_unless : Bool × Releaser → Releaser
stop_unless (true, r) = r
stop_unless (false, r) = record r { worker_done = true }

-- What a step of the worker gives: its calls of `release`, and its state.
abbrev pub Step : Type 0
Step = List Call × Releaser

-- A batch goes to `release`, and the worker goes on or not.
unfoldable pub flush : (fails ends : Bool) → Releaser → Step
flush fails ends r = (call_of fails r ∷ [], stop_unless (release_batch fails ends r))

-- The case of the closed queue: the last batch, and the end of the worker.
unfoldable pub drain : (fails ends : Bool) → Releaser → Step
drain fails ends r =
    if is_empty r.batch then ([], record r { timer_set = false; worker_done = true }) else (
      call_of fails r ∷ [],
      record (release_batch fails ends (record r { timer_set = false })).1 { worker_done = true },
    )

-- The case of a lease: it joins the batch, which goes to `release` where it is full.
unfoldable pub take_lease : (fails ends : Bool) → Releaser → Step
take_lease fails ends r =
    if length r.batch == r.batch_size
    then flush fails ends (record r { timer_set = false })
    else ([], record r { timer_set = r.timer_set || length r.batch == 1 })

unfoldable pub receive : (fails ends : Bool) → List Bytes → Releaser → Step
receive fails ends [] r = if r.queue_closed then drain fails ends r else ([], r)
receive fails ends (lease_id ∷ queue) r =
    take_lease fails ends (record r { queue = queue; batch = r.batch ++ lease_id ∷ [] })

pub data Event : Type 0 where
  enqueues : Bytes → Event
  shuts_down ends_context : Event
  receives fires : (fails ends : Bool) → Event
  sees_context : Event

abbrev pub is_running : Releaser → Bool
is_running r = r.worker_started && not r.worker_done

-- The worker's `select`: a case that is not ready is not taken.
unfoldable pub work : Event → Releaser → Step
work (receives fails ends) r = if is_running r then receive fails ends r.queue r else ([], r)
work (fires fails ends) r =
    if is_running r && r.timer_set
    then flush fails ends (record r { timer_set = false })
    else ([], r)
work sees_context r =
    if is_running r && r.canceled then ([], record r { worker_done = true }) else ([], r)
work shuts_down r = ([], shutdown r)
work ends_context r = ([], cancel r)
work (enqueues lease_id) r = ([], (enqueue_lease lease_id r).1)

-- The leases that `Enqueue` accepts to release.
unfoldable pub accepted_by : Event → Releaser → List Bytes
accepted_by (enqueues lease_id) r =
    if (enqueue_lease lease_id r).0 && not (is_empty lease_id) then lease_id ∷ [] else []
accepted_by _ r = []

-- A history: the leases accepted, the calls of `release`, and the state.
pub record Trace : Type 0 where
  pub accepted : List Bytes
  pub calls : List Call
  pub releaser : Releaser

unfoldable pub advance : Event → Trace → Trace
advance e t = record {
  accepted = t.accepted ++ accepted_by e t.releaser;
  calls = t.calls ++ (work e t.releaser).0;
  releaser = (work e t.releaser).1;
}

unfoldable pub advance_all : List Event → Trace → Trace
advance_all [] t = t
advance_all (e ∷ es) t = advance_all es (advance e t)

abbrev pub start_trace : ℕ → ℕ → Trace
start_trace batch_size max_pending = record {
  accepted = [];
  calls = [];
  releaser = new_releaser batch_size max_pending;
}
