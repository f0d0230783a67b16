-- ===== src/Download/LeaseReleaser/Histories.antt =====
-- Histories of calls and of the worker of internal/cache/reader_lease_releaser.go.
use git_hub_action_cache_ser.Prelude.{
  ℕ, ◌+◌, ◌≤◌, ◌≡◌, refl, ap, sym, subst, ◌∙◌, Bool, true, false, not, ◌&&◌, ◌||◌, List, [], ◌∷◌,
  ◌++◌, append-nil, append_assoc, if◌then◌else◌, if-cases, ltb, length, length-append, All,
  All-append, arith,
}
use git_hub_action_cache_ser.Db.{Bytes}
use git_hub_action_cache_ser.Download.LeaseReleaser.{
  Releaser, Call, new_releaser, is_empty, enqueue_lease, shutdown, cancel, Step, flush, take_lease,
  receive, Event, enqueues, shuts_down, ends_context, receives, fires, sees_context, is_running,
  work, accepted_by, Trace, advance, advance_all, start_trace,
}
use git_hub_action_cache_ser.Download.LeaseReleaser.Batches.{
  leases_of, IsSized, is_sound, IsGood, IsStep, empty-length, shutdown-IsGood, cancel-IsGood,
  flush-IsStep, drain-IsStep, take_lease-IsStep,
}

sound-open :
    (r : Releaser) → is_sound r ≡ true → (r.accepting && (r.queue_closed || r.canceled)) ≡ false
unfolding is_sound
sound-open r d = ground arith

pub sound-closed :
    (r : Releaser)
    → is_sound r ≡ true
    → (not r.accepting && r.worker_started && not r.queue_closed) ≡ false
unfolding is_sound
sound-closed r d = ground arith

append-nonempty : (b : List Bytes) (x : Bytes) → is_empty (b ++ x ∷ []) ≡ false
append-nonempty [] x = refl
append-nonempty (y ∷ b) x = refl

sound-longer :
    (x : Bytes) (r : Releaser) (queue : List Bytes)
    → is_sound r ≡ true
    → r.worker_done ≡ false
    → is_sound (record r { queue = queue; batch = r.batch ++ x ∷ [] }) ≡ true
unfolding is_sound
sound-longer x r queue d k = ground (arith, append-nonempty r.batch x)

sound-timed : (r : Releaser) → is_sound r ≡ true → r.timer_set ≡ true → is_empty r.batch ≡ false
unfolding is_sound
sound-timed r d k = ground arith

module _ (n : ℕ) where
  receive-IsStep :
      (fails ends : Bool) (queue : List Bytes) (r : Releaser)
      → IsGood n r
      → r.queue ≡ queue
      → r.worker_done ≡ false
      → IsStep n (r.batch ++ r.queue) (receive fails ends queue r)
  unfolding receive
  receive-IsStep fails ends [] r h q k =
      if-cases (IsStep n (r.batch ++ r.queue)) r.queue_closed _ _
        (λ e. drain-IsStep n fails ends r h q k e) (λ e. (refl, tt, h))
  receive-IsStep fails ends (x ∷ queue) r (a, b, c, d) q k =
      let grown = length-append r.batch (x ∷ []) in
      subst
        (λ pending.
          IsStep n pending
            (take_lease fails ends (record r { queue = queue; batch = r.batch ++ x ∷ [] })))
        (append_assoc r.batch (x ∷ []) queue ∙ ap (λ rest. r.batch ++ rest) (sym q))
        (take_lease-IsStep n fails ends (record r { queue = queue; batch = r.batch ++ x ∷ [] })
          (a, refl, omega (arith, ap length q), k, refl, sound-open r d, sound-closed r d)
          (omega (arith, grown), omega (arith, grown)) (sound-longer x r queue d k))

  enqueue_lease-IsStep :
      (lease_id : Bytes) (r : Releaser)
      → IsGood n r
      → IsStep n
          ((r.batch ++ r.queue) ++ accepted_by (enqueues lease_id) r)
          ([], (enqueue_lease lease_id r).1)
  unfolding enqueue_lease accepted_by is_sound
  enqueue_lease-IsStep lease_id r (a, b, c, d) =
      if-cases IsResult (is_empty lease_id) _ _
        (λ e. (rw e (append-nil (r.batch ++ r.queue)), tt, (a, b, c, d)))
        (λ e.
          if-cases IsResult (not r.accepting) _ _
            (λ k. (append-nil (r.batch ++ r.queue), tt, (a, b, c, d)))
            (λ k.
              if-cases IsResult (ltb (length r.queue) r.max_pending) _ _
                (λ l. (
                  rw e (append_assoc r.batch r.queue (lease_id ∷ [])),
                  tt,
                  (
                    a,
                    b,
                    fits (length r.queue) r.max_pending (length (r.queue ++ lease_id ∷ [])) l
                        (length-append r.queue (lease_id ∷ [])),
                    ground arith,
                  ),
                ))
                (λ l. (append-nil (r.batch ++ r.queue), tt, (a, b, c, ground arith)))))
    where
      IsResult : Bool × Releaser → Type 0
      IsResult (done, x) =
          IsStep n
            ((r.batch ++ r.queue)
              ++ (if done && not (is_empty lease_id) then lease_id ∷ [] else []))
            ([], x)

      fits : (k m l : ℕ) → ltb k m ≡ true → l ≡ k + 1 → l ≤ m
      fits k m l e h = ground arith

  shutdown-IsStep : (r : Releaser) → IsGood n r → IsStep n (r.batch ++ r.queue) ([], shutdown r)
  unfolding shutdown
  shutdown-IsStep r h = (
    if-cases (λ (x : Releaser). r.batch ++ r.queue ≡ x.batch ++ x.queue) r.accepting _ _ (λ e. refl)
        (λ e. refl),
    tt,
    shutdown-IsGood n r h,
  )

  cancel-IsStep : (r : Releaser) → IsGood n r → IsStep n (r.batch ++ r.queue) ([], cancel r)
  unfolding cancel
  cancel-IsStep r h = (
    if-cases (λ (x : Releaser). r.batch ++ r.queue ≡ x.batch ++ x.queue)
        (not r.accepting && r.worker_started) _ _ (λ e. refl) (λ e. refl),
    tt,
    cancel-IsGood n r h,
  )

  fires-IsStep :
      (fails ends : Bool) (r : Releaser)
      → IsGood n r
      → r.worker_done ≡ false
      → r.timer_set ≡ true
      → IsStep n (r.batch ++ r.queue) (flush fails ends (record r { timer_set = false }))
  fires-IsStep fails ends r (a, b, c, d) k s =
      flush-IsStep n fails ends (record r { timer_set = false })
        (a, refl, c, k, refl, sound-open r d, sound-closed r d)
        (empty-length r.batch (sound-timed r d s), omega arith)

  sees_context-IsStep :
      (r : Releaser)
      → IsGood n r
      → r.canceled ≡ true
      → IsStep n (r.batch ++ r.queue) ([], record r { worker_done = true })
  unfolding is_sound
  sees_context-IsStep r (a, b, c, d) k = (refl, tt, (a, b, c, ground arith))

  -- An event that accepts no lease.
  same : (x : Step) (pending : List Bytes) → IsStep n pending x → IsStep n (pending ++ []) x
  same x pending h = subst (λ p. IsStep n p x) (sym (append-nil pending)) h

  work-IsStep :
      (e : Event) (r : Releaser)
      → IsGood n r
      → IsStep n ((r.batch ++ r.queue) ++ accepted_by e r) (work e r)
  unfolding work accepted_by
  work-IsStep (enqueues lease_id) r h = enqueue_lease-IsStep lease_id r h
  work-IsStep shuts_down r h = same (work shuts_down r) (r.batch ++ r.queue) (shutdown-IsStep r h)
  work-IsStep ends_context r h = same (work ends_context r) (r.batch ++ r.queue) (cancel-IsStep r h)
  work-IsStep (receives fails ends) r h = same (work (receives fails ends) r) (r.batch ++ r.queue) (
      if-cases (IsStep n (r.batch ++ r.queue)) (is_running r) _ _
        (λ e. receive-IsStep fails ends r.queue r h refl (ground arith)) (λ e. (refl, tt, h)))
  work-IsStep (fires fails ends) r h = same (work (fires fails ends) r) (r.batch ++ r.queue) (
      if-cases (IsStep n (r.batch ++ r.queue)) (is_running r && r.timer_set) _ _
        (λ e. fires-IsStep fails ends r h (ground arith) (ground arith)) (λ e. (refl, tt, h)))
  work-IsStep sees_context r h = same (work sees_context r) (r.batch ++ r.queue) (
      if-cases (IsStep n (r.batch ++ r.queue)) (is_running r && r.canceled) _ _
        (λ e. sees_context-IsStep r h (ground arith)) (λ e. (refl, tt, h)))

leases_of-append : (bs cs : List Call) → leases_of (bs ++ cs) ≡ leases_of bs ++ leases_of cs
leases_of-append [] cs = refl
leases_of-append (b ∷ bs) cs =
    ap (λ k. b.leases ++ k) (leases_of-append bs cs)
    ∙ sym (append_assoc b.leases (leases_of bs) (leases_of cs))

-- The leases of a history's calls of `release`, in order, with what the worker still has: the accepted
-- leases. No call is empty or too large.
abbrev pub IsHistory : ℕ → Trace → Type 0
IsHistory n t =
    (t.accepted ≡ leases_of t.calls ++ (t.releaser.batch ++ t.releaser.queue))
    × All (IsSized n) t.calls
    × IsGood n t.releaser

advance-IsHistory : (n : ℕ) (e : Event) (t : Trace) → IsHistory n t → IsHistory n (advance e t)
unfolding advance
advance-IsHistory n e t (h, k, g) =
    let (p, q, r) = work-IsStep n e t.releaser g in
    (
      ap (λ a. a ++ accepted_by e t.releaser) h
          ∙ append_assoc (leases_of t.calls) (t.releaser.batch ++ t.releaser.queue)
              (accepted_by e t.releaser)
          ∙ ap (λ a. leases_of t.calls ++ a) p
          ∙ sym (append_assoc (leases_of t.calls) (leases_of (work e t.releaser).0) _)
          ∙ ap (λ a. a ++ ((work e t.releaser).1.batch ++ (work e t.releaser).1.queue))
              (sym (leases_of-append t.calls (work e t.releaser).0)),
      All-append (IsSized n) t.calls (work e t.releaser).0 k q,
      r,
    )

pub advance_each-IsHistory :
    (n : ℕ) (es : List Event) (t : Trace) → IsHistory n t → IsHistory n (advance_all es t)
unfolding advance_all
advance_each-IsHistory n [] t h = h
advance_each-IsHistory n (e ∷ es) t h =
    advance_each-IsHistory n es (advance e t) (advance-IsHistory n e t h)

pub start-IsHistory :
    (batch_size max_pending : ℕ)
    → IsHistory
        (new_releaser batch_size max_pending).batch_size
        (start_trace batch_size max_pending)
unfolding new_releaser is_sound
start-IsHistory batch_size max_pending = (refl, tt, (refl, ground arith, omega arith, refl))

-- After every history of calls and of steps of the worker: the leases of its calls of `release`, which
-- may fail, in order, then the worker's batch and the queue are exactly the accepted leases, so each
-- accepted one goes to `release` at most once, in order, and until then stays with the worker, where it
-- is abandoned if the context ends; each call has a lease and no more than the batch size; the queue
-- stays within its capacity; and a worker that ended while its context lasted has nothing left.
pub advance_all-IsHistory :
    (batch_size max_pending : ℕ) (es : List Event)
    → IsHistory
        (new_releaser batch_size max_pending).batch_size
        (advance_all es (start_trace batch_size max_pending))
advance_all-IsHistory batch_size max_pending es =
    advance_each-IsHistory _ es (start_trace batch_size max_pending)
      (start-IsHistory batch_size max_pending)
