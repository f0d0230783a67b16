-- ===== src/Download/LeaseReleaser/Batches.antt =====
-- The batches that the worker of internal/cache/reader_lease_releaser.go gives to `release`.
use git_hub_action_cache_ser.Prelude.{
  ℕ, ◌≤◌, ◌<◌, ◌≡◌, refl, ap, sym, ◌∙◌, Bool, true, false, not, ◌&&◌, ◌||◌, List, [], ◌∷◌, ◌++◌,
  append-nil, if◌then◌else◌, if-cases, ◌==◌, length, All, arith,
}
use git_hub_action_cache_ser.Db.{Bytes}
use git_hub_action_cache_ser.Download.LeaseReleaser.{
  Releaser, Call, is_empty, shutdown, cancel, release_batch, stop_unless, Step, flush, drain,
  take_lease,
}

-- The leases of all calls, in order.
abbrev pub leases_of : List Call → List Bytes
leases_of [] = []
leases_of (c ∷ cs) = c.leases ++ leases_of cs

-- A batch has a lease, and no more than its size allows.
abbrev pub IsBatch : ℕ → List Bytes → Type 0
IsBatch n b = (0 < length b) × (length b ≤ n)

abbrev pub IsSized : ℕ → Call → Type 0
IsSized n c = IsBatch n c.leases

-- The Boolean parts of a state: the timer runs only for a batch, a releaser that accepts leases has
-- its worker and its queue, one that does not has closed its worker's queue, and a worker that ended
-- without the context left nothing.
unfoldable pub is_sound : Releaser → Bool
is_sound r =
    not (r.timer_set && is_empty r.batch)
    && not (r.accepting && (r.queue_closed || r.canceled || r.worker_done))
    && not (not r.accepting && r.worker_started && not r.queue_closed)
    && not (r.worker_done && not r.canceled && not (is_empty r.batch && is_empty r.queue))

abbrev pub IsGood : ℕ → Releaser → Type 0
IsGood n r =
    (r.batch_size ≡ n)
    × (length r.batch < n)
    × (length r.queue ≤ r.max_pending)
    × (is_sound r ≡ true)

-- A step passes leases on in their order.
abbrev pub IsStep : ℕ → List Bytes → Step → Type 0
IsStep n pending (bs, r) =
    (pending ≡ leases_of bs ++ (r.batch ++ r.queue)) × All (IsSized n) bs × IsGood n r

pub empty-length : (b : List Bytes) → is_empty b ≡ false → 0 < length b
empty-length [] h = cc
empty-length (x ∷ b) h = omega arith

empty-nil : (b : List Bytes) → is_empty b ≡ true → b ≡ []
empty-nil [] h = refl
empty-nil (x ∷ b) h = cc

-- A releaser in the middle of a step of its worker: no timer, and a queue and a context that end only
-- once no more leases are accepted.
abbrev pub IsWorking : ℕ → List Bytes → Releaser → Type 0
IsWorking n queue x =
    (x.batch_size ≡ n)
    × (x.queue ≡ queue)
    × (length queue ≤ x.max_pending)
    × (x.worker_done ≡ false)
    × (x.timer_set ≡ false)
    × ((x.accepting && (x.queue_closed || x.canceled)) ≡ false)
    × ((not x.accepting && x.worker_started && not x.queue_closed) ≡ false)

cancel-IsWorking :
    (n : ℕ) (queue : List Bytes) (ends : Bool) (x : Releaser)
    → IsWorking n queue x
    → IsWorking n queue (if ends then cancel x else x)
unfolding cancel
cancel-IsWorking n queue false x h = h
cancel-IsWorking n queue true x (a, q, c, d, e, f, i) =
    if-cases (IsWorking n queue) (not x.accepting && x.worker_started) _ _
      (λ k. (a, q, c, d, e, ground arith, i)) (λ k. (a, q, c, d, e, f, i))

-- The worker goes on, or the context has ended.
stop_unless-IsGood :
    (n : ℕ) (queue : List Bytes) (goes_on : Bool) (x : Releaser)
    → IsWorking n queue x
    → x.batch ≡ []
    → 0 < n
    → (goes_on ≡ not x.canceled)
    → ((stop_unless (goes_on, x)).batch ++ (stop_unless (goes_on, x)).queue ≡ queue)
      × IsGood n (stop_unless (goes_on, x))
unfolding stop_unless is_sound
stop_unless-IsGood n queue true x (a, q, c, d, e, f, i) b z g =
    (cc, (a, omega (arith, ap length b), omega (arith, ap length q), ground arith))
stop_unless-IsGood n queue false x (a, q, c, d, e, f, i) b z g =
    (cc, (a, omega (arith, ap length b), omega (arith, ap length q), ground arith))

released :
    {q q' : List Bytes} (b : List Bytes) (fails : Bool)
    → q' ≡ q
    → b ++ q ≡ leases_of (record { leases = b; failed = fails } ∷ []) ++ q'
released {q} {q'} b fails h = ap (λ k. b ++ k) (sym h) ∙ ap (λ k. k ++ q') (sym (append-nil b))

cancel-accepting :
    (ends : Bool) (x : Releaser) → (if ends then cancel x else x).accepting ≡ x.accepting
unfolding cancel
cancel-accepting false x = refl
cancel-accepting true x =
    if-cases (λ (y : Releaser). y.accepting ≡ x.accepting) (not x.accepting && x.worker_started) _ _
      (λ e. refl) (λ e. refl)

module _ (n : ℕ) where
  pub shutdown-IsGood : (r : Releaser) → IsGood n r → IsGood n (shutdown r)
  unfolding shutdown is_sound
  shutdown-IsGood r (a, b, c, d) =
      if-cases (IsGood n) r.accepting _ _ (λ e. (a, b, c, ground arith)) (λ e. (a, b, c, d))

  pub cancel-IsGood : (r : Releaser) → IsGood n r → IsGood n (cancel r)
  unfolding cancel is_sound
  cancel-IsGood r (a, b, c, d) =
      if-cases (IsGood n) (not r.accepting && r.worker_started) _ _ (λ e. (a, b, c, ground arith))
        (λ e. (a, b, c, d))

  pub flush-IsStep :
      (fails ends : Bool) (r : Releaser)
      → IsWorking n r.queue r
      → IsBatch n r.batch
      → IsStep n (r.batch ++ r.queue) (flush fails ends r)
  unfolding flush release_batch
  flush-IsStep fails ends r h b =
      let after = (if ends then cancel r else r) in
      let (passed, good) =
        stop_unless-IsGood n r.queue
          (if fails then if after.canceled then false else true else not after.canceled)
          (record after { batch = [] }) (cancel-IsWorking n r.queue ends r h) refl (omega arith)
          (goes_on fails after.canceled) in
      (released r.batch fails passed, (b, tt), good)
    where
      goes_on : (f c : Bool) → (if f then if c then false else true else not c) ≡ not c
      goes_on f c = ground arith

  -- The end of a closed queue.
  ended-IsGood :
      (queue : List Bytes) (x : Releaser)
      → IsWorking n queue x
      → queue ≡ []
      → x.batch ≡ []
      → 0 < n
      → x.accepting ≡ false
      → (x.batch ++ x.queue ≡ queue) × IsGood n (record x { worker_done = true })
  unfolding is_sound
  ended-IsGood queue x (a, q, c, d, e, f, i) o b z g =
      (cc, (a, omega (arith, ap length b), omega (arith, ap length q), ground (arith, b, q)))

  pub drain-IsStep :
      (fails ends : Bool) (r : Releaser)
      → IsGood n r
      → r.queue ≡ []
      → r.worker_done ≡ false
      → r.queue_closed ≡ true
      → IsStep n (r.batch ++ r.queue) (drain fails ends r)
  unfolding drain release_batch is_sound
  drain-IsStep fails ends r (a, b, c, d) q k o =
      if-cases (IsStep n (r.batch ++ r.queue)) (is_empty r.batch) _ _
        (λ e. (refl, tt, (a, b, c, ground (arith, q))))
        (λ e.
          let r' : Releaser = record r { timer_set = false } in
          let after = (if ends then cancel r' else r') in
          let closed : r.accepting ≡ false = ground arith in
          let working : IsWorking n r.queue r' =
            (a, refl, c, k, refl, ground arith, ground arith) in
          let (passed, good) =
            ended-IsGood r.queue (record after { batch = [] })
              (cancel-IsWorking n r.queue ends r' working) q refl (omega arith)
              (cancel-accepting ends r' ∙ closed) in
          (released r.batch fails passed, ((empty-length r.batch e, omega arith), tt), good))

  pub take_lease-IsStep :
      (fails ends : Bool) (r : Releaser)
      → IsWorking n r.queue (record r { timer_set = false })
      → IsBatch n r.batch
      → is_sound r ≡ true
      → IsStep n (r.batch ++ r.queue) (take_lease fails ends r)
  unfolding take_lease is_sound
  take_lease-IsStep fails ends r h b d =
      if-cases (IsStep n (r.batch ++ r.queue)) (length r.batch == r.batch_size) _ _
        (λ e. flush-IsStep fails ends (record r { timer_set = false }) h b)
        (λ e. (
          refl,
          tt,
          (
            h.0,
            under (length r.batch) r.batch_size h.0 b.1 e,
            h.2,
            ground (arith, d, nonempty r.batch b.0),
          ),
        ))
    where
      under : (k m : ℕ) → m ≡ n → k ≤ n → (k == m) ≡ false → k < n
      under k m e l f = ground arith

      nonempty : (b : List Bytes) → 0 < length b → is_empty b ≡ false
      nonempty [] l = absurd (omega arith)
      nonempty (x ∷ b) l = refl
