-- ===== src/Outbox/Retry.antt =====
-- The delays of retries in closed form, and a task of the outbox after an attempt.
use git_hub_action_cache_ser.Prelude.{
  ℕ, zero, suc, ◌+◌, ◌-◌, ◌*◌, ◌/◌, ◌≤◌, ◌≡◌, refl, ap, ◌∙◌, ◌↔◌, Bool, true, false, not, some,
  List, [], ◌∷◌, ltb, leb, ◌==◌, min, any, update_where, find, any-delete_where_self, delete_where,
  delete_where-twice, delete_where-absent, update_where-absent, if-cases, arith, Bool-cases, inl,
  inr,
}
use git_hub_action_cache_ser.Db.{Bytes, Db, StorageDeletion}
use git_hub_action_cache_ser.Outbox.{
  record_failure, process, storage_deletion_retry_base, storage_deletion_retry_max, deletion_delay,
  storage_deletion_retry_delay, storage_deletion_ready, initial_retry_delay, maximum_retry_delay,
  reconciliation_delay, reconciliation_retry_delay,
}

-- A delay after a number of doublings.
abbrev pub doubled : ℕ → ℕ → ℕ
doubled zero delay = delay
doubled (suc n) delay = doubled n (delay * 2)

doubled-le : (n delay : ℕ) → delay ≤ doubled n delay
doubled-le zero delay = omega arith
doubled-le (suc n) delay = omega (arith, doubled-le n (delay * 2))

deletion_delay-min :
    (n delay : ℕ)
    → delay ≤ storage_deletion_retry_max
    → deletion_delay n delay ≡ min (doubled n delay) storage_deletion_retry_max
unfolding deletion_delay
deletion_delay-min zero delay h = omega arith
deletion_delay-min (suc n) delay h =
    elim (Bool-cases (leb (storage_deletion_retry_max / 2) delay)) [
      | inl e ↦ rw e (limited _ _ (long delay e) (doubled-le n (delay * 2)))
      | inr e ↦ rw e (deletion_delay-min n (delay * 2) (short delay e))
    ]
  where
    limited :
        (a b : ℕ)
        → storage_deletion_retry_max ≤ a
        → a ≤ b
        → storage_deletion_retry_max ≡ min b storage_deletion_retry_max
    limited a b h g = omega arith

    long :
        (d : ℕ) → leb (storage_deletion_retry_max / 2) d ≡ true → storage_deletion_retry_max ≤ d * 2
    long d h = ground arith

    short :
        (d : ℕ)
        → leb (storage_deletion_retry_max / 2) d ≡ false
        → d * 2 ≤ storage_deletion_retry_max
    short d h = ground arith

reconciliation_delay-min :
    (n delay : ℕ) → reconciliation_delay n delay ≡ min (doubled n delay) maximum_retry_delay
unfolding reconciliation_delay
reconciliation_delay-min zero delay = refl
reconciliation_delay-min (suc n) delay =
    ground (arith, reconciliation_delay-min n (delay * 2), doubled-le n (delay * 2))

-- Both delays are the initial one doubled once for each attempt after the first, up to the limit.
pub retry_delays-doubled :
    (attempt : ℕ)
    → (storage_deletion_retry_delay attempt
        ≡ min (doubled (attempt - 1) storage_deletion_retry_base) storage_deletion_retry_max)
      × (reconciliation_retry_delay attempt
          ≡ min (doubled (attempt - 1) initial_retry_delay) maximum_retry_delay)
unfolding storage_deletion_retry_delay reconciliation_retry_delay
retry_delays-doubled attempt = (
  deletion_delay-min (attempt - 1) storage_deletion_retry_base (omega arith),
  reconciliation_delay-min (attempt - 1) initial_retry_delay,
)

delay_after :
    (n : ℕ)
    → storage_deletion_retry_delay (n + 1)
      ≡ min (doubled n storage_deletion_retry_base) storage_deletion_retry_max
delay_after n =
    let e : n + 1 - 1 ≡ n = omega arith in
    (retry_delays-doubled (n + 1)).0
    ∙ ap (λ k. min (doubled k storage_deletion_retry_base) storage_deletion_retry_max) e

find-update_where :
    (k : ℕ) (f : StorageDeletion → StorageDeletion) (ts : List StorageDeletion)
    (task : StorageDeletion)
    → ((t : StorageDeletion) → (f t).id ≡ t.id)
    → find (λ t. t.id == k) ts ≡ some task
    → find (λ t. t.id == k) (update_where (λ t. t.id == k) f ts) ≡ some (f task)
unfolding find update_where
find-update_where k f [] task keeps h = cc
find-update_where k f (t ∷ ts) task keeps h =
    ground (arith, keeps t, find-update_where k f ts task keeps)

-- A task whose folder could not be deleted stays in the outbox, and is ready again exactly from the
-- time of the attempt plus the first delay doubled once for each earlier attempt, up to the limit.
pub process-failed :
    (delete_folder : Bytes → Bool) (now : ℕ) (task : StorageDeletion) (db : Db)
    → find (λ t. t.id == task.id) db.deletions ≡ some task
    → delete_folder task.folder_name ≡ false
    → ((process delete_folder now task db).0 ≡ false)
      × ((t : StorageDeletion) × (find
              (λ t. t.id == task.id)
              (process delete_folder now task db).1.deletions
            ≡ some t)
          × ((later : ℕ)
              → (storage_deletion_ready t later ≡ true) ↔ (
                  now
                    + min
                        (doubled task.attempt_count storage_deletion_retry_base)
                        storage_deletion_retry_max
                  ≤ later)))
unfolding process storage_deletion_ready
process-failed delete_folder now task db found failed = rw failed (
  refl,
  (
    record_failure now task,
    find-update_where task.id (record_failure now) db.deletions task (λ t. refl) found,
    λ later. ready later _ _ (delay_after task.attempt_count),
  ),
)
  where
    ready : (later d m : ℕ) → d ≡ m → (not (ltb later (now + d)) ≡ true) ↔ (now + m ≤ later)
    ready later d m h = (λ e. ground arith, λ l. ground arith)

process-absent :
    (delete_folder : Bytes → Bool) (now : ℕ) (task : StorageDeletion) (db : Db)
    → any (λ t. t.id == task.id) db.deletions ≡ false
    → (process delete_folder now task db).1 ≡ db
unfolding process
process-absent delete_folder now task db gone =
    if-cases (λ (x : Bool × Db). x.1 ≡ db) (delete_folder task.folder_name) _ _
      (λ e. ap (λ ts. record db { deletions = ts }) (delete_where-absent _ db.deletions gone))
      (λ e. ap (λ ts. record db { deletions = ts }) (update_where-absent _ _ db.deletions gone))

process-deleted :
    (delete_folder : Bytes → Bool) (now : ℕ) (task : StorageDeletion) (db : Db)
    → delete_folder task.folder_name ≡ true
    → process delete_folder now task db
      ≡ (true, record db { deletions = delete_where (λ t. t.id == task.id) db.deletions })
unfolding process
process-deleted delete_folder now task db succeeded = rw succeeded refl

-- A task whose folder is deleted leaves the outbox. All other tasks stay in their order, and so do the
-- other tables. A later attempt of the same task, whose folder is deleted or not, changes nothing.
pub process-done :
    (delete_folder delete_later : Bytes → Bool) (now later : ℕ) (task : StorageDeletion) (db : Db)
    → delete_folder task.folder_name ≡ true
    → ((process delete_folder now task db).0 ≡ true)
      × (any (λ t. t.id == task.id) (process delete_folder now task db).1.deletions ≡ false)
      × (delete_where (λ t. t.id == task.id) (process delete_folder now task db).1.deletions
          ≡ delete_where (λ t. t.id == task.id) db.deletions)
      × ((process delete_folder now task db).1
          ≡ record db { deletions = (process delete_folder now task db).1.deletions })
      × ((process delete_later later task (process delete_folder now task db).1).1
          ≡ (process delete_folder now task db).1)
process-done delete_folder delete_later now later task db succeeded =
    rw (process-deleted delete_folder now task db succeeded) (
      refl,
      any-delete_where_self (λ t. t.id == task.id) db.deletions,
      delete_where-twice (λ t. t.id == task.id) db.deletions,
      refl,
      process-absent delete_later later task
          (record db { deletions = delete_where (λ t. t.id == task.id) db.deletions })
          (any-delete_where_self (λ t. t.id == task.id) db.deletions),
    )
