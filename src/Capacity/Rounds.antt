-- ===== src/Capacity/Rounds.antt =====
-- The rounds of a pass of internal/storagecapacity/service.go, where no other transaction runs meanwhile.
use git_hub_action_cache_ser.Prelude.{
  ℕ, zero, suc, ◌≤◌, ◌≡◌, ◌≢◌, refl, sym, subst, true, not, ◌||◌, Option, none, List, [], ◌∷◌,
  if-cases, leb, is_some, any, length, All, arith,
}
use git_hub_action_cache_ser.Db.{Db, StorageLocation}
use git_hub_action_cache_ser.Lifecycle.Tx.{Result, ok, err}
use git_hub_action_cache_ser.Lifecycle.Fence.{Settings}
use git_hub_action_cache_ser.Lifecycle.Deletion.{CapacityEvictionResult, request_capacity_eviction}
use git_hub_action_cache_ser.Capacity.{
  CapacityCursor, is_after, is_candidate, capacity_candidates, observation_of, cursor_of,
  has_reached, Pass, after_eviction, evict, next_candidate, evict_page, after_page, next_page,
  evict_pages, alone, start_pass, finish_pass, enforce_budget, enforce, is_unresolved,
}
use git_hub_action_cache_ser.Capacity.Usage.{
  EnforceError, no_error, unresolved_sizes, usage_failed, invalid_usage, budget_range,
  eviction_failed, out_of_rounds, CapacityResult, CapacityService, current_budget_usage,
}
use git_hub_action_cache_ser.Capacity.Accounting.{IsStart, current_budget_usage-IsStart}
use git_hub_action_cache_ser.Capacity.Statements.{eviction-Keeps}
use git_hub_action_cache_ser.Capacity.Ordering.{IsFirst, IsOrdered, IsMet, page-rows}
use git_hub_action_cache_ser.Capacity.Counts.{
  locations_after, IsLater, locations_after-le, locations_after-later, locations_after-row,
  after-IsLater, first-IsLater, HasFewer-Laws,
}

-- The rest of a page follows its cursor in order.
abbrev IsChain : Option CapacityCursor → List StorageLocation → Type 0
IsChain cursor [] = Unit
IsChain cursor (c ∷ cs) = IsLater cursor (cursor_of c) × IsChain (cursor_of c) cs

ordered-IsChain :
    (c : StorageLocation) (cs : List StorageLocation)
    → All (IsFirst c) cs
    → IsOrdered cs
    → IsChain (cursor_of c) cs
ordered-IsChain c [] h k = tt
ordered-IsChain c (d ∷ cs) (h, hs) (k, ks) = (first-IsLater c d h, ordered-IsChain d cs k ks)

-- A pass has at most so many locations before it, or has ended with an error of the code.
abbrev IsBounded : ℕ → EnforceError × Pass → Type 0
IsBounded n (no_error, p) = locations_after p.cursor p.db.locations ≤ n
IsBounded n (out_of_rounds, p) = ⊥
IsBounded n (e, p) = Unit

after_eviction-IsBounded :
    (n : ℕ) (c : StorageLocation) (p : Pass) (x : Result CapacityEvictionResult × Db)
    → locations_after (cursor_of c) x.1.locations ≤ n
    → IsBounded n (after_eviction c p x)
unfolding after_eviction
after_eviction-IsBounded n c p (ok e, db) h = h
after_eviction-IsBounded n c p (err e, db) h = tt

next_candidate-IsBounded :
    (n : ℕ) (cursor : Option CapacityCursor) (x : EnforceError × Pass)
    (again : Pass → EnforceError × Pass)
    → (IsBounded n x) × (x.1.cursor ≡ cursor)
    → ((p : Pass) → p.cursor ≡ cursor → IsBounded n (no_error, p) → IsBounded n (again p))
    → IsBounded n (next_candidate x again)
unfolding next_candidate
next_candidate-IsBounded n cursor (no_error, p) again (h, k) g =
    if-cases (IsBounded n) (has_reached p.result) _ _ (λ e. h) (λ e. g p k h)
next_candidate-IsBounded n cursor (unresolved_sizes, p) again h g = tt
next_candidate-IsBounded n cursor (usage_failed, p) again h g = tt
next_candidate-IsBounded n cursor (invalid_usage, p) again h g = tt
next_candidate-IsBounded n cursor (budget_range, p) again h g = tt
next_candidate-IsBounded n cursor (eviction_failed, p) again h g = tt
next_candidate-IsBounded n cursor (out_of_rounds, p) again (h, k) g = h

after_page-rounds :
    (n : ℕ) (x : EnforceError × Pass) (again : Pass → EnforceError × Pass)
    → IsBounded n x
    → ((p : Pass) → IsBounded n (no_error, p) → (again p).0 ≢ out_of_rounds)
    → (after_page x again).0 ≢ out_of_rounds
unfolding after_page
after_page-rounds n (no_error, p) again h g = g p h
after_page-rounds n (unresolved_sizes, p) again h g = λ q. cc
after_page-rounds n (usage_failed, p) again h g = λ q. cc
after_page-rounds n (invalid_usage, p) again h g = λ q. cc
after_page-rounds n (budget_range, p) again h g = λ q. cc
after_page-rounds n (eviction_failed, p) again h g = λ q. cc
after_page-rounds n (out_of_rounds, p) again h g = absurd h

after_eviction-cursor :
    (c : StorageLocation) (p : Pass) (x : Result CapacityEvictionResult × Db)
    → (after_eviction c p x).1.cursor ≡ cursor_of c
unfolding after_eviction
after_eviction-cursor c p (ok e, db) = refl
after_eviction-cursor c p (err e, db) = refl

candidate-after :
    (db : Db) (cursor : Option CapacityCursor) (c : StorageLocation)
    → is_candidate db cursor c ≡ true
    → is_after cursor c ≡ true
unfolding is_candidate
candidate-after db cursor c h = ground arith

module _ (s : Settings) (clock : ℕ → ℕ) where
  eviction-HasFewer :
      (now : ℕ) (c : StorageLocation) (n : ℕ) (db : Db)
      → locations_after (cursor_of c) db.locations ≤ n
      → locations_after
          (cursor_of c)
          (request_capacity_eviction s now (observation_of c) db).1.locations
        ≤ n
  eviction-HasFewer now c n db h =
      (eviction-Keeps s now (HasFewer-Laws now (cursor_of c) n) (observation_of c)).apply db h

  evict-IsBounded :
      (c : StorageLocation) (n : ℕ) (p : Pass)
      → locations_after (cursor_of c) p.db.locations ≤ n
      → IsBounded n (evict s clock alone c p) × ((evict s clock alone c p).1.cursor ≡ cursor_of c)
  unfolding evict
  evict-IsBounded c n p h = (
    after_eviction-IsBounded n c p _ (eviction-HasFewer (clock p.result.candidates) c n p.db h),
    after_eviction-cursor c p _,
  )

  evict_page-IsBounded :
      (n : ℕ) (cs : List StorageLocation) (p : Pass)
      → IsChain p.cursor cs
      → IsBounded n (no_error, p)
      → IsBounded n (evict_page s clock alone cs p)
  unfolding evict_page
  evict_page-IsBounded n [] p h k = k
  evict_page-IsBounded n (c ∷ cs) p (h, hs) k =
      next_candidate-IsBounded n (cursor_of c) (evict s clock alone c p) _
        (evict-IsBounded c n p
          (omega (arith, locations_after-later p.cursor (cursor_of c) p.db.locations h, k)))
        (λ p' e. evict_page-IsBounded n cs p' (subst (λ o. IsChain o cs) (sym e) hs))

  -- The first candidate of a page leaves fewer locations after it.
  page-IsBounded :
      (n : ℕ) (c : StorageLocation) (cs : List StorageLocation) (p : Pass)
      → IsMet (is_candidate p.db p.cursor) p.db.locations c
      → IsOrdered (c ∷ cs)
      → IsBounded (suc n) (no_error, p)
      → IsBounded n (evict_page s clock alone (c ∷ cs) p)
  unfolding evict_page
  page-IsBounded n c cs p (m, r) (o, os) k =
      next_candidate-IsBounded n (cursor_of c) (evict s clock alone c p) _
        (evict-IsBounded c n p (
          omega (
            arith,
            locations_after-row p.cursor c p.db.locations
                (after-IsLater p.cursor c (candidate-after p.db p.cursor c m))
                (candidate-after p.db p.cursor c m) r,
            k,
          )))
        (λ p' e.
          evict_page-IsBounded n cs p'
            (subst (λ o. IsChain o cs) (sym e) (ordered-IsChain c cs o os)))

  next_page-rounds :
      (n : ℕ) (p : Pass) (page : List StorageLocation) (again : Pass → EnforceError × Pass)
      → All (IsMet (is_candidate p.db p.cursor) p.db.locations) page × IsOrdered page
      → IsBounded n (no_error, p)
      → ((m : ℕ) (p : Pass) → n ≡ suc m → IsBounded m (no_error, p) → (again p).0 ≢ out_of_rounds)
      → (next_page s clock alone page p again).0 ≢ out_of_rounds
  unfolding next_page
  next_page-rounds n p [] again h k g = λ q. cc
  next_page-rounds zero p (c ∷ cs) again (((m, r), ms), o) k g =
      let met = candidate-after p.db p.cursor c m in
      absurd (
        omega (
          arith,
          locations_after-row p.cursor c p.db.locations (after-IsLater p.cursor c met) met r,
        ))
  next_page-rounds (suc n) p (c ∷ cs) again ((m, ms), o) k g =
      after_page-rounds n (evict_page s clock alone (c ∷ cs) p) again
        (page-IsBounded n c cs p m o k) (λ p'. g n p' refl)

  evict_pages-rounds :
      (rounds : ℕ) (p : Pass)
      → IsBounded rounds (no_error, p)
      → (evict_pages s clock alone (suc rounds) p).0 ≢ out_of_rounds
  unfolding evict_pages capacity_candidates
  evict_pages-rounds zero p h =
      if-cases (λ (x : EnforceError × Pass). x.0 ≢ out_of_rounds) (has_reached p.result) _ _
        (λ e q. cc)
        (λ e.
          next_page-rounds zero p _ (evict_pages s clock alone zero)
            (page-rows 50 (is_candidate p.db p.cursor) p.db.locations) h
            (λ m p' z. absurd (omega (arith, z))))
  evict_pages-rounds (suc rounds) p h =
      if-cases (λ (x : EnforceError × Pass). x.0 ≢ out_of_rounds) (has_reached p.result) _ _
        (λ e q. cc)
        (λ e.
          next_page-rounds (suc rounds) p _ (evict_pages s clock alone (suc rounds))
            (page-rows 50 (is_candidate p.db p.cursor) p.db.locations) h
            (λ m p' z k. evict_pages-rounds rounds p' (omega (arith, z, k))))

  finish_pass-rounds :
      (x : EnforceError × Pass) → x.0 ≢ out_of_rounds → (finish_pass x).0 ≢ out_of_rounds
  unfolding finish_pass
  finish_pass-rounds (no_error, p) h = h
  finish_pass-rounds (unresolved_sizes, p) h = h
  finish_pass-rounds (usage_failed, p) h = h
  finish_pass-rounds (invalid_usage, p) h = h
  finish_pass-rounds (budget_range, p) h = h
  finish_pass-rounds (eviction_failed, p) h = h
  finish_pass-rounds (out_of_rounds, p) h = h

  enforce_budget-rounds :
      (x : EnforceError × CapacityResult) (db : Db)
      → IsStart x
      → (enforce_budget s clock alone x db).0 ≢ out_of_rounds
  unfolding enforce_budget
  enforce_budget-rounds (no_error, r) db h =
      if-cases (λ (x : EnforceError × CapacityResult × Db). x.0 ≢ out_of_rounds)
        (leb r.usage_before_bytes r.budget_bytes) _ _ (λ e q. cc)
        (λ e. finish_pass-rounds _ (
          evict_pages-rounds (length db.locations) (start_pass r db)
            (locations_after-le none db.locations)))
  enforce_budget-rounds (unresolved_sizes, r) db h = h.1
  enforce_budget-rounds (usage_failed, r) db h = h.1
  enforce_budget-rounds (invalid_usage, r) db h = h.1
  enforce_budget-rounds (budget_range, r) db h = h.1
  enforce_budget-rounds (eviction_failed, r) db h = h.1
  enforce_budget-rounds (out_of_rounds, r) db h = h.1

  -- Where no other transaction runs during it, `Enforce` returns: one round for each location and one
  -- for the last page are enough.
  pub enforce-rounds :
      (v : CapacityService) (db : Db) → (enforce s clock alone v db).0 ≢ out_of_rounds
  unfolding enforce
  enforce-rounds v db =
      if-cases (λ (x : EnforceError × CapacityResult × Db). x.0 ≢ out_of_rounds)
        (not (v.explicit_budget || is_some v.filesystem_usage)) _ _ (λ e q. cc)
        (λ e.
          if-cases (λ (x : EnforceError × CapacityResult × Db). x.0 ≢ out_of_rounds)
            (any is_unresolved db.locations) _ _ (λ u q. cc)
            (λ u.
              enforce_budget-rounds (current_budget_usage v db) db
                (current_budget_usage-IsStart v db)))
