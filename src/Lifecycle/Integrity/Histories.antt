-- ===== src/Lifecycle/Integrity/Histories.antt =====
-- The foreign keys through a history of requests.
use git_hub_action_cache_ser.Prelude.{
  ℕ, ◌≡◌, refl, Bool, Option, none, some, List, [], ◌∷◌, All, any, All-update_where, inl, inr,
  Bool-cases,
}
use git_hub_action_cache_ser.Db.{Db, StorageLocation, StorageReaderLease, always}
use git_hub_action_cache_ser.Lifecycle.Tx.{delete_leases}
use git_hub_action_cache_ser.Lifecycle.Tx.Keeps.{
  Keeps, keeps, bind-Keeps, gets-Keeps, pure-Keeps, raise-Keeps, if-Keeps,
}
use git_hub_action_cache_ser.Lifecycle.Fence.{Settings}
use git_hub_action_cache_ser.Lifecycle.Reader.{
  live_lease, set_expiry, renew_reader, extend_direct_reader, release_reader, release_readers,
  purge_expired_reader_leases,
}
use git_hub_action_cache_ser.Lifecycle.Parts.{claim_parts, claim_found}
use git_hub_action_cache_ser.Lifecycle.Materialization.{
  acquire_found, as_holder, renew_materialization, finish_materialization,
  mark_materialization_unsupported, release_materialization,
}
use git_hub_action_cache_ser.Lifecycle.Requests.{Request, serve_all}
use git_hub_action_cache_ser.Lifecycle.Requests.Laws.{Laws, serve_all-Keeps}
use git_hub_action_cache_ser.Lifecycle.Integrity.{IsPlaced, IsConsistent}
use git_hub_action_cache_ser.Lifecycle.Integrity.Statements.{
  update-IsConsistent, bump-IsConsistent, delete_entries-IsConsistent, delete_leases-IsConsistent,
  enqueue_task-IsConsistent, insert_lease-IsConsistent, fence_unreferenced-IsConsistent,
}

module _ (s : Settings) (now : ℕ) where
  mark_parts-IsConsistent : (l : StorageLocation) → Keeps IsConsistent (claim_parts now l)
  unfolding claim_parts
  mark_parts-IsConsistent l = bind-Keeps (enqueue_task-IsConsistent now _) (λ task.
      bind-Keeps (update-IsConsistent l.id always _ (λ x. refl) (λ x. refl)) (λ u. pure-Keeps _))

  claim_found-IsConsistent : (o : Option StorageLocation) → Keeps IsConsistent (claim_found now o)
  unfolding claim_found
  claim_found-IsConsistent none = raise-Keeps _
  claim_found-IsConsistent (some l) =
      search (keeps, delete_leases-IsConsistent, mark_parts-IsConsistent) depth 7

  acquire_found-IsConsistent :
      (token : ℕ) (o : Option StorageLocation) → Keeps IsConsistent (acquire_found s now token o)
  unfolding acquire_found
  acquire_found-IsConsistent token none = raise-Keeps _
  acquire_found-IsConsistent token (some l) =
      if-Keeps _ (raise-Keeps _)
        (bind-Keeps (update-IsConsistent l.id always _ (λ x. refl) (λ x. refl)) (λ u. pure-Keeps _))

  set_expiry-IsConsistent : (id t : ℕ) → Keeps IsConsistent (set_expiry now id t)
  unfolding set_expiry
  set_expiry-IsConsistent id t = record {
    apply = λ db h. elim (Bool-cases (any (live_lease now id) db.leases)) [
      | inl e ↦
          rw (e, set_expiry)
            (
              h.0,
              All-update_where (IsPlaced db.locations) (live_lease now id) _ db.leases (λ r p. p)
                  h.1,
            )
      | inr e ↦ rw (e, set_expiry) h
    ];
  }

  as_holder-IsConsistent :
      (token k : ℕ) (f : StorageLocation → StorageLocation)
      → ((l : StorageLocation) → (f l).id ≡ l.id)
      → ((l : StorageLocation) → (f l).deletion_requested_at ≡ l.deletion_requested_at)
      → Keeps IsConsistent (as_holder now token k f)
  unfolding as_holder
  as_holder-IsConsistent token k f i d =
      bind-Keeps (update-IsConsistent k _ f i d) (λ held. search keeps)

  release_materialization-IsConsistent :
      (token k : ℕ) → Keeps IsConsistent (release_materialization token k)
  unfolding release_materialization
  release_materialization-IsConsistent token k =
      bind-Keeps (update-IsConsistent k _ _ (λ l. refl) (λ l. refl)) (λ u. pure-Keeps _)

  leases-kept :
      (q : StorageReaderLease → Bool) (db : Db)
      → IsConsistent db
      → IsConsistent (delete_leases q db).1
  leases-kept q = (delete_leases-IsConsistent q).apply

  IsConsistent-Laws : Laws IsConsistent (λ q. Unit) s now
  unfolding renew_reader extend_direct_reader release_reader release_readers
      purge_expired_reader_leases renew_materialization finish_materialization
      mark_materialization_unsupported delete_leases
  IsConsistent-Laws = record {
    bump = bump-IsConsistent;
    entries = delete_entries-IsConsistent;
    fence = fence_unreferenced-IsConsistent s now;
    claim = claim_found-IsConsistent;
    insert = insert_lease-IsConsistent;
    merge = λ token k. bind-Keeps (gets-Keeps _) (acquire_found-IsConsistent token);
    expire = record { apply = leases-kept _ };
    renew = λ id u. set_expiry-IsConsistent id _;
    extend = λ id u. set_expiry-IsConsistent id _;
    release = λ id u. record { apply = leases-kept _ };
    release_all = λ ids u. record { apply = leases-kept _ };
    renew_merge = λ token k u. as_holder-IsConsistent token k _ (λ l. refl) (λ l. refl);
    finish_merge = λ token k u. as_holder-IsConsistent token k _ (λ l. refl) (λ l. refl);
    mark_merge = λ token k u. as_holder-IsConsistent token k _ (λ l. refl) (λ l. refl);
    release_merge = λ token k u. release_materialization-IsConsistent token k;
  }

unconditional : (qs : List (ℕ × Request)) → All (λ (tq : ℕ × Request). Unit {0} × Unit {0}) qs
unconditional [] = tt
unconditional (q ∷ qs) = ((tt, tt), unconditional qs)

-- Through every history of requests to the lifecycle service each cache entry references a location
-- that is there and not marked for deletion, and each reader lease one that is there, if it was so
-- at the start.
pub serve_all-IsConsistent :
    (s : Settings) (qs : List (ℕ × Request)) (db : Db)
    → IsConsistent db
    → IsConsistent (serve_all s qs db)
serve_all-IsConsistent s qs db =
    serve_all-Keeps s (λ t. Unit) (λ now u. IsConsistent-Laws s now) qs db (unconditional qs)
