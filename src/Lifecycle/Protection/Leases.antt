-- ===== src/Lifecycle/Protection/Leases.antt =====
-- A reader lease and the operations on other leases.
use git_hub_action_cache_ser.Prelude.{
  ℕ, ◌<◌, ◌≡◌, ◌≢◌, refl, Bool, true, false, Option, none, some, List, ◌==◌, any-delete_where,
  any-update_where, arith, ◌∙◌,
}
use git_hub_action_cache_ser.Db.{Db, StorageLocation, StorageReaderLease, always, add_lease_version}
use git_hub_action_cache_ser.Lifecycle.Tx.{Action, update}
use git_hub_action_cache_ser.Lifecycle.Tx.Keeps.{
  Keeps, keeps, bind-Keeps, if-Keeps, pure-Keeps, raise-Keeps,
}
use git_hub_action_cache_ser.Lifecycle.Fence.{Settings}
use git_hub_action_cache_ser.Lifecycle.Reader.{
  set_expiry, live_lease, renew_reader, extend_direct_reader, release_reader, release_readers,
  listed, purge_expired_reader_leases,
}
use git_hub_action_cache_ser.Lifecycle.Materialization.{
  as_holder, acquire_found, renew_materialization, finish_materialization,
  mark_materialization_unsupported, release_materialization,
}
use git_hub_action_cache_ser.Lifecycle.Protection.{is_lease, Protected}
use git_hub_action_cache_ser.Lifecycle.Protection.Statements.{update-Protected}

module _ (r : StorageReaderLease) where
  abbrev Kept : {A : Type 0} → Action A → Type 0
  Kept m = Keeps (Protected r) m

  pub bump-Protected : (k : ℕ) (c : StorageLocation → Bool) → Kept (update k c add_lease_version)
  bump-Protected k c = update-Protected r k c add_lease_version (λ l. refl) (λ l. refl)

  pub acquire_found-Protected :
      (s : Settings) (now token : ℕ) (o : Option StorageLocation)
      → Kept (acquire_found s now token o)
  unfolding acquire_found
  acquire_found-Protected s now token none = raise-Keeps _
  acquire_found-Protected s now token (some l) =
      if-Keeps _ (raise-Keeps _)
        (bind-Keeps (update-Protected r l.id always _ (λ x. refl) (λ x. refl)) (λ u. pure-Keeps _))

  as_holder-Protected :
      (now token k : ℕ) (f : StorageLocation → StorageLocation)
      → ((l : StorageLocation) → (f l).id ≡ l.id)
      → ((l : StorageLocation) → (f l).parts_deleted_at ≡ l.parts_deleted_at)
      → Kept (as_holder now token k f)
  unfolding as_holder
  as_holder-Protected now token k f i d =
      bind-Keeps (update-Protected r k _ f i d) (λ held. search keeps)

  pub renew_materialization-Protected :
      (s : Settings) (now token k : ℕ) → Kept (renew_materialization s now token k)
  unfolding renew_materialization
  renew_materialization-Protected s now token k =
      as_holder-Protected now token k _ (λ l. refl) (λ l. refl)

  pub finish_materialization-Protected :
      (now token k : ℕ) → Kept (finish_materialization now token k)
  unfolding finish_materialization
  finish_materialization-Protected now token k =
      as_holder-Protected now token k _ (λ l. refl) (λ l. refl)

  pub mark_materialization_unsupported-Protected :
      (now token k : ℕ) → Kept (mark_materialization_unsupported now token k)
  unfolding mark_materialization_unsupported
  mark_materialization_unsupported-Protected now token k =
      as_holder-Protected now token k _ (λ l. refl) (λ l. refl)

  pub release_materialization-Protected : (token k : ℕ) → Kept (release_materialization token k)
  unfolding release_materialization
  release_materialization-Protected token k =
      bind-Keeps (update-Protected r k _ _ (λ l. refl) (λ l. refl)) (λ u. pure-Keeps _)

  other_lease :
      (now id : ℕ) (q : StorageReaderLease)
      → id ≢ r.id
      → is_lease r q ≡ true
      → live_lease now id q ≡ false
  other_lease now id q ne h = ground arith

  set_expiry-keeps :
      (now id t : ℕ)
      → id ≢ r.id
      → (db : Db) → Protected r db
      → Protected r (set_expiry now id t db).1
  unfolding set_expiry
  set_expiry-keeps now id t ne db p = ground (
    arith,
    any-update_where (is_lease r) (live_lease now id) (λ q. record q { expires_at = t }) db.leases
        (renewed now id t ne),
  )
    where
      renewed :
          (now id t : ℕ)
          → id ≢ r.id
          → (q : StorageReaderLease) → live_lease now id q ≡ true
          → is_lease r (record q { expires_at = t }) ≡ is_lease r q
      renewed now id t ne q h = ground arith

  pub renew_reader-Protected :
      (s : Settings) (now id : ℕ) → id ≢ r.id → Kept (renew_reader s now id)
  unfolding renew_reader
  renew_reader-Protected s now id ne = record { apply = set_expiry-keeps now id _ ne }

  pub extend_direct_reader-Protected :
      (s : Settings) (now id : ℕ) → id ≢ r.id → Kept (extend_direct_reader s now id)
  unfolding extend_direct_reader
  extend_direct_reader-Protected s now id ne = record { apply = set_expiry-keeps now id _ ne }

  pub release_reader-Protected : (id : ℕ) → id ≢ r.id → Kept (release_reader id)
  unfolding release_reader
  release_reader-Protected id ne = record {
    apply = λ db p. (
      any-delete_where (is_lease r) (λ q. q.id == id) db.leases (λ q h. ground arith) ∙ p.0,
      p.1,
    );
  }

  not_listed :
      (ids : List ℕ) (q : StorageReaderLease)
      → listed ids r.id ≡ false
      → is_lease r q ≡ true
      → listed ids q.id ≡ false
  not_listed ids q free h = let e : q.id ≡ r.id = ground arith in rw e free

  pub release_readers-Protected :
      (ids : List ℕ) → listed ids r.id ≡ false → Kept (release_readers ids)
  unfolding release_readers
  release_readers-Protected ids free = record {
    apply = λ db p. (
      any-delete_where (is_lease r) (λ q. listed ids q.id) db.leases
            (λ q h. not_listed ids q free h)
          ∙ p.0,
      p.1,
    );
  }

  pub purge_expired_reader_leases-Protected :
      (now : ℕ) → now < r.expires_at → Kept (purge_expired_reader_leases now)
  unfolding purge_expired_reader_leases
  purge_expired_reader_leases-Protected now alive = record {
    apply = λ db p. (any-delete_where (is_lease r) _ db.leases (λ q h. ground arith) ∙ p.0, p.1);
  }
