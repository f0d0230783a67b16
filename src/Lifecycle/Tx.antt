-- ===== src/Lifecycle/Tx.antt =====
-- Transactions: a body over the tables that may fail, rolled back if it does, and the single
-- statements that the bodies consist of. A failing connection is not modelled: it ends in the same
-- rollback.
pub mod Keeps
use git_hub_action_cache_ser.Prelude.{ℕ, Bool, none, some, any, delete_where}
use git_hub_action_cache_ser.Db.{
  Db, Bytes, CacheEntry, StorageLocation, StorageReaderLease, StorageDeletion, affects,
  update_location, delete_location, enqueue,
}

pub data Error : Type 0 where
  location_unavailable direct_representation reader_lease_lost : Error
  materialization_lease_held materialization_lease_lost constraint canceled : Error

pub data Result (A : Type 0) : Type 0 where
  ok : A → Result A
  err : Error → Result A

abbrev pub Action : Type 0 → Type 0
Action A = Db → Result A × Db

module _ {A : Type 0} where
  unfoldable pub pure : A → Action A
  pure a db = (ok a, db)

  unfoldable pub raise : Error → Action A
  raise e db = (err e, db)

  unfoldable pub gets : (Db → A) → Action A
  gets f db = (ok (f db), db)

  -- `tx.Commit()` on success, the deferred `tx.Rollback()` otherwise
  unfoldable pub transaction : Action A → Action A
  transaction body db =
      let (r, db') = body db in elim r [ ok a ↦ (ok a, db') | err e ↦ (err e, db) ]

infixl 5 ◌>>=◌ ◌>>◌
unfoldable pub ◌>>=◌ : {A B : Type 0} → Action A → (A → Action B) → Action B
◌>>=◌ m f db = let (r, db') = m db in elim r [ ok a ↦ f a db' | err e ↦ (err e, db') ]

abbrev pub ◌>>◌ : {A B : Type 0} → Action A → Action B → Action B
m >> k = m >>= λ _. k

-- The affected count of an update by id, as whether it is not 0.
unfoldable pub update :
    ℕ → (StorageLocation → Bool) → (StorageLocation → StorageLocation) → Action Bool
update k cond f db = (ok (affects k cond db.locations), update_location k cond f db)

-- A deletion of cache entries, with whether there were any.
unfoldable pub delete_entries : (CacheEntry → Bool) → Action Bool
delete_entries p db = (ok (any p db.entries), record db { entries = delete_where p db.entries })

unfoldable pub delete_leases : (StorageReaderLease → Bool) → Action (Unit {0})
delete_leases p db = (ok tt, record db { leases = delete_where p db.leases })

unfoldable pub enqueue_task : ℕ → Bytes → Action StorageDeletion
enqueue_task now folder_name db = (
  ok (record {
    id = db.next_deletion;
    folder_name = folder_name;
    created_at = now;
    attempt_count = 0;
    last_attempted_at = none;
  }),
  enqueue now folder_name db,
)

unfoldable pub delete_location_row : ℕ → Action (Unit {0})
delete_location_row k db = elim (delete_location k db) [
  | none ↦ (err constraint, db)
  | some db' ↦ (ok tt, db')
]
