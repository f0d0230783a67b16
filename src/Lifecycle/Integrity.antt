-- ===== src/Lifecycle/Integrity.antt =====
-- The foreign keys of the tables, and what the fence adds to them.
pub mod Statements
pub mod Histories
use git_hub_action_cache_ser.Prelude.{
  ℕ, ◌≡◌, Bool, true, false, Option, none, some, List, All, is_none, is_some,
}
use git_hub_action_cache_ser.Db.{Db, CacheEntry, StorageLocation, StorageReaderLease, find_location}

abbrev pub is_live : Option StorageLocation → Bool
is_live none = false
is_live (some l) = is_none l.deletion_requested_at

abbrev pub IsAttached : List StorageLocation → CacheEntry → Type 0
IsAttached ls e = is_live (find_location e.location_id ls) ≡ true

abbrev pub IsPlaced : List StorageLocation → StorageReaderLease → Type 0
IsPlaced ls r = is_some (find_location r.storage_location_id ls) ≡ true

-- Every cache entry references a location that is there and not fenced, and every reader lease one
-- that is there.
abbrev pub IsConsistent : Db → Type 0
IsConsistent db = All (IsAttached db.locations) db.entries × All (IsPlaced db.locations) db.leases
