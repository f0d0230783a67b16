-- ===== src/Lifecycle/Protection.antt =====
-- What a reader lease holds: its own row, its location's row and, for the parts, the claim on them.
pub mod Statements
pub mod Claims
pub mod Leases
pub mod Histories
pub mod Acquire
pub mod Success
use git_hub_action_cache_ser.Prelude.{
  ℕ, ◌≡◌, Bool, true, false, not, ◌&&◌, ◌||◌, Option, none, some, ◌==◌, is_none, any,
}
use git_hub_action_cache_ser.Db.{Db, StorageLocation, StorageReaderLease, is_parts, find_location}

abbrev pub is_lease : StorageReaderLease → StorageReaderLease → Bool
is_lease r q =
    q.id == r.id
    && q.storage_location_id == r.storage_location_id
    && q.expires_at == r.expires_at
    && (not (is_parts r.scope) || is_parts q.scope)

abbrev pub readable : StorageReaderLease → Option StorageLocation → Bool
readable r none = false
readable r (some l) = not (is_parts r.scope) || is_none l.parts_deleted_at

-- The lease is in its table, and what it reads has not been given up.
abbrev pub Protected : StorageReaderLease → Db → Type 0
Protected r db =
    (any (is_lease r) db.leases ≡ true)
    × (readable r (find_location r.storage_location_id db.locations) ≡ true)
