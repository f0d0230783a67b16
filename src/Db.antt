-- ===== src/Db.antt =====
-- The tables of the database, internal/ent/schema: cache entries, storage locations, reader leases,
-- uploads and the deletion outbox, with the statements that the services issue. A primary key is
-- unique, so a query by id is the first row that has it. Ids are only compared and ordered, so
-- they are numbers; times are milliseconds after the epoch; texts are lists of bytes.
pub mod Locations
use Prim.Native.Char.{code}
use Prim.Native.String
use Prim.Native.String.{String}
use git_hub_action_cache_ser.Prelude.{
  ℕ, suc, ◌+◌, ◌<◌, ◌≤◌, Bool, true, false, ◌&&◌, ◌||◌, Option, none, some, List, [], ◌∷◌, ◌++◌,
  if◌then◌else◌, ◌==◌, any, find, update_where, delete_where,
}

abbrev pub Bytes : Type 0
Bytes = List ℕ

-- The bytes of an ASCII literal.
abbrev pub codes : String → Bytes
codes String.[] = []
codes (String.◌∷◌ c s) = code c ∷ codes s

-- `==` on texts, byte by byte.
unfoldable pub bytes_eq : Bytes → Bytes → Bool
bytes_eq [] [] = true
bytes_eq (a ∷ xs) (b ∷ ys) = a == b && bytes_eq xs ys
bytes_eq _ _ = false

pub record StorageLocation : Type 0 where
  pub id : ℕ
  pub folder_name : Bytes
  pub part_count : ℕ
  pub size_bytes : Option ℕ
  pub lease_version : ℕ
  pub deletion_requested_at : Option ℕ
  pub merge_started_at : Option ℕ
  pub merge_lease_token : Option ℕ
  pub merge_lease_expires_at : Option ℕ
  pub merged_at : Option ℕ
  pub materialization_unsupported_at : Option ℕ
  pub parts_deleted_at : Option ℕ
  pub last_downloaded_at : Option ℕ
  pub recency_at : ℕ

pub record CacheEntry : Type 0 where
  pub id : ℕ
  pub key : Bytes
  pub version : Bytes
  pub scope : Bytes
  pub repo_id : Bytes
  pub updated_at : ℕ
  pub location_id : ℕ

pub data LeaseScope : Type 0 where
  parts storage : LeaseScope

pub record StorageReaderLease : Type 0 where
  pub id : ℕ
  pub storage_location_id : ℕ
  pub scope : LeaseScope
  pub expires_at : ℕ

-- Without startedPartUploadCount and tupleHash, which the modelled code does not read.
pub record Upload : Type 0 where
  pub id : ℕ
  pub key : Bytes
  pub version : Bytes
  pub scope : Bytes
  pub repo_id : Bytes
  pub created_at : ℕ
  pub last_part_uploaded_at : Option ℕ
  pub finished_part_upload_count : ℕ
  pub folder_name : Bytes
  pub committed_part_count : Option ℕ

pub record StorageDeletion : Type 0 where
  pub id : ℕ
  pub folder_name : Bytes
  pub created_at : ℕ
  pub attempt_count : ℕ
  pub last_attempted_at : Option ℕ

pub record Db : Type 0 where
  pub locations : List StorageLocation
  pub entries : List CacheEntry
  pub leases : List StorageReaderLease
  pub uploads : List Upload
  pub deletions : List StorageDeletion
  -- the next value of the outbox's autoincrement column
  pub next_deletion : ℕ

abbrev pub is_parts : LeaseScope → Bool
is_parts parts = true
is_parts storage = false

-- `StorageLocation.Query().Where(ID(k)).Only`
unfoldable pub find_location : ℕ → List StorageLocation → Option StorageLocation
find_location k [] = none
find_location k (l ∷ ls) = if l.id == k then some l else find_location k ls

-- Whether `StorageLocation.Update().Where(ID(k), cond...)` affects a row.
unfoldable pub affects : ℕ → (StorageLocation → Bool) → List StorageLocation → Bool
affects k cond ls = elim (find_location k ls) [ none ↦ false | some l ↦ cond l ]

-- `StorageLocation.Update().Where(ID(k), cond...)` with the assignments `f`
unfoldable pub update_location :
    ℕ → (StorageLocation → Bool) → (StorageLocation → StorageLocation) → Db → Db
update_location k cond f db = record db {
  locations = update_where (λ l. l.id == k && cond l) f db.locations;
}

abbrev pub always : StorageLocation → Bool
always l = true

-- `AddLeaseVersion(1)`
abbrev pub add_lease_version : StorageLocation → StorageLocation
add_lease_version l = record l { lease_version = l.lease_version + 1 }

-- `CacheEntry.Query().Where(LocationId(k)).Exist`
unfoldable pub has_entries : ℕ → List CacheEntry → Bool
has_entries k es = any (λ e. e.location_id == k) es

-- `storageoutbox.Enqueue`; the created task carries the column's next value.
unfoldable pub enqueue : ℕ → Bytes → Db → Db
enqueue now folder_name db = record db {
  deletions =
      db.deletions
      ++ record {
        id = db.next_deletion;
        folder_name = folder_name;
        created_at = now;
        attempt_count = 0;
        last_attempted_at = none;
      }
        ∷ [];
  next_deletion = db.next_deletion + 1;
}

-- `StorageLocation.DeleteOneID(k)`. Reader leases restrict the deletion, which then fails with a
-- constraint error; cache entries go with the location.
unfoldable pub delete_location : ℕ → Db → Option Db
delete_location k db =
    if any (λ r. r.storage_location_id == k) db.leases
    then none
    else some (record db {
      locations = delete_where (λ l. l.id == k) db.locations;
      entries = delete_where (λ e. e.location_id == k) db.entries;
    })
