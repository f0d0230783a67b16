-- ===== src/Download/PartIndex/Cache.antt =====
-- `partIndexCache` of internal/cache/part_index.go: part indexes in the order of their last use, within
-- a capacity in bytes. The map from a key to its element is the search for the key in the list,
-- the most recently used first. One caller at a time: the flights that serialize loads are left out.
-- A capacity that is not positive is 0.
pub mod Bounded
pub mod Transparent
use git_hub_action_cache_ser.Prelude.{
  ℕ, zero, suc, ◌+◌, ◌-◌, ◌*◌, Bool, true, false, not, ◌&&◌, Option, none, some, List, [], ◌∷◌,
  if◌then◌else◌, ltb, ◌==◌, length, find, any,
}
use git_hub_action_cache_ser.Db.{Bytes, bytes_eq}
use git_hub_action_cache_ser.Download.PartIndex.{PartIndex}

pub record PartIndexKey : Type 0 where
  pub location_id : Bytes
  pub folder_name : Bytes
  pub part_count : ℕ

pub record PartIndexCacheEntry : Type 0 where
  pub key : PartIndexKey
  pub index : PartIndex
  pub weight : ℕ

pub record PartIndexCache : Type 0 where
  pub capacity : ℕ
  pub used : ℕ
  pub lru : List PartIndexCacheEntry

-- `newPartIndexCache`
unfoldable pub new_part_index_cache : ℕ → PartIndexCache
new_part_index_cache capacity = record { capacity = capacity; used = 0; lru = [] }

unfoldable pub key_eq : PartIndexKey → PartIndexKey → Bool
key_eq a b =
    bytes_eq a.location_id b.location_id
    && bytes_eq a.folder_name b.folder_name
    && a.part_count == b.part_count

abbrev pub has_key : PartIndexKey → PartIndexCacheEntry → Bool
has_key key e = key_eq e.key key

-- `lru.Remove` of the element of a key
unfoldable pub remove_key : PartIndexKey → List PartIndexCacheEntry → List PartIndexCacheEntry
remove_key key [] = []
remove_key key (e ∷ es) = let rest = remove_key key es in if has_key key e then es else e ∷ rest

-- `lru.MoveToFront` of the element of a key
unfoldable pub move_to_front : PartIndexKey → List PartIndexCacheEntry → List PartIndexCacheEntry
move_to_front key es = elim (find (has_key key) es) [ none ↦ es | some e ↦ e ∷ remove_key key es ]

-- `lru.Back`, and its removal
unfoldable pub back : List PartIndexCacheEntry → Option PartIndexCacheEntry
back [] = none
back (e ∷ []) = some e
back (e ∷ d ∷ es) = back (d ∷ es)

unfoldable pub remove_back : List PartIndexCacheEntry → List PartIndexCacheEntry
remove_back [] = []
remove_back (e ∷ []) = []
remove_back (e ∷ d ∷ es) = e ∷ remove_back (d ∷ es)

abbrev pub part_index_entry_overhead : ℕ
part_index_entry_overhead = 64

abbrev pub weight_of : PartIndexKey → PartIndex → ℕ
weight_of key index =
    part_index_entry_overhead
    + (length key.location_id + length key.folder_name)
    + length index.ends * 8

-- The loop of `addLocked`: the oldest entries go until the weight fits; with its remaining rounds.
unfoldable pub evict : ℕ → ℕ → PartIndexCache → PartIndexCache
evict zero weight c = c
evict (suc rounds) weight c =
    if ltb c.capacity (c.used + weight)
    then elim (back c.lru) [
      | none ↦ c
      | some oldest ↦
          evict rounds weight (record c { used = c.used - oldest.weight; lru = remove_back c.lru })
    ]
    else c

abbrev pub push_front : PartIndexKey → PartIndex → PartIndexCache → PartIndexCache
push_front key index c = record c {
  used = c.used + weight_of key index;
  lru = record { key = key; index = index; weight = weight_of key index } ∷ c.lru;
}

-- `addLocked`; there are as many rounds as entries.
unfoldable pub add_locked : PartIndexKey → Option PartIndex → PartIndexCache → PartIndexCache
add_locked key none c = c
add_locked key (some index) c =
    if c.capacity == 0
    then c
    else if any (has_key key) c.lru
    then record c { lru = move_to_front key c.lru }
    else if ltb c.capacity (weight_of key index)
    then c
    else push_front key index (evict (length c.lru) (weight_of key index) c)

-- `getOrLoad` without other callers, whose loader gives an index or fails.
unfoldable pub get_or_load :
    PartIndexKey
    → (PartIndexKey → Option PartIndex)
    → PartIndexCache
    → Option PartIndex × PartIndexCache
get_or_load key load c = elim (find (has_key key) c.lru) [
  | some e ↦ (some e.index, record c { lru = move_to_front key c.lru })
  | none ↦ (load key, add_locked key (load key) c)
]
