-- ===== src/Tests/Streams.antt =====
-- A cache of two part indexes, and a stream over a list of bytes.
use git_hub_action_cache_ser.Prelude.{
  ℕ, zero, suc, ◌≤◌, ◌≡◌, ◌≢◌, ◌⊎◌, refl, Option, some, [], ◌∷◌, find, any, length, arith,
}
use git_hub_action_cache_ser.Db.{Bytes, codes, bytes_eq}
use git_hub_action_cache_ser.Download.PartIndex.{PartIndex}
use git_hub_action_cache_ser.Download.PartIndex.Cache.{
  PartIndexKey, PartIndexCache, get_or_load, add_locked, evict, back, remove_back, key_eq,
}
use git_hub_action_cache_ser.Download.PartIndex.Cache.Bounded.{IsBounded, get_or_load-IsBounded}
use git_hub_action_cache_ser.Download.PartIndex.Cache.Transparent.{
  IsCoherent, get_or_load-transparent,
}
use git_hub_action_cache_ser.Download.ExactLength.{ReadError, no_error, eof, read_each, exact_read}
use git_hub_action_cache_ser.Download.ExactLength.Reads.{read_each-exact}

abbrev key : Bytes → PartIndexKey
key name = record { location_id = name; folder_name = name; part_count = 2 }

abbrev index : PartIndex
index = record { ends = 4 ∷ 10 ∷ []; total = 10 }

abbrev load : PartIndexKey → Option PartIndex
load k = some index

-- One entry of 82 bytes, where 100 fit.
abbrev cached : PartIndexCache
cached = record {
  capacity = 100;
  used = 82;
  lru = record { key = key (codes "a"); index = index; weight = 82 } ∷ [];
}

-- The older entry makes room.
get_or_load-run : get_or_load (key (codes "b")) load cached ≡ (
  some index,
  record {
    capacity = 100;
    used = 82;
    lru = record { key = key (codes "b"); index = index; weight = 82 } ∷ [];
  },
)
unfolding get_or_load add_locked evict back remove_back key_eq bytes_eq find any
get_or_load-run = refl

get_or_load-IsBounded_example : IsBounded (get_or_load (key (codes "b")) load cached).1
get_or_load-IsBounded_example =
    get_or_load-IsBounded (key (codes "b")) load cached (refl, omega arith)

get_or_load-transparent_example :
    ((get_or_load (key (codes "b")) load cached).0 ≡ some index)
    × IsCoherent load (get_or_load (key (codes "b")) load cached).1
get_or_load-transparent_example = get_or_load-transparent load (key (codes "b")) cached (refl, tt)

unfoldable first_bytes : ℕ → Bytes → Bytes
first_bytes zero s = []
first_bytes (suc n) [] = []
first_bytes (suc n) (b ∷ s) = b ∷ first_bytes n s

unfoldable rest_bytes : ℕ → Bytes → Bytes
rest_bytes zero s = s
rest_bytes (suc n) [] = []
rest_bytes (suc n) (b ∷ s) = rest_bytes n s

abbrev read_bytes : ℕ → Bytes → Bytes × ReadError × Bytes
read_bytes size [] = ([], eof, [])
read_bytes size (b ∷ s) = (first_bytes size (b ∷ s), no_error, rest_bytes size (b ∷ s))

length-first_bytes : (n : ℕ) (s : Bytes) → length (first_bytes n s) ≤ n
unfolding first_bytes
length-first_bytes zero s = omega arith
length-first_bytes (suc n) [] = omega arith
length-first_bytes (suc n) (b ∷ s) = omega (arith, length-first_bytes n s)

length-read_bytes : (size : ℕ) (s : Bytes) → length (read_bytes size s).0 ≤ size
length-read_bytes size [] = omega arith
length-read_bytes size (b ∷ s) = length-first_bytes size (b ∷ s)

read_each-exact_example :
    (length
        (read_each read_bytes (2 ∷ 2 ∷ 2 ∷ []) (record { reader = codes "abcde"; remaining = 3 })).0
      ≤ 3)
    × (((read_each read_bytes (2 ∷ 2 ∷ 2 ∷ []) (record { reader = codes "abcde"; remaining = 3 })).1
          ≢ eof)
        ⊎ (length
              (read_each read_bytes
                (2 ∷ 2 ∷ 2 ∷ [])
                (record { reader = codes "abcde"; remaining = 3 })).0
            ≡ 3))
read_each-exact_example =
    read_each-exact read_bytes length-read_bytes (2 ∷ 2 ∷ 2 ∷ []) (codes "abcde") 3

-- The third read meets the end of the three bytes.
read_each-run :
    ((read_each read_bytes (2 ∷ 2 ∷ 2 ∷ []) (record { reader = codes "abcde"; remaining = 3 })).0
      ≡ codes "abc")
    × ((read_each read_bytes (2 ∷ 2 ∷ 2 ∷ []) (record { reader = codes "abcde"; remaining = 3 })).1
        ≡ eof)
unfolding read_each exact_read first_bytes rest_bytes
read_each-run = (refl, refl)
