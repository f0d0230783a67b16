-- ===== src/Tests/Inventories.antt =====
-- Folders of two expected objects, complete and not.
use git_hub_action_cache_ser.Prelude.{◌≡◌, refl, some, none, List, [], ◌∷◌, any, false}
use git_hub_action_cache_ser.Prelude.Int.{ℤ, pos}
use git_hub_action_cache_ser.Db.{Bytes, codes, bytes_eq}
use git_hub_action_cache_ser.Download.RangeHeader.{decimal}
use git_hub_action_cache_ser.Inventory.{
  IndexedFolderAccumulator, logical, indexed_object_missing, new_indexed_folder_accumulator, result,
  result_from, result_sizes, store_size, set_at, zeros, add_each, add_after, add, count, index_of,
  atoi, itoa, is_seen, mark, digits, unsigned, add_storage_bytes,
}
use git_hub_action_cache_ser.Inventory.Answers.{IsAnswer, add_each-IsAnswer}

abbrev fresh : IndexedFolderAccumulator
fresh = record { expected = 2; seen = λ word bit. false; sizes = none; logical_bytes = 0 }

-- The second `1` and the names that `Itoa` does not print are skipped.
abbrev objects : List (Bytes × ℤ)
objects =
    (codes "1", pos 7)
    ∷ (codes "01", pos 100)
    ∷ (codes "+0", pos 100)
    ∷ (codes "1", pos 9)
    ∷ (codes "0", pos 5)
    ∷ []

abbrev counted : IndexedFolderAccumulator
counted = record (mark 0 (mark 1 fresh)) { logical_bytes = 12 }

abbrev counted_sizes : IndexedFolderAccumulator
counted_sizes = record counted { sizes = some (zeros 2) }

new-run : new_indexed_folder_accumulator 2 ≡ some fresh
unfolding new_indexed_folder_accumulator
new-run = refl

add_each-run : add_each objects (some fresh) ≡ some counted
unfolding add_each add_after add count index_of atoi unsigned decimal any digits bytes_eq itoa
    is_seen mark add_storage_bytes
add_each-run = refl

result-run : result counted ≡ logical 12
unfolding result result_from is_seen mark
result-run = refl

result-run_missing : result (record (mark 0 fresh) { logical_bytes = 5 }) ≡ indexed_object_missing 1
unfolding result result_from is_seen mark
result-run_missing = refl

-- An object whose size is negative, or whose size overflows the sum, ends the walk.
add-run_overflow :
    add_each ((codes "0", pos 9223372036854775807) ∷ (codes "1", pos 1) ∷ []) (some fresh) ≡ none
unfolding add_each add_after add count index_of atoi unsigned decimal any digits bytes_eq itoa
    is_seen mark add_storage_bytes
add-run_overflow = refl

-- The list of sizes has the counted objects in the order of their indexes.
result_sizes-run :
    result_sizes
      (record (store_size 0 (pos 5) (store_size 1 (pos 7) counted_sizes)) { logical_bytes = 12 })
    ≡ some (pos 5 ∷ pos 7 ∷ [])
unfolding result_sizes result result_from is_seen mark set_at zeros
result_sizes-run = refl

add_each-IsAnswer_example : IsAnswer 2 objects (result counted)
add_each-IsAnswer_example = add_each-IsAnswer 2 objects fresh counted new-run add_each-run
