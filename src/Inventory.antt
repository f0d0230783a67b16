-- ===== src/Inventory.antt =====
-- `indexedFolderAccumulator` of internal/storage/inventory.go: the objects of a folder whose names are
-- the indexes below an expected count, each counted once. A word of the bitmap is a function from its
-- 64 bits; errors of a call are `none`, except the one of a missing index, which is an answer.
pub mod Indexed
pub mod Answers
use git_hub_action_cache_ser.Prelude.{
  ℕ, zero, suc, ◌+◌, ◌-◌, ◌*◌, ◌/◌, ◌%◌, ◌^◌, ◌≤◌, ◌<◌, ◌≡◌, Bool, true, false, not, ◌&&◌, ◌||◌,
  Option, none, some, List, [], ◌∷◌, ◌++◌, if◌then◌else◌, ltb, leb, ◌==◌, any,
}
use git_hub_action_cache_ser.Prelude.Int.{ℤ, pos, negsuc}
use git_hub_action_cache_ser.Db.{Bytes, bytes_eq}
use git_hub_action_cache_ser.Download.PartIndex.{max_int64}
use git_hub_action_cache_ser.Download.RangeHeader.{is_empty, is_digit, decimal}

abbrev pub max_indexed_objects : ℕ
max_indexed_objects = 50000

-- The digits of a number that is at most `limit`.
unfoldable pub unsigned : ℕ → Bytes → Option ℕ
unsigned limit s =
    if is_empty s || any (λ b. not (is_digit b)) s
    then none
    else if leb (decimal 0 s) limit
    then some (decimal 0 s)
    else none

abbrev pub positive : Option ℕ → Option ℤ
positive none = none
positive (some n) = some (pos n)

abbrev pub negative : Option ℕ → Option ℤ
negative none = none
negative (some zero) = some (pos zero)
negative (some (suc n)) = some (negsuc n)

-- `strconv.Atoi`
unfoldable pub atoi : Bytes → Option ℤ
atoi [] = none
atoi (b ∷ s) =
    if b == 43
    then positive (unsigned max_int64 s)
    else if b == 45
    then negative (unsigned (max_int64 + 1) s)
    else positive (unsigned max_int64 (b ∷ s))

unfoldable pub digits : ℕ → ℕ → Bytes
digits zero n = []
digits (suc rounds) n =
    let rest = digits rounds (n / 10) in
    if ltb n 10 then (48 + n) ∷ [] else rest ++ (48 + n % 10) ∷ []

-- `strconv.Itoa` of a number that is not negative: an `int64` has at most 19 digits.
unfoldable pub itoa : ℕ → Bytes
itoa n = digits 19 n

abbrev pub canonical : ℕ → Bytes → Option ℤ → Option ℕ
canonical expected name none = none
canonical expected name (some (negsuc n)) = none
canonical expected name (some (pos index)) =
    if ltb index expected && bytes_eq (itoa index) name then some index else none

-- The index that a name is, where `add` counts it.
unfoldable pub index_of : ℕ → Bytes → Option ℕ
index_of expected name = canonical expected name (atoi name)

pub record IndexedFolderAccumulator : Type 0 where
  pub expected : ℕ
  pub seen : ℕ → ℕ → Bool
  -- nil where only the sum is asked for
  pub sizes : Option (List ℤ)
  pub logical_bytes : ℕ

unfoldable pub new_indexed_folder_accumulator : ℕ → Option IndexedFolderAccumulator
new_indexed_folder_accumulator expected =
    if ltb expected 1 || ltb max_indexed_objects expected
    then none
    else some
        (record { expected = expected; seen = λ word bit. false; sizes = none; logical_bytes = 0 })

-- `make([]int64, n)`
unfoldable pub zeros : ℕ → List ℤ
zeros zero = []
zeros (suc n) = pos 0 ∷ zeros n

abbrev pub with_zeros : ℕ → Option IndexedFolderAccumulator → Option IndexedFolderAccumulator
with_zeros expected none = none
with_zeros expected (some a) = some (record a { sizes = some (zeros expected) })

unfoldable pub new_indexed_folder_size_accumulator : ℕ → Option IndexedFolderAccumulator
new_indexed_folder_size_accumulator expected =
    with_zeros expected (new_indexed_folder_accumulator expected)

unfoldable pub add_storage_bytes : ℕ → ℤ → Option ℕ
add_storage_bytes total (pos size) =
    if ltb (max_int64 - size) total then none else some (total + size)
add_storage_bytes total (negsuc size) = none

-- `a.seen[index/64]&(1<<(index%64)) != 0`
unfoldable pub is_seen : ℕ → IndexedFolderAccumulator → Bool
is_seen index a = a.seen (index / 64) (index % 64)

-- `a.seen[index/64] |= 1<<(index%64)`
unfoldable pub mark : ℕ → IndexedFolderAccumulator → IndexedFolderAccumulator
mark index a = record a {
  seen = λ word bit. word == index / 64 && bit == index % 64 || a.seen word bit;
}

unfoldable pub set_at : ℕ → ℤ → List ℤ → List ℤ
set_at index size [] = []
set_at zero size (x ∷ xs) = size ∷ xs
set_at (suc index) size (x ∷ xs) = x ∷ set_at index size xs

abbrev pub stored : ℕ → ℤ → Option (List ℤ) → Option (List ℤ)
stored index size none = none
stored index size (some xs) = some (set_at index size xs)

-- `a.sizes[index] = sizeBytes` where there are sizes
abbrev pub store_size : ℕ → ℤ → IndexedFolderAccumulator → IndexedFolderAccumulator
store_size index size a = record a { sizes = stored index size a.sizes }

abbrev pub with_bytes : IndexedFolderAccumulator → Option ℕ → Option IndexedFolderAccumulator
with_bytes a none = none
with_bytes a (some total) = some (record a { logical_bytes = total })

unfoldable pub count : ℤ → IndexedFolderAccumulator → Option ℕ → Option IndexedFolderAccumulator
count size a none = some a
count size a (some index) =
    if is_seen index a
    then some a
    else with_bytes (store_size index size (mark index a)) (add_storage_bytes a.logical_bytes size)

unfoldable pub add : Bytes → ℤ → IndexedFolderAccumulator → Option IndexedFolderAccumulator
add name size a = count size a (index_of a.expected name)

pub data InventoryResult : Type 0 where
  logical : ℕ → InventoryResult
  indexed_object_missing : ℕ → InventoryResult

-- The loop of `result` from an index on, with the rounds that remain.
unfoldable pub result_from : ℕ → ℕ → IndexedFolderAccumulator → InventoryResult
result_from zero index a = logical a.logical_bytes
result_from (suc rounds) index a =
    let rest = result_from rounds (suc index) a in
    if is_seen index a then rest else indexed_object_missing index

unfoldable pub result : IndexedFolderAccumulator → InventoryResult
result a = result_from a.expected 0 a

abbrev pub sizes_of : IndexedFolderAccumulator → InventoryResult → Option (List ℤ)
sizes_of a (logical n) = a.sizes
sizes_of a (indexed_object_missing index) = none

-- `resultSizes`; `none` is its error, and the nil of an accumulator without sizes.
unfoldable pub result_sizes : IndexedFolderAccumulator → Option (List ℤ)
result_sizes a = sizes_of a (result a)

unfoldable pub add_after :
    Option IndexedFolderAccumulator → Bytes × ℤ → Option IndexedFolderAccumulator
add_after none object = none
add_after (some a) (name, size) = add name size a

-- The objects that a walk of the folder visits, up to the first error.
unfoldable pub add_each :
    List (Bytes × ℤ) → Option IndexedFolderAccumulator → Option IndexedFolderAccumulator
add_each [] a = a
add_each (object ∷ objects) a = add_each objects (add_after a object)
