-- ===== src/Download/PartIndex.antt =====
-- internal/cache/part_index.go: the boundaries of the parts of a payload. Sizes are `int64`, so one
-- may be negative, and a sum is checked against the largest `int64`. `sort.Search` is the library's:
-- it is a parameter, with what its documentation promises of a monotone test.
pub mod Boundaries
pub mod Location
pub mod Cache
use git_hub_action_cache_ser.Prelude.{
  ℕ, zero, suc, ◌+◌, ◌-◌, ◌≤◌, ◌<◌, ◌≡◌, Bool, true, false, ◌||◌, Option, none, some, List, [], ◌∷◌,
  ◌++◌, if◌then◌else◌, ltb, ◌==◌, length, get_elem?,
}
use git_hub_action_cache_ser.Prelude.Int.{ℤ, pos, negsuc}

-- `math.MaxInt64`
abbrev pub max_int64 : ℕ
max_int64 = 9223372036854775807

pub record PartIndex : Type 0 where
  pub ends : List ℕ
  pub total : ℕ

-- The loop of `newPartIndex`, with the index built so far.
unfoldable pub add_sizes : PartIndex → List ℤ → Option PartIndex
add_sizes index [] = some index
add_sizes index (negsuc n ∷ sizes) = none
add_sizes index (pos size ∷ sizes) =
    let rest =
      add_sizes
        (record { ends = index.ends ++ (index.total + size) ∷ []; total = index.total + size })
        sizes in
    if ltb (max_int64 - size) index.total then none else rest

-- `newPartIndex`; `none` is its error.
unfoldable pub new_part_index : List ℤ → Option PartIndex
new_part_index sizes = add_sizes (record { ends = []; total = 0 }) sizes

-- `ends[i]`, for an index inside the slice.
abbrev pub end_at : List ℕ → ℕ → ℕ
end_at [] i = 0
end_at (e ∷ es) zero = e
end_at (e ∷ es) (suc i) = end_at es i

-- Where a part begins: 0, or the end of the one before.
abbrev pub start_of : List ℕ → ℕ → ℕ
start_of ends zero = 0
start_of ends (suc part) = end_at ends part

-- `sort.Search(n, f)`: the smallest index below `n` at which `f` is true, or `n`, for a test that
-- stays true below `n` once it is.
pub record SortSearch : Type 0 where
  pub search : ℕ → (ℕ → Bool) → ℕ
  pub search_bound :
      (n : ℕ) (f : ℕ → Bool)
      → ((i : ℕ) → suc i < n → f i ≡ true → f (suc i) ≡ true)
      → search n f ≤ n
  pub search_below :
      (n : ℕ) (f : ℕ → Bool)
      → ((i : ℕ) → suc i < n → f i ≡ true → f (suc i) ≡ true)
      → (i : ℕ) → i < search n f
      → f i ≡ false
  pub search_found :
      (n : ℕ) (f : ℕ → Bool)
      → ((i : ℕ) → suc i < n → f i ≡ true → f (suc i) ≡ true)
      → search n f < n
      → f (search n f) ≡ true

module _ (sort : SortSearch) where
  -- The part that `locate` finds.
  unfoldable pub locate_part : PartIndex → ℕ → ℕ
  locate_part index offset =
      sort.search (length index.ends) (λ part. ltb offset (end_at index.ends part))

  -- `locate`: the part of an offset and the offset inside it.
  unfoldable pub locate : PartIndex → ℕ → ℕ × ℕ
  locate index offset =
      if locate_part index offset == length index.ends
      then (locate_part index offset, 0)
      else (locate_part index offset, offset - start_of index.ends (locate_part index offset))

-- `size`
unfoldable pub part_size : PartIndex → ℕ → ℕ
part_size index part = end_at index.ends part - start_of index.ends part
