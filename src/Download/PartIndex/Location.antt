-- ===== src/Download/PartIndex/Location.antt =====
-- What `locate` of internal/cache/part_index.go gives for an offset.
use git_hub_action_cache_ser.Prelude.{
  ℕ, zero, suc, ◌+◌, ◌-◌, ◌≤◌, ◌<◌, ◌≡◌, ◌∙◌, subst, Bool, true, false, List, [], ◌∷◌, ltb, ◌==◌,
  length, arith, inl, inr, ◌↔◌, ◌⊎◌, ==_iff, Bool-cases,
}
use git_hub_action_cache_ser.Download.PartIndex.{
  PartIndex, end_at, start_of, SortSearch, locate_part, locate,
}
use git_hub_action_cache_ser.Download.PartIndex.Boundaries.{
  sum, sum_before, size_at, ends_from, sum_before-suc, sum_before-length, length-ends, end_at-sum,
  start_of-sum,
}

-- The index of a list of sizes.
abbrev pub index_of_sizes : List ℕ → PartIndex
index_of_sizes xs = record { ends = ends_from 0 xs; total = sum xs }

sum_before-le : (xs : List ℕ) (i : ℕ) → sum_before xs i ≤ sum_before xs (suc i)
sum_before-le xs i = omega (arith, sum_before-suc xs i)

sum_before-le_sum : (xs : List ℕ) (i : ℕ) → sum_before xs i ≤ sum xs
sum_before-le_sum xs zero = omega arith
sum_before-le_sum [] (suc i) = omega arith
sum_before-le_sum (x ∷ xs) (suc i) = omega (arith, sum_before-le_sum xs i)

ltb-by : (o e s : ℕ) → e ≡ 0 + s → (ltb o e ≡ true) ↔ (o < s)
ltb-by o e s h = (λ t. ground arith, λ l. ground arith)

ltb-not : (o e s : ℕ) → e ≡ 0 + s → ltb o e ≡ false → s ≤ o
ltb-not o e s h f = ground arith

-- A part holds an offset: it begins at or before it, and ends after it.
abbrev pub IsInPart : List ℕ → ℕ → ℕ × ℕ → Type 0
IsInPart xs offset (part, inner) =
    (part < length xs) × (sum_before xs part + inner ≡ offset) × (inner < size_at xs part)

module _ (xs : List ℕ) (offset : ℕ) where
  after : ℕ → Bool
  after part = ltb offset (end_at (ends_from 0 xs) part)

  after_iff : (i : ℕ) → i < length xs → (after i ≡ true) ↔ (offset < sum_before xs (suc i))
  unfolding after
  after_iff i h = ltb-by offset _ _ (end_at-sum 0 xs i h)

  not_after : (i : ℕ) → i < length xs → after i ≡ false → sum_before xs (suc i) ≤ offset
  unfolding after
  not_after i h e = ltb-not offset _ _ (end_at-sum 0 xs i h) e

  after-monotone : (i : ℕ) → suc i < length (ends_from 0 xs) → after i ≡ true → after (suc i) ≡ true
  after-monotone i h e =
      (after_iff (suc i) (omega (arith, length-ends 0 xs))).1 (
        omega
          (arith, (after_iff i (omega (arith, length-ends 0 xs))).0 e, sum_before-le xs (suc i)))

  module _ (sort : SortSearch) where
    found : ℕ
    found = sort.search (length (ends_from 0 xs)) after

    starts_before :
        (part : ℕ)
        → part ≤ length xs
        → ((i : ℕ) → i < part → after i ≡ false)
        → sum_before xs part ≤ offset
    starts_before zero h f = omega arith
    starts_before (suc i) h f = not_after i (omega arith) (f i (omega arith))

    false_below : (i : ℕ) → i < found → after i ≡ false
    unfolding found
    false_below = sort.search_below (length (ends_from 0 xs)) after after-monotone

    found-last : length xs ≤ found → sum xs ≤ offset
    found-last h = omega (
      arith,
      sum_before-length xs,
      starts_before (length xs) (omega arith) (λ i l. false_below i (omega arith)),
    )

    after-found : found < length xs → after found ≡ true
    unfolding found
    after-found l =
        sort.search_found (length (ends_from 0 xs)) after after-monotone
          (omega (arith, length-ends 0 xs, l))

    locate-found :
        offset < sum xs
        → found < length xs
        → IsInPart xs offset (found, offset - start_of (ends_from 0 xs) found)
    locate-found h l = (
      l,
      omega (arith, start_of-sum xs found l, starts_before found (omega arith) false_below),
      omega (
        arith,
        start_of-sum xs found l,
        starts_before found (omega arith) false_below,
        sum_before-suc xs found,
        (after_iff found l).0 (after-found l),
      ),
    )

    found_le : found ≤ length xs
    unfolding found
    found_le =
        subst (λ n. found ≤ n) (length-ends 0 xs)
          (sort.search_bound (length (ends_from 0 xs)) after after-monotone)

    found_end : (found == length (ends_from 0 xs)) ≡ true → found ≡ length xs
    found_end e = (==_iff found (length (ends_from 0 xs))).0 e ∙ length-ends 0 xs

    at_end : (found == length (ends_from 0 xs)) ≡ true → length xs ≤ found
    at_end e = omega (arith, found_end e)

    before_end : (found == length (ends_from 0 xs)) ≡ false → found < length xs
    before_end e = ne found (length (ends_from 0 xs)) (length xs) (length-ends 0 xs) found_le e
      where
        ne : (f n m : ℕ) → n ≡ m → f ≤ m → (f == n) ≡ false → f < m
        ne f n m p l e = ground arith

    below_total : found < length xs → offset < sum xs
    below_total l =
        omega (arith, (after_iff found l).0 (after-found l), sum_before-le_sum xs (suc found))

    -- Below the total `locate` gives a part and an inner offset such that the sizes of the parts before
    -- it and the inner offset add up to the offset, and the part is larger than the inner offset. At
    -- or past the total it gives the number of parts, and 0.
    pub locate-part :
        ((offset < sum xs) × IsInPart xs offset (locate sort (index_of_sizes xs) offset))
        ⊎ ((sum xs ≤ offset) × (locate sort (index_of_sizes xs) offset ≡ (length xs, 0)))
    unfolding locate locate_part found after
    locate-part = elim (Bool-cases (found == length (ends_from 0 xs))) [
      | inl e ↦ rw e (inr (found-last (at_end e), λ i. (found_end e i, 0)))
      | inr e ↦ rw e (
          inl
            (below_total (before_end e), locate-found (below_total (before_end e)) (before_end e)))
    ]
