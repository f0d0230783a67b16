-- ===== src/Download/PartIndex/Boundaries.antt =====
-- The index that `newPartIndex` of internal/cache/part_index.go makes of a list of sizes.
use git_hub_action_cache_ser.Prelude.{
  ℕ, zero, suc, ◌+◌, ◌-◌, ◌≤◌, ◌<◌, ◌≡◌, refl, ap, ◌∙◌, sym, true, false, Option, none, some, List,
  [], ◌∷◌, ◌++◌, map, All, ◌⊎◌, subst, append-nil, append_assoc, ltb, length, append-nil,
  append_assoc, arith, ltb→lt, inl, inr, Bool-cases,
}
use git_hub_action_cache_ser.Prelude.Int.{ℤ, pos, negsuc}
use git_hub_action_cache_ser.Download.PartIndex.{
  max_int64, PartIndex, add_sizes, new_part_index, end_at, start_of, part_size,
}

abbrev pub sum : List ℕ → ℕ
sum [] = 0
sum (x ∷ xs) = x + sum xs

-- The sum of the first sizes.
abbrev pub sum_before : List ℕ → ℕ → ℕ
sum_before xs zero = 0
sum_before [] (suc i) = 0
sum_before (x ∷ xs) (suc i) = x + sum_before xs i

abbrev pub size_at : List ℕ → ℕ → ℕ
size_at [] i = 0
size_at (x ∷ xs) zero = x
size_at (x ∷ xs) (suc i) = size_at xs i

-- The running sums of a list from a start.
abbrev pub ends_from : ℕ → List ℕ → List ℕ
ends_from start [] = []
ends_from start (x ∷ xs) = (start + x) ∷ ends_from (start + x) xs

abbrev pub positives : List ℕ → List ℤ
positives = map pos

abbrev pub index_of : List ℕ → ℕ → Option PartIndex
index_of e t = some (record { ends = e; total = t })

indexes-eq : {e e2 : List ℕ} {t t2 : ℕ} → e ≡ e2 → t ≡ t2 → index_of e t ≡ index_of e2 t2
indexes-eq p q = λ i. some (record { ends = p i; total = q i })

has_room : (total x rest : ℕ) → total + (x + rest) ≤ max_int64 → ltb (max_int64 - x) total ≡ false
has_room total x rest h = ground arith

-- A size is a number of 64 bits with a sign.
abbrev pub IsInt64 : ℤ → Type 0
IsInt64 (pos n) = n ≤ max_int64
IsInt64 (negsuc n) = n ≤ max_int64

add_sizes-ends :
    (index : PartIndex) (xs : List ℕ)
    → index.total + sum xs ≤ max_int64
    → add_sizes index (positives xs)
      ≡ some
          (record { ends = index.ends ++ ends_from index.total xs; total = index.total + sum xs })
unfolding add_sizes
add_sizes-ends index [] h = indexes-eq (sym (append-nil index.ends)) (omega arith)
add_sizes-ends index (x ∷ xs) h = rw (has_room index.total x (sum xs) h) (
    add_sizes-ends (record { ends = index.ends ++ (index.total + x) ∷ []; total = index.total + x })
      xs (omega arith)
    ∙ indexes-eq (append_assoc index.ends ((index.total + x) ∷ []) (ends_from (index.total + x) xs))
        (omega arith))

has_room_bound :
    (total x : ℕ) → x ≤ max_int64 → ltb (max_int64 - x) total ≡ false → total + x ≤ max_int64
has_room_bound total x b e = ground arith

add_sizes-refused :
    (index : PartIndex) (xs : List ℕ)
    → index.total ≤ max_int64
    → All IsInt64 (positives xs)
    → max_int64 < index.total + sum xs
    → add_sizes index (positives xs) ≡ none
unfolding add_sizes
add_sizes-refused index [] w b h = absurd (omega arith)
add_sizes-refused index (x ∷ xs) w (b, bs) h = elim (Bool-cases (ltb (max_int64 - x) index.total)) [
  | inl e ↦ rw e
  | inr e ↦ rw e (
      add_sizes-refused
        (record { ends = index.ends ++ (index.total + x) ∷ []; total = index.total + x }) xs
        (has_room_bound index.total x b e) bs (omega arith))
]

negative-not-positives :
    (n : ℕ) (sizes : List ℤ) (xs : List ℕ) → ¬ (negsuc n ∷ sizes ≡ positives xs)
negative-not-positives n sizes [] e = cc
negative-not-positives n sizes (x ∷ xs) e = cc

tail-positives :
    (x : ℕ) (sizes : List ℤ) (xs : List ℕ)
    → pos x ∷ sizes ≡ positives xs
    → (ys : List ℕ) × (sizes ≡ positives ys)
tail-positives x sizes [] e = cc
tail-positives x sizes (y ∷ ys) e = (ys, cc)

-- A list of sizes has no negative one, or is refused by every index.
sizes-cases :
    (sizes : List ℤ)
    → ((xs : List ℕ) × (sizes ≡ positives xs))
      ⊎ ((¬ ((xs : List ℕ) × (sizes ≡ positives xs)))
          × ((index : PartIndex) → add_sizes index sizes ≡ none))
unfolding add_sizes
sizes-cases [] = inl ([], refl)
sizes-cases (negsuc n ∷ sizes) = inr (λ (xs, e). negative-not-positives n sizes xs e, λ index. refl)
sizes-cases (pos x ∷ sizes) = elim (sizes-cases sizes) [
  | inl (xs, e) ↦ inl (x ∷ xs, ap (λ rest. pos x ∷ rest) e)
  | inr (h, r) ↦ inr (
    λ (xs, e). h (tail-positives x sizes xs e),
    λ index. elim (Bool-cases (ltb (max_int64 - x) index.total)) [
      | inl e ↦ rw e
      | inr e ↦ rw e (r _)
    ],
  )
]

-- What an index says of the sizes: its boundaries are their running sums, below the largest `int64`;
-- and there is none where a size is negative or the sum is no `int64`.
abbrev pub IsIndexOf : List ℤ → Option PartIndex → Type 0
IsIndexOf sizes (some index) =
    (xs : List ℕ) × (sizes ≡ positives xs)
    × (sum xs ≤ max_int64)
    × (index.ends ≡ ends_from 0 xs)
    × (index.total ≡ sum xs)
IsIndexOf sizes none = ¬ ((xs : List ℕ) × (sizes ≡ positives xs) × (sum xs ≤ max_int64))

positives-sum : (xs ys : List ℕ) → positives xs ≡ positives ys → sum xs ≡ sum ys
positives-sum [] [] e = refl
positives-sum [] (y ∷ ys) e = cc
positives-sum (x ∷ xs) [] e = cc
positives-sum (x ∷ xs) (y ∷ ys) e =
    heads x y (sum xs) (sum ys) (cc) (positives-sum xs ys (tails x y xs ys e))
  where
    heads : (a b c d : ℕ) → a ≡ b → c ≡ d → a + c ≡ b + d
    heads a b c d p q = omega arith

    tails :
        (x y : ℕ) (xs ys : List ℕ)
        → positives (x ∷ xs) ≡ positives (y ∷ ys)
        → positives xs ≡ positives ys
    tails x y xs ys e = cc

positives_index :
    (xs : List ℕ)
    → All IsInt64 (positives xs)
    → IsIndexOf (positives xs) (new_part_index (positives xs))
unfolding new_part_index
positives_index xs b = elim (Bool-cases (ltb max_int64 (sum xs))) [
  | inl e ↦
      subst (IsIndexOf (positives xs))
        (sym (
          add_sizes-refused (record { ends = []; total = 0 }) xs (omega arith) b
            (above (sum xs) e)))
        (λ (ys, e2, h).
          ne max_int64 (sum xs) (sum ys) (ltb→lt max_int64 (sum xs) e) (positives-sum xs ys e2) h)
  | inr e ↦
      subst (IsIndexOf (positives xs))
        (sym (add_sizes-ends (record { ends = []; total = 0 }) xs (below_zero (sum xs) e)))
        (xs, refl, below (sum xs) e, refl, omega arith)
]
  where
    below : (n : ℕ) → ltb max_int64 n ≡ false → n ≤ max_int64
    below n e = ground arith

    below_zero : (n : ℕ) → ltb max_int64 n ≡ false → 0 + n ≤ max_int64
    below_zero n e = ground arith

    above : (n : ℕ) → ltb max_int64 n ≡ true → max_int64 < 0 + n
    above n e = ground arith

    ne : (m a b : ℕ) → m < a → a ≡ b → ¬ (b ≤ m)
    ne m a b h e l = omega arith

-- An index of sizes of 64 bits has their running sums as its boundaries and their sum, which is a
-- number of 64 bits, as its total; there is none exactly where a size is negative or the sum is too
-- large.
pub new_part_index-IsIndexOf :
    (sizes : List ℤ) → All IsInt64 sizes → IsIndexOf sizes (new_part_index sizes)
unfolding new_part_index
new_part_index-IsIndexOf sizes b = elim (sizes-cases sizes) [
  | inl (xs, e) ↦
      subst (λ s. IsIndexOf s (new_part_index s)) (sym e)
        (positives_index xs (subst (All IsInt64) e b))
  | inr (h, r) ↦ subst (IsIndexOf sizes) (sym (r _)) (λ (xs, e, l). h (xs, e))
]

pub sum_before-suc : (xs : List ℕ) (i : ℕ) → sum_before xs (suc i) ≡ sum_before xs i + size_at xs i
sum_before-suc [] zero = refl
sum_before-suc [] (suc i) = refl
sum_before-suc (x ∷ xs) zero = omega arith
sum_before-suc (x ∷ xs) (suc i) = omega (arith, sum_before-suc xs i)

pub sum_before-length : (xs : List ℕ) → sum_before xs (length xs) ≡ sum xs
sum_before-length [] = refl
sum_before-length (x ∷ xs) = omega (arith, sum_before-length xs)

pub length-ends : (start : ℕ) (xs : List ℕ) → length (ends_from start xs) ≡ length xs
length-ends start [] = refl
length-ends start (x ∷ xs) = ap suc (length-ends (start + x) xs)

pub end_at-sum :
    (start : ℕ) (xs : List ℕ) (i : ℕ)
    → i < length xs
    → end_at (ends_from start xs) i ≡ start + sum_before xs (suc i)
end_at-sum start [] i h = absurd (omega arith)
end_at-sum start (x ∷ xs) zero h = omega arith
end_at-sum start (x ∷ xs) (suc i) h = omega (arith, end_at-sum (start + x) xs i (omega arith))

pub start_of-sum :
    (xs : List ℕ) (i : ℕ) → i < length xs → start_of (ends_from 0 xs) i ≡ sum_before xs i
start_of-sum xs zero h = refl
start_of-sum xs (suc i) h = omega (arith, end_at-sum 0 xs i (omega arith))

-- The size of a part by its boundaries is its size.
pub part_size-size_at :
    (xs : List ℕ) (i : ℕ)
    → i < length xs
    → part_size (record { ends = ends_from 0 xs; total = sum xs }) i ≡ size_at xs i
unfolding part_size
part_size-size_at xs i h =
    omega (arith, end_at-sum 0 xs i h, start_of-sum xs i h, sum_before-suc xs i)

-- The index of sizes whose sum is a number of 64 bits.
pub new_part_index-positives :
    (xs : List ℕ)
    → sum xs ≤ max_int64
    → new_part_index (positives xs) ≡ some (record { ends = ends_from 0 xs; total = sum xs })
unfolding new_part_index
new_part_index-positives xs h =
    add_sizes-ends (record { ends = []; total = 0 }) xs (omega arith)
    ∙ indexes-eq refl (omega arith)
