-- ===== src/Inventory/Indexed.antt =====
-- What one object of the folder adds to an inventory.
use git_hub_action_cache_ser.Prelude.{
  ℕ, zero, suc, ◌+◌, ◌-◌, ◌/◌, ◌%◌, ◌<◌, ◌≡◌, ◌≢◌, ◌⊎◌, inl, inr, refl, sym, ap, subst, ◌∙◌, Bool,
  true, false, ◌&&◌, ◌||◌, Option, none, some, List, ◌∷◌, if-cases, ltb, ◌==◌, ==_iff, any, find,
  holds, Bool-cases, arith,
}
use git_hub_action_cache_ser.Prelude.Int.{ℤ, pos, negsuc}
use git_hub_action_cache_ser.Db.{Bytes, bytes_eq}
use git_hub_action_cache_ser.Download.PartIndex.{max_int64}
use git_hub_action_cache_ser.Inventory.{
  IndexedFolderAccumulator, index_of, canonical, atoi, itoa, add_storage_bytes, is_seen, mark,
  with_bytes, store_size, count,
}

-- The object is the one of the index.
unfoldable pub is_object : ℕ → ℕ → Bytes × ℤ → Bool
is_object expected index (name, size) = holds (index_of expected name) (λ i. i == index)

abbrev pub size_of : Option (Bytes × ℤ) → ℕ
size_of none = 0
size_of (some (name, pos size)) = size
size_of (some (name, negsuc size)) = 0

-- The sum of the values at the numbers below a bound.
unfoldable pub sum_below : ℕ → (ℕ → ℕ) → ℕ
sum_below zero f = 0
sum_below (suc n) f = f n + sum_below n f

pub sum_below_same :
    (n : ℕ) (f g : ℕ → ℕ) → ((j : ℕ) → j < n → f j ≡ g j) → sum_below n f ≡ sum_below n g
unfolding sum_below
sum_below_same zero f g h = refl
sum_below_same (suc n) f g h =
    omega (arith, h n (omega arith), sum_below_same n f g (λ j l. h j (omega arith)))

-- Where two functions differ at one number only, and the second is 0 there.
sum_below_but :
    (n i : ℕ) (f g : ℕ → ℕ)
    → ((j : ℕ) → j ≢ i → f j ≡ g j)
    → g i ≡ 0
    → i < n
    → sum_below n f ≡ f i + sum_below n g
unfolding sum_below
sum_below_but zero i f g h z l = absurd (omega arith)
sum_below_but (suc n) i f g h z l = elim (Bool-cases (n == i)) [
  | inl e ↦
      let e' = (==_iff n i).0 e in
      subst (λ k. f n + sum_below n f ≡ f k + (g n + sum_below n g)) e'
        (omega (
          arith,
          subst (λ k. g k ≡ 0) (sym e') z,
          sum_below_same n f g (λ j b. h j (λ q. omega arith)),
        ))
  | inr e ↦ let ne = differ n i e in omega (arith, h n ne, sum_below_but n i f g h z (omega arith))
]
  where
    differ : (a b : ℕ) → (a == b) ≡ false → a ≢ b
    differ a b e q = ground arith

is_seen-mark :
    (j i : ℕ) (a : IndexedFolderAccumulator) → is_seen j (mark i a) ≡ (j == i || is_seen j a)
unfolding is_seen mark
is_seen-mark j i a = ap (λ b. b || a.seen (j / 64) (j % 64)) (same_bit j i)
  where
    same_bit : (j i : ℕ) → (j / 64 == i / 64 && j % 64 == i % 64) ≡ (j == i)
    same_bit j i = ground arith

abbrev pub unless_seen : Bool → Option (Bytes × ℤ) → ℕ
unless_seen true o = 0
unless_seen false o = size_of o

-- What the objects add to the total for an index.
unfoldable pub remaining : IndexedFolderAccumulator → List (Bytes × ℤ) → ℕ → ℕ
remaining a objects j = unless_seen (is_seen j a) (find (is_object a.expected j) objects)

index_of-below :
    (expected : ℕ) (name : Bytes) (i : ℕ) → index_of expected name ≡ some i → i < expected
unfolding index_of
index_of-below expected name i = below (atoi name)
  where
    below : (o : Option ℤ) → canonical expected name o ≡ some i → i < expected
    below none h = absurd (grind arith)
    below (some (negsuc n)) h = absurd (grind arith)
    below (some (pos n)) h =
        if-cases (λ x. x ≡ some i → i < expected) (ltb n expected && bytes_eq (itoa n) name)
          (some n) none (λ t e. grind arith) (λ t e. absurd (grind arith)) h

-- The call had its place in the sum and in the set of indexes.
unfoldable pub IsCounted :
    Bytes × ℤ → List (Bytes × ℤ) → IndexedFolderAccumulator → IndexedFolderAccumulator → Type 0
IsCounted object objects a b =
    (b.expected ≡ a.expected)
    × ((j : ℕ)
        → (is_seen j b || any (is_object a.expected j) objects)
          ≡ (is_seen j a || any (is_object a.expected j) (object ∷ objects)))
    × (b.logical_bytes + sum_below a.expected (remaining b objects)
        ≡ a.logical_bytes + sum_below a.expected (remaining a (object ∷ objects)))

is_object-of :
    (expected j : ℕ) (name : Bytes) (size : ℤ) (o : Option ℕ)
    → index_of expected name ≡ o
    → is_object expected j (name, size) ≡ holds o (λ i. i == j)
unfolding is_object
is_object-of expected j name size o e = ap (λ x. holds x (λ i. i == j)) e

-- An object that is skipped for each index that was not seen.
IsCounted-skipped :
    (object : Bytes × ℤ) (objects : List (Bytes × ℤ)) (a : IndexedFolderAccumulator)
    → ((j : ℕ) → (is_object a.expected j object ≡ false) ⊎ (is_seen j a ≡ true))
    → IsCounted object objects a a
unfolding IsCounted any remaining find
IsCounted-skipped object objects a h = (
  refl,
  (λ j. elim (h j) [ inl e ↦ simp e | inr e ↦ simp e ]),
  ap (λ s. a.logical_bytes + s)
      (sum_below_same a.expected (remaining a objects) (remaining a (object ∷ objects))
        (λ j l. elim (h j) [ inl e ↦ simp e | inr e ↦ simp e ])),
)

abbrev counted : ℕ → ℤ → ℕ → IndexedFolderAccumulator → IndexedFolderAccumulator
counted i size total a = record (store_size i size (mark i a)) { logical_bytes = total }

is_seen-counted :
    (j i : ℕ) (size : ℤ) (total : ℕ) (a : IndexedFolderAccumulator)
    → is_seen j (counted i size total a) ≡ (j == i || is_seen j a)
unfolding is_seen
is_seen-counted = λ j i size total a. is_seen-mark j i a

-- An object that is counted: the one index that it is for was not seen before.
IsCounted-marked :
    (object : Bytes × ℤ) (objects : List (Bytes × ℤ)) (a : IndexedFolderAccumulator) (i : ℕ)
    → ((j : ℕ) → is_object a.expected j object ≡ (i == j))
    → i < a.expected
    → is_seen i a ≡ false
    → IsCounted object objects a (counted i object.1 (a.logical_bytes + size_of (some object)) a)
unfolding IsCounted mark any remaining find
IsCounted-marked object objects a i h l unseen = (
  refl,
  (λ j.
      let m = is_seen-counted j i object.1 (a.logical_bytes + size_of (some object)) a in
      elim (Bool-cases (i == j)) [
        | inl e ↦
            let e' = symmetric i j true e in
            simp (m, h j, e, e') (absorbed (is_seen j a) (any (is_object a.expected j) objects))
        | inr e ↦ let e' = symmetric i j false e in simp (m, h j, e, e')
      ]),
  omega (
    arith,
    sum_below_but a.expected i (remaining a (object ∷ objects))
        (remaining (counted i object.1 (a.logical_bytes + size_of (some object)) a) objects)
        (λ j ne.
          let m = is_seen-counted j i object.1 (a.logical_bytes + size_of (some object)) a in
          let e = equal-false i j ne in let e' = symmetric i j false e in simp (m, h j, e, e'))
        (let m = is_seen-counted i i object.1 (a.logical_bytes + size_of (some object)) a in
          let e = equal-self i in simp (m, e))
        l,
    own_size,
  ),
)
  where
    absorbed : (s r : Bool) → true ≡ (s || (true || r))
    absorbed true r = refl
    absorbed false r = refl

    symmetric : (i j : ℕ) (b : Bool) → (i == j) ≡ b → (j == i) ≡ b
    symmetric i j b e = ground arith

    equal-false : (i j : ℕ) → j ≢ i → (i == j) ≡ false
    equal-false i j ne = ground arith

    equal-self : (i : ℕ) → (i == i) ≡ true
    equal-self i = ground arith

    own_size : remaining a (object ∷ objects) i ≡ size_of (some object)
    own_size = let e = equal-self i in simp (unseen, h i, e)

pub some-injective : {a b : IndexedFolderAccumulator} → some a ≡ some b → a ≡ b
some-injective p = cc

module _ (name : Bytes) (objects : List (Bytes × ℤ)) (a b : IndexedFolderAccumulator) where
  IsCounted-none :
      (size : ℤ)
      → index_of a.expected name ≡ none
      → some a ≡ some b
      → IsCounted (name, size) objects a b
  IsCounted-none size e h = subst (IsCounted (name, size) objects a) (some-injective h) (
      IsCounted-skipped (name, size) objects a
        (λ j. inl (is_object-of a.expected j name size none e)))

  IsCounted-again :
      (size : ℤ) (i : ℕ)
      → index_of a.expected name ≡ some i
      → is_seen i a ≡ true
      → some a ≡ some b
      → IsCounted (name, size) objects a b
  IsCounted-again size i e seen h = subst (IsCounted (name, size) objects a) (some-injective h) (
      IsCounted-skipped (name, size) objects a
        (λ j. elim (Bool-cases (i == j)) [
          | inl q ↦ inr (subst (λ k. is_seen k a ≡ true) ((==_iff i j).0 q) seen)
          | inr q ↦ inl (is_object-of a.expected j name size (some i) e ∙ q)
        ]))

  IsCounted-first :
      (size : ℤ) (i : ℕ)
      → index_of a.expected name ≡ some i
      → is_seen i a ≡ false
      → with_bytes (store_size i size (mark i a)) (add_storage_bytes a.logical_bytes size) ≡ some b
      → IsCounted (name, size) objects a b
  unfolding add_storage_bytes
  IsCounted-first (negsuc n) i e unseen = λ h. absurd (grind arith)
  IsCounted-first (pos n) i e unseen =
      if-cases
        (λ t.
          with_bytes (store_size i (pos n) (mark i a)) t ≡ some b
          → IsCounted (name, pos n) objects a b)
        (ltb (max_int64 - n) a.logical_bytes) none (some (a.logical_bytes + n))
        (λ t h. absurd (grind arith))
        (λ t h. subst (IsCounted (name, pos n) objects a) (some-injective h) (
          IsCounted-marked (name, pos n) objects a i
            (λ j. is_object-of a.expected j name (pos n) (some i) e)
            (index_of-below a.expected name i e) unseen))

  pub count-IsCounted :
      (size : ℤ) (o : Option ℕ)
      → index_of a.expected name ≡ o
      → count size a o ≡ some b
      → IsCounted (name, size) objects a b
  unfolding count
  count-IsCounted size none e h = IsCounted-none size e h
  count-IsCounted size (some i) e h =
      if-cases (λ x. x ≡ some b → IsCounted (name, size) objects a b) (is_seen i a) (some a)
        (with_bytes (store_size i size (mark i a)) (add_storage_bytes a.logical_bytes size))
        (IsCounted-again size i e) (IsCounted-first size i e) h
