-- ===== src/Inventory/Answers.antt =====
-- The result of an inventory against the list of the folder's objects.
use git_hub_action_cache_ser.Prelude.{
  ℕ, zero, suc, ◌+◌, ◌≤◌, ◌<◌, ◌≡◌, ◌≢◌, ◌⊎◌, inl, inr, refl, sym, ap, subst, ◌∙◌, Bool, true,
  false, ◌||◌, Option, none, some, List, [], ◌∷◌, if-cases, ltb, ◌==◌, ==_iff, any, find,
  Bool-cases, Option-cases, arith,
}
use git_hub_action_cache_ser.Prelude.Int.{ℤ}
use git_hub_action_cache_ser.Db.{Bytes}
use git_hub_action_cache_ser.Inventory.{
  IndexedFolderAccumulator, InventoryResult, logical, indexed_object_missing,
  new_indexed_folder_accumulator, max_indexed_objects, index_of, is_seen, add, result_from, result,
  add_after, add_each,
}
use git_hub_action_cache_ser.Inventory.Indexed.{
  size_of, is_object, sum_below, remaining, unless_seen, IsCounted, some-injective, count-IsCounted,
}

add_each-none : (objects : List (Bytes × ℤ)) → add_each objects none ≡ none
unfolding add_each add_after
add_each-none [] = refl
add_each-none (object ∷ objects) = add_each-none objects

-- All objects have their place in the sum and in the set of indexes.
IsTotal : List (Bytes × ℤ) → IndexedFolderAccumulator → IndexedFolderAccumulator → Type 0
IsTotal objects a b =
    (b.expected ≡ a.expected)
    × ((j : ℕ) → is_seen j b ≡ (is_seen j a || any (is_object a.expected j) objects))
    × (b.logical_bytes + sum_below a.expected (remaining b [])
        ≡ a.logical_bytes + sum_below a.expected (remaining a objects))

some_or_none :
    (o : Option IndexedFolderAccumulator) (b : IndexedFolderAccumulator) → o ≡ none → o ≢ some b
some_or_none o b e h = absurd (grind arith)

add_each-IsTotal :
    (objects : List (Bytes × ℤ)) (a b : IndexedFolderAccumulator)
    → add_each objects (some a) ≡ some b
    → IsTotal objects a b
unfolding add_each add_after add IsTotal IsCounted any find remaining
add_each-IsTotal [] a b h =
    subst (IsTotal [] a) (some-injective h) (refl, (λ j. or_false (is_seen j a)), refl)
  where
    or_false : (b : Bool) → b ≡ (b || false)
    or_false true = refl
    or_false false = refl
add_each-IsTotal ((name, size) ∷ objects) a b h = elim (Option-cases (add name size a)) [
  | inl e ↦ absurd (
      some_or_none (add_each objects (add name size a)) b
        (ap (add_each objects) e ∙ add_each-none objects) h)
  | inr (a', e) ↦
      let (q, seen, sum) =
        count-IsCounted name objects a a' size (index_of a.expected name) refl e in
      let (q', seen', sum') = add_each-IsTotal objects a' b (sym (ap (add_each objects) e) ∙ h) in
      (
        q' ∙ q,
        (λ j. seen' j ∙ (ap (λ n. is_seen j a' || any (is_object n j) objects) q ∙ seen j)),
        subst
              (λ n.
                b.logical_bytes + sum_below n (remaining b [])
                ≡ a'.logical_bytes + sum_below n (remaining a' objects))
              q sum'
            ∙ sum,
      )
]

-- The answers of the loop of `result` from an index on.
IsAnswerFrom : ℕ → ℕ → IndexedFolderAccumulator → InventoryResult → Type 0
IsAnswerFrom rounds index a r =
    ((r ≡ logical a.logical_bytes)
      × ((j : ℕ) → index ≤ j → j < index + rounds → is_seen j a ≡ true))
    ⊎ ((i : ℕ) × (r ≡ indexed_object_missing i)
        × (i < index + rounds)
        × (is_seen i a ≡ false)
        × ((j : ℕ) → index ≤ j → j < i → is_seen j a ≡ true))

result_from-IsAnswerFrom :
    (rounds index : ℕ) (a : IndexedFolderAccumulator)
    → IsAnswerFrom rounds index a (result_from rounds index a)
unfolding result_from IsAnswerFrom
result_from-IsAnswerFrom zero index a = inl (refl, λ j l u. absurd (omega arith))
result_from-IsAnswerFrom (suc rounds) index a =
    if-cases (IsAnswerFrom (suc rounds) index a) (is_seen index a)
      (result_from rounds (suc index) a) (indexed_object_missing index)
      (λ t. elim (result_from-IsAnswerFrom rounds (suc index) a) [
        | inl (e, seen) ↦ inl (e, λ j l u. from t j l (λ l'. seen j l' (omega arith)))
        | inr (i, e, u, unseen, seen) ↦
            inr (i, e, omega arith, unseen, λ j l u'. from t j l (λ l'. seen j l' u'))
      ])
      (λ t. inr (index, refl, omega arith, t, λ j l u. absurd (omega arith)))
  where
    from :
        is_seen index a ≡ true
        → (j : ℕ) → index ≤ j
        → (index < j → is_seen j a ≡ true)
        → is_seen j a ≡ true
    from t j l later = elim (Bool-cases (index == j)) [
      | inl e ↦ subst (λ k. is_seen k a ≡ true) ((==_iff index j).0 e) t
      | inr e ↦ later (ground arith)
    ]

-- Every index below the expected count has an object.
abbrev pub IsComplete : ℕ → List (Bytes × ℤ) → ℕ → Type 0
IsComplete expected objects bound = (j : ℕ) → j < bound → any (is_object expected j) objects ≡ true

unfoldable pub sum_of_sizes : ℕ → List (Bytes × ℤ) → ℕ
sum_of_sizes expected objects =
    sum_below expected (λ i. size_of (find (is_object expected i) objects))

sum_below-zero : (n : ℕ) (f : ℕ → ℕ) → ((j : ℕ) → f j ≡ 0) → sum_below n f ≡ 0
unfolding sum_below
sum_below-zero zero f h = refl
sum_below-zero (suc n) f h = omega (arith, h n, sum_below-zero n f h)

abbrev empty_of : ℕ → IndexedFolderAccumulator
empty_of expected = record {
  expected = expected;
  seen = λ word bit. false;
  sizes = none;
  logical_bytes = 0;
}

new-empty :
    (expected : ℕ) (a : IndexedFolderAccumulator)
    → new_indexed_folder_accumulator expected ≡ some a
    → empty_of expected ≡ a
unfolding new_indexed_folder_accumulator
new-empty expected a =
    if-cases (λ x. x ≡ some a → empty_of expected ≡ a)
      (ltb expected 1 || ltb max_indexed_objects expected) none (some (empty_of expected))
      (λ t h. absurd (grind arith)) (λ t h. some-injective h)

unfoldable pub IsAnswer : ℕ → List (Bytes × ℤ) → InventoryResult → Type 0
IsAnswer expected objects r =
    ((r ≡ logical (sum_of_sizes expected objects)) × IsComplete expected objects expected)
    ⊎ ((i : ℕ) × (r ≡ indexed_object_missing i)
        × (i < expected)
        × (any (is_object expected i) objects ≡ false)
        × IsComplete expected objects i)

IsTotal-IsAnswer :
    (expected : ℕ) (objects : List (Bytes × ℤ)) (b : IndexedFolderAccumulator)
    → IsTotal objects (empty_of expected) b
    → IsAnswer expected objects (result b)
unfolding IsTotal IsAnswer IsAnswerFrom result is_seen remaining sum_of_sizes find
IsTotal-IsAnswer expected objects b (q, seen, sum) =
    subst (λ n. IsAnswer expected objects (result_from n 0 b)) (sym q)
      (elim (result_from-IsAnswerFrom expected 0 b) [
        | inl (e, all) ↦
            inl (e ∙ ap logical total, λ j l. sym (seen j) ∙ all j (omega arith) (omega arith))
        | inr (i, e, l, unseen, before) ↦ inr (
          i,
          e,
          omega arith,
          sym (seen i) ∙ unseen,
          λ j l'. sym (seen j) ∙ before j (omega arith) l',
        )
      ])
  where
    no_more : (s : Bool) → unless_seen s none ≡ 0
    no_more true = refl
    no_more false = refl

    total : b.logical_bytes ≡ sum_of_sizes expected objects
    total =
        omega (arith, sum, sum_below-zero expected (remaining b []) (λ j. no_more (is_seen j b)))

-- Where the inventory of a folder meets no error, its result is the sum of the sizes of the first
-- object of each index below the expected count, if every such index has an object, and else the
-- error that names the least index without one. Repeated and other names do not count.
pub add_each-IsAnswer :
    (expected : ℕ) (objects : List (Bytes × ℤ)) (a b : IndexedFolderAccumulator)
    → new_indexed_folder_accumulator expected ≡ some a
    → add_each objects (some a) ≡ some b
    → IsAnswer expected objects (result b)
add_each-IsAnswer expected objects a b e h = IsTotal-IsAnswer expected objects b (
    subst (λ c. IsTotal objects c b) (sym (new-empty expected a e))
      (add_each-IsTotal objects a b h))
