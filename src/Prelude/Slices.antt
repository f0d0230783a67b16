-- ===== src/Prelude/Slices.antt =====
-- `xs[:n]` and `xs[n:]`, with a length past the end allowed.
use Prim.Native.Nat.{ℕ, zero, suc, ◌+◌, ◌-◌, ◌≤◌, min}
use mathlib.Core.Path.{◌≡◌, refl, ap, ◌∙◌, sym}
use mathlib.Core.List.{List, [], ◌∷◌, ◌++◌}
use native.Mathlib.Omega.{arith}
use native.Mathlib.Decide.{dec_le}
use git_hub_action_cache_ser.Prelude.Lists.{length}

-- The first `n` elements, and what follows them.
module _ {ℓ} {A : Type ℓ} where
  abbrev pub take : ℕ → List A → List A
  take zero xs = []
  take (suc n) [] = []
  take (suc n) (x ∷ xs) = x ∷ take n xs

  abbrev pub drop : ℕ → List A → List A
  drop zero xs = xs
  drop (suc n) [] = []
  drop (suc n) (x ∷ xs) = drop n xs

  pub length-drop : (n : ℕ) (xs : List A) → length (drop n xs) ≡ length xs - n
  length-drop zero xs = omega arith
  length-drop (suc n) [] = omega arith
  length-drop (suc n) (x ∷ xs) = omega (arith, length-drop n xs)

  pub take-append :
      (n : ℕ) (xs ys : List A) → take n (xs ++ ys) ≡ take n xs ++ take (n - length xs) ys
  take-append zero xs ys =
      let none_left : 0 ≡ 0 - length xs = omega arith in ap (λ k. take k ys) none_left
  take-append (suc n) [] ys =
      let all_left : suc n ≡ suc n - 0 = omega arith in ap (λ k. take k ys) all_left
  take-append (suc n) (x ∷ xs) ys =
      let one_less : n - length xs ≡ suc n - suc (length xs) = omega arith in
      ap (λ zs. x ∷ zs) (take-append n xs ys) ∙ ap (λ k. x ∷ (take n xs ++ take k ys)) one_less

  -- Dropping no more than the first list.
  pub drop-append : (n : ℕ) (xs ys : List A) → n ≤ length xs → drop n (xs ++ ys) ≡ drop n xs ++ ys
  drop-append zero xs ys h = refl
  drop-append (suc n) [] ys h = absurd (omega arith)
  drop-append (suc n) (x ∷ xs) ys h = drop-append n xs ys (omega arith)

  pub drop-all : (n : ℕ) (xs : List A) → length xs ≤ n → drop n xs ≡ []
  drop-all zero [] h = refl
  drop-all zero (x ∷ xs) h = absurd (omega arith)
  drop-all (suc n) [] h = refl
  drop-all (suc n) (x ∷ xs) h = drop-all n xs (omega arith)

  pub take-all : (n : ℕ) (xs : List A) → length xs ≤ n → take n xs ≡ xs
  take-all zero [] h = refl
  take-all zero (x ∷ xs) h = absurd (omega arith)
  take-all (suc n) [] h = refl
  take-all (suc n) (x ∷ xs) h = ap (λ ys. x ∷ ys) (take-all n xs (omega arith))

  pub length-take : (n : ℕ) (xs : List A) → n ≤ length xs → length (take n xs) ≡ n
  length-take zero xs h = refl
  length-take (suc n) [] h = absurd (omega arith)
  length-take (suc n) (x ∷ xs) h = ap suc (length-take n xs (omega arith))

  -- Taking past the end of the first of two lists, by its length.
  pub take-min : (n : ℕ) (xs : List A) → take (min (length xs) n) xs ≡ take n xs
  take-min n xs = elim (dec_le (length xs) n) [
    | yes short ↦
        let e : min (length xs) n ≡ length xs = omega arith in
        ap (λ k. take k xs) e ∙ take-all (length xs) xs (omega arith) ∙ sym (take-all n xs short)
    | no long ↦ let e : min (length xs) n ≡ n = omega arith in ap (λ k. take k xs) e
  ]

  -- Dropping the first of two lists and more.
  pub drop-length_add : (xs ys : List A) (k : ℕ) → drop (length xs + k) (xs ++ ys) ≡ drop k ys
  drop-length_add [] ys k = let e : 0 + k ≡ k = omega arith in ap (λ n. drop n ys) e
  drop-length_add (x ∷ xs) ys k =
      let e : suc (length xs) + k ≡ suc (length xs + k) = omega arith in
      ap (λ n. drop n (x ∷ (xs ++ ys))) e ∙ drop-length_add xs ys k
