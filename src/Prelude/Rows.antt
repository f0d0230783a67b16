-- ===== src/Prelude/Rows.antt =====
-- Tables as lists of rows: the statements SELECT, UPDATE and DELETE with a WHERE clause.
use mathlib.Core.Path.{◌≡◌, refl, subst, ap}
use mathlib.Core.Logic.{inl, inr}
use mathlib.Core.Bool.{Bool, true, false, ◌||◌}
use mathlib.Core.Option.{Option, none, some}
use mathlib.Core.List.{List, [], ◌∷◌, ◌++◌}
use native.Mathlib.Omega.{arith}
use git_hub_action_cache_ser.Prelude.Tests.{if◌then◌else◌, Bool-cases}
use git_hub_action_cache_ser.Prelude.Lists.{All}

module _ {ℓ} {A : Type ℓ} where
  -- `Where(p).Exist`
  unfoldable pub any : (A → Bool) → List A → Bool
  any p [] = false
  any p (x ∷ xs) = p x || any p xs

  -- `Where(p).First`, in the table's order
  unfoldable pub find : (A → Bool) → List A → Option A
  find p [] = none
  find p (x ∷ xs) = if p x then some x else find p xs

  -- `Update().Where(p)`
  unfoldable pub update_where : (A → Bool) → (A → A) → List A → List A
  update_where p f [] = []
  update_where p f (x ∷ xs) = (if p x then f x else x) ∷ update_where p f xs

  -- `Delete().Where(p)`
  unfoldable pub delete_where : (A → Bool) → List A → List A
  delete_where p [] = []
  delete_where p (x ∷ xs) = if p x then delete_where p xs else x ∷ delete_where p xs

  pub any-append : (p : A → Bool) (xs ys : List A) → any p (xs ++ ys) ≡ (any p xs || any p ys)
  unfolding any
  any-append p [] ys = refl
  any-append p (x ∷ xs) ys = ground (arith, any-append p xs ys)

  -- A row that a DELETE does not meet stays.
  pub any-delete_where :
      (p q : A → Bool) (xs : List A)
      → ((x : A) → p x ≡ true → q x ≡ false)
      → any p (delete_where q xs) ≡ any p xs
  unfolding any delete_where
  any-delete_where p q [] h = refl
  any-delete_where p q (x ∷ xs) h = ground (arith, h x, any-delete_where p q xs h)

  -- What a DELETE has taken is gone, and what is gone before stays gone.
  pub delete_where-twice :
      (p : A → Bool) (xs : List A) → delete_where p (delete_where p xs) ≡ delete_where p xs
  unfolding delete_where
  delete_where-twice p [] = refl
  delete_where-twice p (x ∷ xs) = twice (p x) refl (delete_where-twice p xs)
    where
      twice :
          (b : Bool)
          → p x ≡ b
          → delete_where p (delete_where p xs) ≡ delete_where p xs
          → delete_where p (if b then delete_where p xs else x ∷ delete_where p xs)
            ≡ (if b then delete_where p xs else x ∷ delete_where p xs)
      twice true e again = again
      twice false e again = rw e (ap (λ ys. x ∷ ys) again)

  -- A DELETE and an UPDATE that meet no row change nothing.
  pub delete_where-absent : (p : A → Bool) (xs : List A) → any p xs ≡ false → delete_where p xs ≡ xs
  unfolding any delete_where
  delete_where-absent p [] h = refl
  delete_where-absent p (x ∷ xs) h = ground (arith, delete_where-absent p xs)

  pub update_where-absent :
      (p : A → Bool) (f : A → A) (xs : List A) → any p xs ≡ false → update_where p f xs ≡ xs
  unfolding any update_where
  update_where-absent p f [] h = refl
  update_where-absent p f (x ∷ xs) h = ground (arith, update_where-absent p f xs)

  pub any-delete_where_self : (p : A → Bool) (xs : List A) → any p (delete_where p xs) ≡ false
  unfolding any delete_where
  any-delete_where_self p [] = refl
  any-delete_where_self p (x ∷ xs) = ground (arith, any-delete_where_self p xs)

  pub any-delete_where-false :
      (p q : A → Bool) (xs : List A) → any p xs ≡ false → any p (delete_where q xs) ≡ false
  unfolding any delete_where
  any-delete_where-false p q [] h = refl
  any-delete_where-false p q (x ∷ xs) h = ground (arith, any-delete_where-false p q xs)

  pub any-update_where :
      (p q : A → Bool) (f : A → A) (xs : List A)
      → ((x : A) → q x ≡ true → p (f x) ≡ p x)
      → any p (update_where q f xs) ≡ any p xs
  unfolding any update_where
  any-update_where p q f [] h = refl
  any-update_where p q f (x ∷ xs) h = ground (arith, h x, any-update_where p q f xs h)

module _ {ℓ κ} {A : Type ℓ} (P : A → Type κ) where
  pub All-delete_where : (q : A → Bool) (xs : List A) → All P xs → All P (delete_where q xs)
  unfolding delete_where
  All-delete_where q [] h = h
  All-delete_where q (x ∷ xs) h = elim (Bool-cases (q x)) [
    | inl e ↦ rw e (All-delete_where q xs h.1)
    | inr e ↦ rw e (h.0, All-delete_where q xs h.1)
  ]

  pub All-update_where :
      (q : A → Bool) (f : A → A) (xs : List A)
      → ((x : A) → P x → P (f x))
      → All P xs
      → All P (update_where q f xs)
  unfolding update_where
  All-update_where q f [] g h = h
  All-update_where q f (x ∷ xs) g h = elim (Bool-cases (q x)) [
    | inl e ↦ rw e (g x h.0, All-update_where q f xs g h.1)
    | inr e ↦ rw e (h.0, All-update_where q f xs g h.1)
  ]

  pub All-append : (xs ys : List A) → All P xs → All P ys → All P (xs ++ ys)
  All-append [] ys h k = k
  All-append (x ∷ xs) ys h k = (h.0, All-append xs ys h.1 k)

  -- A row that a query finds is one of the table.
  pub All-find : (q : A → Bool) (xs : List A) {x : A} → find q xs ≡ some x → All P xs → P x
  unfolding find
  All-find q [] e h = cc
  All-find q (y ∷ xs) {x} e h = elim (Bool-cases (q y)) [
    | inl t ↦ subst P (ground arith) h.0
    | inr f ↦ All-find q xs {x = x} (ground arith) h.1
  ]

-- What all rows have by one reason they have by a weaker one.
pub All-map {ℓ κ ι} :
    {A : Type ℓ} (P : A → Type κ) (Q : A → Type ι) (xs : List A)
    → ((x : A) → P x → Q x)
    → All P xs
    → All Q xs
All-map P Q [] g h = tt
All-map P Q (x ∷ xs) g h = (g x h.0, All-map P Q xs g h.1)

-- The same for the rows that a test, false of the whole table, tells apart.
pub All-map_unless {ℓ κ ι} :
    {A : Type ℓ} (P : A → Type κ) (Q : A → Type ι) (p : A → Bool) (xs : List A)
    → ((x : A) → p x ≡ false → P x → Q x)
    → any p xs ≡ false
    → All P xs
    → All Q xs
unfolding any
All-map_unless P Q p [] g n h = tt
All-map_unless P Q p (x ∷ xs) g n h =
    (g x (ground arith) h.0, All-map_unless P Q p xs g (ground arith) h.1)
