-- ===== src/Matching/Scopes.antt =====
-- The order of the scopes of `ReadScopesByPermission`, internal/cache/service.go.
use git_hub_action_cache_ser.Prelude.{
  ◌≡◌, refl, inl, inr, Bool, true, false, not, List, [], ◌∷◌, All, if◌then◌else◌, map, delete_where,
  ap, ◌∙◌, ◌&&◌, arith, Bool-cases, ◌||◌,
}
use git_hub_action_cache_ser.Prelude.Int.{ℤ, pos, int_ltb}
use git_hub_action_cache_ser.Matching.{
  Scope, CacheScope, insert_scope, sort_scopes, readable_scopes, read_scopes_by_permission,
}

-- The list is in descending order: no later scope has more permission than one before it.
abbrev pub IsDescending : List Scope → Type 0
IsDescending [] = Unit
IsDescending (x ∷ xs) = All (λ y. int_ltb x.permission y.permission ≡ false) xs × IsDescending xs

int_ltb_asym : (a b : ℤ) → int_ltb a b ≡ true → int_ltb b a ≡ false
int_ltb_asym a b h = ground arith

int_ltb_trans : (a b c : ℤ) → int_ltb a b ≡ false → int_ltb b c ≡ false → int_ltb a c ≡ false
int_ltb_trans a b c h g = ground arith

below-All :
    (a b : ℤ) (xs : List Scope)
    → int_ltb a b ≡ false
    → All (λ y. int_ltb b y.permission ≡ false) xs
    → All (λ y. int_ltb a y.permission ≡ false) xs
below-All a b [] h g = tt
below-All a b (y ∷ ys) h g = (int_ltb_trans a b y.permission h g.0, below-All a b ys h g.1)

insert-All :
    (P : Scope → Type 0) (x : Scope) (xs : List Scope) → P x → All P xs → All P (insert_scope x xs)
unfolding insert_scope
insert-All P x [] p h = (p, tt)
insert-All P x (y ∷ ys) p h = elim (Bool-cases (int_ltb x.permission y.permission)) [
  | inl e ↦ rw e (h.0, insert-All P x ys p h.1)
  | inr e ↦ rw e (p, h)
]

insert-IsDescending :
    (x : Scope) (xs : List Scope) → IsDescending xs → IsDescending (insert_scope x xs)
unfolding insert_scope
insert-IsDescending x [] h = (tt, tt)
insert-IsDescending x (y ∷ ys) h = elim (Bool-cases (int_ltb x.permission y.permission)) [
  | inl e ↦ rw e (
    insert-All _ x ys (int_ltb_asym x.permission y.permission e) h.0,
    insert-IsDescending x ys h.1,
  )
  | inr e ↦ rw e ((e, below-All x.permission y.permission ys e h.0), h)
]

pub sort_scopes-IsDescending : (xs : List Scope) → IsDescending (sort_scopes xs)
unfolding sort_scopes
sort_scopes-IsDescending [] = tt
sort_scopes-IsDescending (x ∷ xs) =
    insert-IsDescending x (sort_scopes xs) (sort_scopes-IsDescending xs)

abbrev has_permission : ℤ → Scope → Bool
has_permission p x = not (int_ltb x.permission p || int_ltb p x.permission)

-- The scopes of one permission, in their order.
abbrev pub with_permission : ℤ → List Scope → List Scope
with_permission p [] = []
with_permission p (x ∷ xs) =
    if has_permission p x then x ∷ with_permission p xs else with_permission p xs

insert-with_permission :
    (p : ℤ) (x : Scope) (xs : List Scope)
    → with_permission p (insert_scope x xs) ≡ with_permission p (x ∷ xs)
unfolding insert_scope
insert-with_permission p x [] = refl
insert-with_permission p x (y ∷ ys) = elim (Bool-cases (int_ltb x.permission y.permission)) [
  | inl e ↦ rw e (
      rw (insert-with_permission p x ys) (
        swapped (has_permission p x) (has_permission p y) (with_permission p ys)
          (apart p x.permission y.permission e)))
  | inr e ↦ rw e refl
]
  where
    apart :
        (q a b : ℤ)
        → int_ltb a b ≡ true
        → (not (int_ltb a q || int_ltb q a) && not (int_ltb b q || int_ltb q b)) ≡ false
    apart q a b h = ground arith

    swapped :
        (b c : Bool) (rest : List Scope)
        → (b && c) ≡ false
        → (if c then y ∷ (if b then x ∷ rest else rest) else (if b then x ∷ rest else rest))
          ≡ (if b then x ∷ (if c then y ∷ rest else rest) else (if c then y ∷ rest else rest))
    swapped b c rest h = ground arith

sort-with_permission :
    (p : ℤ) (xs : List Scope) → with_permission p (sort_scopes xs) ≡ with_permission p xs
unfolding sort_scopes
sort-with_permission p [] = refl
sort-with_permission p (x ∷ xs) =
    insert-with_permission p x (sort_scopes xs)
    ∙ ap (λ rest. if has_permission p x then x ∷ rest else rest) (sort-with_permission p xs)

readable_scopes-map :
    (xs : List Scope)
    → readable_scopes xs ≡ map (λ x. x.scope) (delete_where (λ x. int_ltb x.permission (pos 1)) xs)
unfolding readable_scopes delete_where
readable_scopes-map [] = refl
readable_scopes-map (x ∷ xs) = ground (arith, readable_scopes-map xs)

-- The scopes of a token are put in descending order of permission, those of one permission all stay
-- and keep their order, and the scopes that are read are the readable ones of that list.
pub read_scopes_by_permission-ordered :
    (scope : CacheScope)
    → (sorted : List Scope) × IsDescending sorted
      × ((p : ℤ) → with_permission p sorted ≡ with_permission p scope.scopes)
      × (read_scopes_by_permission scope
          ≡ map (λ x. x.scope) (delete_where (λ x. int_ltb x.permission (pos 1)) sorted))
unfolding read_scopes_by_permission
read_scopes_by_permission-ordered scope = (
  sort_scopes scope.scopes,
  sort_scopes-IsDescending scope.scopes,
  λ p. sort-with_permission p scope.scopes,
  readable_scopes-map (sort_scopes scope.scopes),
)
