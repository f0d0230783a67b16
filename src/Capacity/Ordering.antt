-- ===== src/Capacity/Ordering.antt =====
-- The order of the candidates of internal/storagecapacity/service.go, and a page of them.
use git_hub_action_cache_ser.Prelude.{
  ℕ, zero, suc, ◌≡◌, Bool, true, false, ◌&&◌, List, [], ◌∷◌, if-cases, ◌==◌, any, All, All-map,
  take, arith,
}
use git_hub_action_cache_ser.Db.{StorageLocation}
use git_hub_action_cache_ser.Capacity.{comes_first, insert_ordered, ordered_where}

abbrev pub is_row : StorageLocation → StorageLocation → Bool
is_row l c = c.id == l.id && c.recency_at == l.recency_at

abbrev pub IsFirst : StorageLocation → StorageLocation → Type 0
IsFirst c l = comes_first c l ≡ true

abbrev pub IsOrdered : List StorageLocation → Type 0
IsOrdered [] = Unit
IsOrdered (c ∷ cs) = All (IsFirst c) cs × IsOrdered cs

IsFirst-trans : (a b c : StorageLocation) → IsFirst a b → IsFirst b c → IsFirst a c
unfolding comes_first
IsFirst-trans a b c h k = ground arith

IsFirst-total : (a b : StorageLocation) → comes_first a b ≡ false → IsFirst b a
unfolding comes_first
IsFirst-total a b h = ground arith

module _ (a : StorageLocation) where
  All-insert_ordered :
      (l : StorageLocation) (ms : List StorageLocation)
      → IsFirst a l
      → All (IsFirst a) ms
      → All (IsFirst a) (insert_ordered l ms)
  unfolding insert_ordered
  All-insert_ordered l [] h k = (h, tt)
  All-insert_ordered l (m ∷ ms) h k =
      if-cases (All (IsFirst a)) (comes_first l m) _ _ (λ e. (h, k))
        (λ e. (k.0, All-insert_ordered l ms h k.1))

insert_ordered-IsOrdered :
    (l : StorageLocation) (ms : List StorageLocation)
    → IsOrdered ms
    → IsOrdered (insert_ordered l ms)
unfolding insert_ordered
insert_ordered-IsOrdered l [] h = (tt, tt)
insert_ordered-IsOrdered l (m ∷ ms) (h, k) =
    if-cases IsOrdered (comes_first l m) _ _
      (λ e. ((e, All-map (IsFirst m) (IsFirst l) ms (λ x. IsFirst-trans l m x e) h), (h, k)))
      (λ e. (All-insert_ordered m l ms (IsFirst-total l m e) h, insert_ordered-IsOrdered l ms k))

ordered_where-IsOrdered :
    (q : StorageLocation → Bool) (ls : List StorageLocation) → IsOrdered (ordered_where q ls)
unfolding ordered_where
ordered_where-IsOrdered q [] = tt
ordered_where-IsOrdered q (l ∷ ls) =
    if-cases IsOrdered (q l) _ _
      (λ e. insert_ordered-IsOrdered l (ordered_where q ls) (ordered_where-IsOrdered q ls))
      (λ e. ordered_where-IsOrdered q ls)

is_row_self : (l : StorageLocation) → is_row l l ≡ true
is_row_self l = ground arith

take-All :
    (P : StorageLocation → Type 0) (n : ℕ) (s : List StorageLocation) → All P s → All P (take n s)
take-All P zero s h = tt
take-All P (suc n) [] h = tt
take-All P (suc n) (c ∷ cs) (h, k) = (h, take-All P n cs k)

pub take-IsOrdered : (n : ℕ) (s : List StorageLocation) → IsOrdered s → IsOrdered (take n s)
take-IsOrdered zero s h = tt
take-IsOrdered (suc n) [] h = tt
take-IsOrdered (suc n) (c ∷ cs) (h, k) = (take-All (IsFirst c) n cs h, take-IsOrdered n cs k)

-- A row that the query meets, and that the table has.
abbrev pub IsMet : (StorageLocation → Bool) → List StorageLocation → StorageLocation → Type 0
IsMet q ls c = (q c ≡ true) × (any (is_row c) ls ≡ true)

insert_ordered-All :
    (P : StorageLocation → Type 0) (l : StorageLocation) (ms : List StorageLocation)
    → P l
    → All P ms
    → All P (insert_ordered l ms)
unfolding insert_ordered
insert_ordered-All P l [] h k = (h, tt)
insert_ordered-All P l (m ∷ ms) h (k, ks) =
    if-cases (All P) (comes_first l m) _ _ (λ e. (h, (k, ks)))
      (λ e. (k, insert_ordered-All P l ms h ks))

IsMet-longer :
    (q : StorageLocation → Bool) (l : StorageLocation) (ls s : List StorageLocation)
    → All (IsMet q ls) s
    → All (IsMet q (l ∷ ls)) s
unfolding any
IsMet-longer q l ls s h =
    All-map (IsMet q ls) (IsMet q (l ∷ ls)) s (λ c k. (k.0, ground (arith, k.1))) h

ordered_where-IsMet :
    (q : StorageLocation → Bool) (ls : List StorageLocation) → All (IsMet q ls) (ordered_where q ls)
unfolding ordered_where any
ordered_where-IsMet q [] = tt
ordered_where-IsMet q (l ∷ ls) =
    if-cases (All (IsMet q (l ∷ ls))) (q l) _ _
      (λ e.
        insert_ordered-All (IsMet q (l ∷ ls)) l (ordered_where q ls)
          (e, ground (arith, is_row_self l))
          (IsMet-longer q l ls (ordered_where q ls) (ordered_where-IsMet q ls)))
      (λ e. IsMet-longer q l ls (ordered_where q ls) (ordered_where-IsMet q ls))

-- The rows of a page, in their order.
pub page-rows :
    (n : ℕ) (q : StorageLocation → Bool) (ls : List StorageLocation)
    → All (IsMet q ls) (take n (ordered_where q ls)) × IsOrdered (take n (ordered_where q ls))
page-rows n q ls = (
  take-All (IsMet q ls) n (ordered_where q ls) (ordered_where-IsMet q ls),
  take-IsOrdered n (ordered_where q ls) (ordered_where-IsOrdered q ls),
)
