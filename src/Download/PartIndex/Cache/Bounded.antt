-- ===== src/Download/PartIndex/Cache/Bounded.antt =====
-- The bytes in use in the cache of internal/cache/part_index.go, and the loop that frees them.
use git_hub_action_cache_ser.Prelude.{
  ℕ, zero, suc, ◌+◌, ◌-◌, ◌≤◌, ◌≡◌, refl, sym, ◌∙◌, ap, false, Option, none, some, List, [], ◌∷◌,
  ltb, ◌==◌, length, find, any, arith, Bool-cases, Option-cases, inl, inr,
}
use git_hub_action_cache_ser.Download.PartIndex.{PartIndex}
use git_hub_action_cache_ser.Download.PartIndex.Cache.{
  PartIndexKey, PartIndexCacheEntry, PartIndexCache, has_key, remove_key, move_to_front, back,
  remove_back, weight_of, evict, push_front, add_locked, get_or_load,
}

abbrev pub total_weight : List PartIndexCacheEntry → ℕ
total_weight [] = 0
total_weight (e ∷ es) = e.weight + total_weight es

-- The bytes in use are those of the entries, and within the capacity.
abbrev pub IsBounded : PartIndexCache → Type 0
IsBounded c = (c.used ≡ total_weight c.lru) × (c.used ≤ c.capacity)

total_weight-remove_key :
    (key : PartIndexKey) (es : List PartIndexCacheEntry) (e : PartIndexCacheEntry)
    → find (has_key key) es ≡ some e
    → e.weight + total_weight (remove_key key es) ≡ total_weight es
unfolding find remove_key
total_weight-remove_key key [] e h = cc
total_weight-remove_key key (d ∷ es) e h = ground (arith, total_weight-remove_key key es e)

total_weight-move_to_front :
    (key : PartIndexKey) (es : List PartIndexCacheEntry)
    → total_weight (move_to_front key es) ≡ total_weight es
unfolding move_to_front
total_weight-move_to_front key es = elim (Option-cases (find (has_key key) es)) [
  | inl h ↦ rw (h, move_to_front) refl
  | inr (e, h) ↦ rw (h, move_to_front) (total_weight-remove_key key es e h)
]

total_weight-remove_back :
    (es : List PartIndexCacheEntry) (e : PartIndexCacheEntry)
    → back es ≡ some e
    → (total_weight (remove_back es) + e.weight ≡ total_weight es)
      × (suc (length (remove_back es)) ≡ length es)
unfolding back remove_back
total_weight-remove_back [] e h = cc
total_weight-remove_back (d ∷ []) e h = ground arith
total_weight-remove_back (d ∷ c ∷ es) e h = ground (arith, total_weight-remove_back (c ∷ es) e h)

back-nil : (es : List PartIndexCacheEntry) → back es ≡ none → es ≡ []
unfolding back
back-nil [] h = refl
back-nil (e ∷ []) h = cc
back-nil (e ∷ d ∷ es) h = absurd (cons-ne-nil (back-nil (d ∷ es) h))
  where
    cons-ne-nil : ¬ (d ∷ es ≡ [])
    cons-ne-nil q = cc

fits : (a b : ℕ) → ltb a b ≡ false → b ≤ a
fits a b e = ground arith

-- What the loop leaves: the cache is bounded, and the weight fits.
abbrev HasRoom : ℕ → ℕ → PartIndexCache → Type 0
HasRoom capacity weight c = IsBounded c × (c.capacity ≡ capacity) × (c.used + weight ≤ capacity)

no_entries : {n : ℕ} (es : List PartIndexCacheEntry) → length es ≡ suc n → ¬ (es ≡ [])
no_entries es m e = omega (arith, m, ap length e)

evict-HasRoom :
    (rounds weight : ℕ) (c : PartIndexCache)
    → length c.lru ≡ rounds
    → weight ≤ c.capacity
    → IsBounded c
    → HasRoom c.capacity weight (evict rounds weight c)
unfolding evict
evict-HasRoom zero weight c n w h = (h, refl, empty_fits c.lru n h.0)
  where
    empty_fits :
        (es : List PartIndexCacheEntry)
        → length es ≡ 0
        → c.used ≡ total_weight es
        → c.used + weight ≤ c.capacity
    empty_fits [] m u = omega arith
    empty_fits (e ∷ es) m u = absurd (omega arith)
evict-HasRoom (suc rounds) weight c n w h = elim (Bool-cases (ltb c.capacity (c.used + weight))) [
  | inr e ↦ rw (e, evict) (h, refl, fits c.capacity (c.used + weight) e)
  | inl e ↦
      rw (e, evict)
        (elim (Option-cases (back c.lru)) [
          | inl none_left ↦ absurd (no_entries c.lru n (back-nil c.lru none_left))
          | inr (oldest, found) ↦ rw found (
              evict-HasRoom rounds weight
                (record c { used = c.used - oldest.weight; lru = remove_back c.lru })
                (omega (arith, total_weight-remove_back c.lru oldest found)) w
                (omega (arith, total_weight-remove_back c.lru oldest found), omega arith))
        ])
]

add_locked-IsBounded :
    (key : PartIndexKey) (index : Option PartIndex) (c : PartIndexCache)
    → IsBounded c
    → IsBounded (add_locked key index c)
unfolding add_locked
add_locked-IsBounded key none c h = h
add_locked-IsBounded key (some index) c h = elim (Bool-cases (c.capacity == 0)) [
  | inl z ↦ rw z h
  | inr z ↦ rw z (elim (Bool-cases (any (has_key key) c.lru)) [
    | inl a ↦ rw a (h.0 ∙ sym (total_weight-move_to_front key c.lru), h.1)
    | inr a ↦ rw a (elim (Bool-cases (ltb c.capacity (weight_of key index))) [
      | inl l ↦ rw l h
      | inr l ↦ rw l (
          pushed (evict (length c.lru) (weight_of key index) c) (
            evict-HasRoom (length c.lru) (weight_of key index) c refl
              (fits c.capacity (weight_of key index) l) h))
    ])
  ])
]
  where
    pushed :
        (d : PartIndexCache)
        → HasRoom c.capacity (weight_of key index) d
        → IsBounded (push_front key index d)
    pushed d (b, same, room) = (omega arith, omega arith)

-- A lookup, with the load and the eviction of older entries that it may need, leaves the cache within
-- its capacity, with the bytes in use counted right.
pub get_or_load-IsBounded :
    (key : PartIndexKey) (load : PartIndexKey → Option PartIndex) (c : PartIndexCache)
    → IsBounded c
    → IsBounded (get_or_load key load c).1
unfolding get_or_load
get_or_load-IsBounded key load c h = elim (Option-cases (find (has_key key) c.lru)) [
  | inl e ↦ rw (e, get_or_load) (add_locked-IsBounded key (load key) c h)
  | inr (x, e) ↦ rw (e, get_or_load) (h.0 ∙ sym (total_weight-move_to_front key c.lru), h.1)
]
