-- ===== src/Download/PartIndex/Cache/Transparent.antt =====
-- What a lookup in the cache of internal/cache/part_index.go gives, compared to a load.
use git_hub_action_cache_ser.Prelude.{
  ℕ, zero, suc, ◌+◌, ◌≡◌, refl, sym, ◌∙◌, ap, subst, true, Option, none, some, List, [], ◌∷◌, ltb,
  ◌==◌, length, find, any, All, arith, Bool-cases, Option-cases, inl, inr,
}
use git_hub_action_cache_ser.Db.{Bytes, bytes_eq}
use git_hub_action_cache_ser.Download.PartIndex.{PartIndex}
use git_hub_action_cache_ser.Download.PartIndex.Cache.{
  PartIndexKey, PartIndexCacheEntry, PartIndexCache, key_eq, has_key, remove_key, move_to_front,
  back, remove_back, weight_of, evict, add_locked, get_or_load,
}

bytes_eq-eq : (a b : Bytes) → bytes_eq a b ≡ true → a ≡ b
unfolding bytes_eq
bytes_eq-eq [] [] h = refl
bytes_eq-eq [] (y ∷ b) h = cc
bytes_eq-eq (x ∷ a) [] h = cc
bytes_eq-eq (x ∷ a) (y ∷ b) h = ground (arith, bytes_eq-eq a b)

key_eq-eq : (a b : PartIndexKey) → key_eq a b ≡ true → a ≡ b
unfolding key_eq
key_eq-eq a b h =
    same (bytes_eq-eq a.location_id b.location_id (ground arith))
      (bytes_eq-eq a.folder_name b.folder_name (ground arith)) (ground arith)
  where
    same :
        a.location_id ≡ b.location_id
        → a.folder_name ≡ b.folder_name
        → a.part_count ≡ b.part_count
        → a ≡ b
    same p q r = λ i. record { location_id = p i; folder_name = q i; part_count = r i }

module _ (load : PartIndexKey → Option PartIndex) where
  abbrev pub IsLoaded : PartIndexCacheEntry → Type 0
  IsLoaded e = load e.key ≡ some e.index

  -- Every entry is what its load gives.
  abbrev pub IsCoherent : PartIndexCache → Type 0
  IsCoherent c = All IsLoaded c.lru

  All-remove_key :
      (key : PartIndexKey) (es : List PartIndexCacheEntry)
      → All IsLoaded es
      → All IsLoaded (remove_key key es)
  unfolding remove_key
  All-remove_key key [] h = tt
  All-remove_key key (e ∷ es) h = elim (Bool-cases (has_key key e)) [
    | inl q ↦ rw q h.1
    | inr q ↦ rw q (h.0, All-remove_key key es h.1)
  ]

  All-remove_back :
      (es : List PartIndexCacheEntry) → All IsLoaded es → All IsLoaded (remove_back es)
  unfolding remove_back
  All-remove_back [] h = tt
  All-remove_back (e ∷ []) h = tt
  All-remove_back (e ∷ d ∷ es) h = (h.0, All-remove_back (d ∷ es) h.1)

  found-IsLoaded :
      (key : PartIndexKey) (es : List PartIndexCacheEntry) (e : PartIndexCacheEntry)
      → All IsLoaded es
      → find (has_key key) es ≡ some e
      → IsLoaded e × (key_eq e.key key ≡ true)
  unfolding find
  found-IsLoaded key [] e h f = cc
  found-IsLoaded key (d ∷ es) e h f = elim (Bool-cases (has_key key d)) [
    | inl q ↦
        let same : d ≡ e = first_is q (rw q at f) in
        (subst IsLoaded same h.0, subst (λ x. key_eq x.key key ≡ true) same q)
    | inr q ↦ found-IsLoaded key es e h.1 (rw q at f)
  ]
    where
      first_is : has_key key d ≡ true → some d ≡ some e → d ≡ e
      first_is q g = cc

  All-move_to_front :
      (key : PartIndexKey) (es : List PartIndexCacheEntry)
      → All IsLoaded es
      → All IsLoaded (move_to_front key es)
  unfolding move_to_front
  All-move_to_front key es h = elim (Option-cases (find (has_key key) es)) [
    | inl f ↦ rw (f, move_to_front) h
    | inr (e, f) ↦ rw (f, move_to_front) ((found-IsLoaded key es e h f).0, All-remove_key key es h)
  ]

  evict-IsCoherent :
      (rounds weight : ℕ) (c : PartIndexCache) → IsCoherent c → IsCoherent (evict rounds weight c)
  unfolding evict
  evict-IsCoherent zero weight c h = h
  evict-IsCoherent (suc rounds) weight c h = elim (Bool-cases (ltb c.capacity (c.used + weight))) [
    | inr e ↦ rw (e, evict) h
    | inl e ↦
        rw (e, evict)
          (elim (Option-cases (back c.lru)) [
            | inl f ↦ rw f h
            | inr (oldest, f) ↦ rw f (evict-IsCoherent rounds weight _ (All-remove_back c.lru h))
          ])
  ]

  add_locked-IsCoherent :
      (key : PartIndexKey) (index : Option PartIndex) (c : PartIndexCache)
      → load key ≡ index
      → IsCoherent c
      → IsCoherent (add_locked key index c)
  unfolding add_locked
  add_locked-IsCoherent key none c l h = h
  add_locked-IsCoherent key (some index) c l h = elim (Bool-cases (c.capacity == 0)) [
    | inl z ↦ rw z h
    | inr z ↦ rw z (elim (Bool-cases (any (has_key key) c.lru)) [
      | inl a ↦ rw a (All-move_to_front key c.lru h)
      | inr a ↦ rw a (elim (Bool-cases (ltb c.capacity (weight_of key index))) [
        | inl w ↦ rw w h
        | inr w ↦ rw w (l, evict-IsCoherent (length c.lru) (weight_of key index) c h)
      ])
    ])
  ]

  -- Where every entry is what its load gives, a lookup gives what the load of the key would give, also
  -- its failure, and leaves such entries.
  pub get_or_load-transparent :
      (key : PartIndexKey) (c : PartIndexCache)
      → IsCoherent c
      → ((get_or_load key load c).0 ≡ load key) × IsCoherent (get_or_load key load c).1
  unfolding get_or_load
  get_or_load-transparent key c h = elim (Option-cases (find (has_key key) c.lru)) [
    | inl f ↦ rw (f, get_or_load) (refl, add_locked-IsCoherent key (load key) c refl h)
    | inr (e, f) ↦
        rw (f, get_or_load)
          (
            sym (found-IsLoaded key c.lru e h f).0
                ∙ ap load (key_eq-eq e.key key (found-IsLoaded key c.lru e h f).1),
            All-move_to_front key c.lru h,
          )
  ]
