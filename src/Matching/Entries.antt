-- ===== src/Matching/Entries.antt =====
-- What `MatchCacheEntry` of internal/cache/service.go answers, by scopes and keys in their order.
use git_hub_action_cache_ser.Prelude.{
  ℕ, ◌≤◌, ◌≡◌, refl, ◌⊎◌, inl, inr, Bool, true, false, Option, none, some, List, [], ◌∷◌, ◌++◌, map,
  All, if◌then◌else◌, ltb, find, arith,
}
use git_hub_action_cache_ser.Db.{Bytes, CacheEntry}
use git_hub_action_cache_ser.Matching.{
  CacheScope, latest, later_of, is_exact, is_prefixed, find_cache_entry, find_exact_or_prefixed,
  or_else, match_restore_keys, match_scopes, match_cache_entry, read_scopes_by_permission,
}

abbrev pub Among : CacheEntry → List CacheEntry → Type 0
Among e [] = ⊥
Among e (x ∷ xs) = (e ≡ x) ⊎ Among e xs

abbrev pub NoneOf : (CacheEntry → Bool) → List CacheEntry → Type 0
NoneOf p es = All (λ e. p e ≡ false) es

-- The first entry with `p`, or none has it.
IsFound : (CacheEntry → Bool) → List CacheEntry → Option CacheEntry → Type 0
IsFound p es none = NoneOf p es
IsFound p es (some e) = Among e es × (p e ≡ true)

-- The entry with `p` whose time is the latest, or none has it.
abbrev pub IsLatest : (CacheEntry → Bool) → List CacheEntry → Option CacheEntry → Type 0
IsLatest p es none = NoneOf p es
IsLatest p es (some e) =
    Among e es × (p e ≡ true) × All (λ x. (p x ≡ false) ⊎ (x.updated_at ≤ e.updated_at)) es

find-IsFound : (p : CacheEntry → Bool) (es : List CacheEntry) → IsFound p es (find p es)
unfolding find IsFound
find-IsFound p [] = tt
find-IsFound p (e ∷ es) = step (p e) (find p es) refl (find-IsFound p es)
  where
    step :
        (b : Bool) (o : Option CacheEntry)
        → p e ≡ b
        → IsFound p es o
        → IsFound p (e ∷ es) (if b then some e else o)
    step true o h found = (inl refl, h)
    step false none h found = (h, found)
    step false (some x) h found = (inr found.0, found.1)

latest-IsLatest : (p : CacheEntry → Bool) (es : List CacheEntry) → IsLatest p es (latest p es)
unfolding latest
latest-IsLatest p [] = tt
latest-IsLatest p (e ∷ es) = step (p e) (latest p es) refl (latest-IsLatest p es)
  where
    all_none :
        (xs : List CacheEntry)
        → NoneOf p xs
        → All (λ x. (p x ≡ false) ⊎ (x.updated_at ≤ e.updated_at)) xs
    all_none [] h = tt
    all_none (x ∷ xs) h = (inl h.0, all_none xs h.1)

    weaken :
        (x : CacheEntry) (xs : List CacheEntry)
        → x.updated_at ≤ e.updated_at
        → All (λ y. (p y ≡ false) ⊎ (y.updated_at ≤ x.updated_at)) xs
        → All (λ y. (p y ≡ false) ⊎ (y.updated_at ≤ e.updated_at)) xs
    weaken x [] l h = tt
    weaken x (y ∷ ys) l (inl f, h) = (inl f, weaken x ys l h)
    weaken x (y ∷ ys) l (inr m, h) = (inr (omega arith), weaken x ys l h)

    newer :
        (b : Bool) (x : CacheEntry)
        → p e ≡ true
        → ltb e.updated_at x.updated_at ≡ b
        → IsLatest p es (some x)
        → IsLatest p (e ∷ es) (some (if b then x else e))
    newer true x h l (among, px, all) =
        (inr among, px, (inr (below e.updated_at x.updated_at l), all))
      where
        below : (a c : ℕ) → ltb a c ≡ true → a ≤ c
        below a c g = ground arith
    newer false x h l (among, px, all) =
        (inl refl, h, (inr (omega arith), weaken x es (above e.updated_at x.updated_at l) all))
      where
        above : (a c : ℕ) → ltb a c ≡ false → c ≤ a
        above a c g = ground arith

    step :
        (b : Bool) (o : Option CacheEntry)
        → p e ≡ b
        → IsLatest p es o
        → IsLatest p (e ∷ es) (if b then some (later_of e o) else o)
    step false none h found = (h, found)
    step false (some x) h (among, px, all) = (inr among, px, (inl h, all))
    step true none h found = (inl refl, h, (inr (omega arith), all_none es found))
    step true (some x) h found = newer (ltb e.updated_at x.updated_at) x h refl found

-- The scopes and keys in the order in which they are tried.
abbrev pub tries : Bytes → List Bytes → List Bytes → List (Bytes × Bytes)
tries primary restore [] = []
tries primary restore (scope ∷ scopes) =
    map (λ k. (scope, k)) (primary ∷ restore) ++ tries primary restore scopes

module _ (entries : List CacheEntry) (version : Bytes) (repo_id : Bytes) where
  -- A scope and a key have no entry: none of the scope begins with the key.
  abbrev pub HasNoEntry : Bytes × Bytes → Type 0
  HasNoEntry (scope, key) = NoneOf (is_prefixed entries version repo_id scope key) entries

  -- The entry with exactly the key or, where there is none, the latest that begins with it.
  abbrev pub IsAnswer : Bytes × Bytes → CacheEntry → Type 0
  IsAnswer (scope, key) e =
      (Among e entries × (is_exact entries version repo_id scope key e ≡ true))
      ⊎ (NoneOf (is_exact entries version repo_id scope key) entries
          × IsLatest (is_prefixed entries version repo_id scope key) entries (some e))

  -- The answer of the first scope and key that have an entry, if any has one.
  abbrev pub Answers : List (Bytes × Bytes) → Option CacheEntry → Type 0
  Answers [] none = Unit
  Answers [] (some e) = ⊥
  Answers (a ∷ later) none = HasNoEntry a × Answers later none
  Answers (a ∷ later) (some e) = IsAnswer a e ⊎ (HasNoEntry a × Answers later (some e))

  first_answer :
      (a : Bytes × Bytes) (later : List (Bytes × Bytes)) (o : Option CacheEntry)
      → Answers later o
      → Answers (a ∷ later) (or_else (find_exact_or_prefixed entries version repo_id a.0 a.1) o)
  unfolding find_exact_or_prefixed find_cache_entry IsFound
  first_answer a later o h =
      step (find (is_exact entries version repo_id a.0 a.1) entries)
        (latest (is_prefixed entries version repo_id a.0 a.1) entries) o (find-IsFound _ entries)
        (latest-IsLatest _ entries) h
    where
      step :
          (x y o : Option CacheEntry)
          → IsFound (is_exact entries version repo_id a.0 a.1) entries x
          → IsLatest (is_prefixed entries version repo_id a.0 a.1) entries y
          → Answers later o
          → Answers (a ∷ later) (or_else (or_else x y) o)
      step (some e) y o f l h = inl (inl f)
      step none (some e) o f l h = inl (inr (f, l))
      step none none none f l h = (l, h)
      step none none (some e) f l h = inr (l, h)

  Answers-append :
      (later more : List (Bytes × Bytes)) (o other : Option CacheEntry)
      → Answers later o
      → Answers more other
      → Answers (later ++ more) (or_else o other)
  Answers-append [] more none other h g = g
  Answers-append [] more (some e) other h g = absurd h
  Answers-append (a ∷ later) more none none h g = (h.0, Answers-append later more none none h.1 g)
  Answers-append (a ∷ later) more none (some e) h g =
      inr (h.0, Answers-append later more none (some e) h.1 g)
  Answers-append (a ∷ later) more (some e) other (inl h) g = inl h
  Answers-append (a ∷ later) more (some e) other (inr h) g =
      inr (h.0, Answers-append later more (some e) other h.1 g)

  restore_keys-Answers :
      (scope : Bytes) (keys : List Bytes)
      → Answers (map (λ k. (scope, k)) keys) (match_restore_keys entries version repo_id scope keys)
  unfolding match_restore_keys
  restore_keys-Answers scope [] = tt
  restore_keys-Answers scope (key ∷ keys) =
      first_answer (scope, key) _ _ (restore_keys-Answers scope keys)

  scopes-Answers :
      (primary : Bytes) (restore : List Bytes) (scopes : List Bytes)
      → Answers
          (tries primary restore scopes)
          (match_scopes entries version repo_id primary restore scopes)
  unfolding match_scopes
  scopes-Answers primary restore [] = tt
  scopes-Answers primary restore (scope ∷ scopes) =
      Answers-append (map (λ k. (scope, k)) (primary ∷ restore)) _ _ _
        (first_answer (scope, primary) _ _ (restore_keys-Answers scope restore))
        (scopes-Answers primary restore scopes)

-- The readable scopes, in their order, are each tried with all keys, in theirs: the answer is that of
-- the first scope and key that have an entry, which is the entry with exactly that key or, where there
-- is none, one with the latest update among those that begin with it. There is no answer only where
-- no entry of a readable scope begins with one of the keys.
pub match_cache_entry-Answers :
    (entries : List CacheEntry) (primary : Bytes) (restore : List Bytes) (version : Bytes)
    (scope : CacheScope)
    → Answers entries version scope.repo_id
        (tries primary restore (read_scopes_by_permission scope))
        (match_cache_entry entries primary restore version scope)
unfolding match_cache_entry
match_cache_entry-Answers entries primary restore version scope =
    scopes-Answers entries version scope.repo_id primary restore (read_scopes_by_permission scope)
