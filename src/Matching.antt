-- ===== src/Matching.antt =====
-- Which cache entry answers a request: `WriteScope`, `ReadScopesByPermission` and `MatchCacheEntry` of
-- internal/cache/service.go, with the queries of internal/cachekey. The rows of a query that sets no
-- order come in the order of the table; `First` of an ordered one is the first row with the largest
-- value. A failing query is not modelled.
pub mod Scopes
pub mod Entries
use git_hub_action_cache_ser.Prelude.{
  ℕ, Bool, true, false, not, ◌&&◌, Option, none, some, List, [], ◌∷◌, if◌then◌else◌, ltb, ◌==◌,
  find,
}
use git_hub_action_cache_ser.Prelude.Int.{ℤ, pos, negsuc, int_ltb}
use git_hub_action_cache_ser.Db.{Bytes, bytes_eq, CacheEntry}

-- A scope of the token, internal/auth/auth.go.
pub record Scope : Type 0 where
  pub scope : Bytes
  pub permission : ℤ

pub record CacheScope : Type 0 where
  pub scopes : List Scope
  pub repo_id : Bytes

unfoldable pub writable : List Scope → Option Bytes
writable [] = none
writable (candidate ∷ rest) =
    if not (int_ltb candidate.permission (pos 2)) then some candidate.scope else writable rest

-- `WriteScope`
unfoldable pub write_scope : CacheScope → Option Bytes
write_scope scope = writable scope.scopes

-- `sort.SliceStable`, by insertion: an element goes before those that are not greater.
unfoldable pub insert_scope : Scope → List Scope → List Scope
insert_scope x [] = x ∷ []
insert_scope x (y ∷ ys) =
    if int_ltb x.permission y.permission then y ∷ insert_scope x ys else x ∷ y ∷ ys

unfoldable pub sort_scopes : List Scope → List Scope
sort_scopes [] = []
sort_scopes (x ∷ xs) = insert_scope x (sort_scopes xs)

-- The loop that keeps the readable scopes.
unfoldable pub readable_scopes : List Scope → List Bytes
readable_scopes [] = []
readable_scopes (x ∷ xs) =
    let rest = readable_scopes xs in if int_ltb x.permission (pos 1) then rest else x.scope ∷ rest

-- `ReadScopesByPermission`
unfoldable pub read_scopes_by_permission : CacheScope → List Bytes
read_scopes_by_permission scope = readable_scopes (sort_scopes scope.scopes)

-- `cachekey.Prefix`
unfoldable pub has_prefix : Bytes → Bytes → Bool
has_prefix [] s = true
has_prefix (a ∷ p) [] = false
has_prefix (a ∷ p) (b ∷ s) = a == b && has_prefix p s

abbrev pub in_scope : Bytes → Bytes → Bytes → CacheEntry → Bool
in_scope version scope repo_id e =
    bytes_eq e.version version && bytes_eq e.scope scope && bytes_eq e.repo_id repo_id

abbrev later_of : CacheEntry → Option CacheEntry → CacheEntry
later_of e none = e
later_of e (some x) = if ltb e.updated_at x.updated_at then x else e

-- `Order(ByUpdatedAt(OrderDesc())).First` of the rows with `p`
unfoldable pub latest : (CacheEntry → Bool) → List CacheEntry → Option CacheEntry
latest p [] = none
latest p (e ∷ es) = let rest = latest p es in if p e then some (later_of e rest) else rest

-- The first entry that is found.
abbrev pub or_else : Option CacheEntry → Option CacheEntry → Option CacheEntry
or_else none other = other
or_else (some e) other = some e

module _ (entries : List CacheEntry) (version : Bytes) (repo_id : Bytes) where
  abbrev pub is_exact : Bytes → Bytes → CacheEntry → Bool
  is_exact scope key e = in_scope version scope repo_id e && bytes_eq e.key key

  abbrev pub is_prefixed : Bytes → Bytes → CacheEntry → Bool
  is_prefixed scope key e = in_scope version scope repo_id e && has_prefix key e.key

  -- `findCacheEntry`
  unfoldable pub find_cache_entry : Bytes → Bytes → Bool → Option CacheEntry
  find_cache_entry scope key prefix =
      if prefix then latest (is_prefixed scope key) entries else find (is_exact scope key) entries

  -- `findExactOrPrefixedCacheEntry`
  unfoldable pub find_exact_or_prefixed : Bytes → Bytes → Option CacheEntry
  find_exact_or_prefixed scope key =
      or_else (find_cache_entry scope key false) (find_cache_entry scope key true)

  unfoldable pub match_restore_keys : Bytes → List Bytes → Option CacheEntry
  match_restore_keys scope [] = none
  match_restore_keys scope (key ∷ keys) =
      or_else (find_exact_or_prefixed scope key) (match_restore_keys scope keys)

  unfoldable pub match_scopes : Bytes → List Bytes → List Bytes → Option CacheEntry
  match_scopes primary restore [] = none
  match_scopes primary restore (scope ∷ scopes) =
      or_else (or_else (find_exact_or_prefixed scope primary) (match_restore_keys scope restore))
        (match_scopes primary restore scopes)

-- `MatchCacheEntry`, for the keys `primary ∷ restore`
unfoldable pub match_cache_entry :
    List CacheEntry → Bytes → List Bytes → Bytes → CacheScope → Option CacheEntry
match_cache_entry entries primary restore version scope =
    match_scopes entries version scope.repo_id primary restore (read_scopes_by_permission scope)
