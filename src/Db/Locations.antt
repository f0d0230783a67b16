-- ===== src/Db/Locations.antt =====
-- Queries by id after the statements on storage locations.
use git_hub_action_cache_ser.Prelude.{
  ℕ, ◌≡◌, ◌≢◌, refl, Bool, ◌&&◌, Option, none, some, List, [], ◌∷◌, if◌then◌else◌, ◌==◌,
  update_where, delete_where, arith,
}
use git_hub_action_cache_ser.Db.{Db, StorageLocation, find_location, update_location}

-- The row of a query, changed by `f` if it has the id and meets the condition.
abbrev pub change_found :
    ℕ
    → (StorageLocation → Bool)
    → (StorageLocation → StorageLocation)
    → Option StorageLocation
    → Option StorageLocation
change_found k c f none = none
change_found k c f (some l) = some (if l.id == k && c l then f l else l)

pub find_location-id :
    (k : ℕ) (ls : List StorageLocation) {l : StorageLocation}
    → find_location k ls ≡ some l
    → l.id ≡ k
unfolding find_location
find_location-id k [] h = cc
find_location-id k (x ∷ ls) {l} h = ground (arith, find_location-id k ls {l = l})

module _ (j k : ℕ) (c : StorageLocation → Bool) (f : StorageLocation → StorageLocation)
    (keeps : (l : StorageLocation) → (f l).id ≡ l.id) where
  find_location-update_where :
      (ls : List StorageLocation)
      → find_location j (update_where (λ l. l.id == k && c l) f ls)
        ≡ change_found k c f (find_location j ls)
  unfolding find_location update_where
  find_location-update_where [] = refl
  find_location-update_where (x ∷ ls) = ground (arith, keeps x, find_location-update_where ls)

  -- An update by id, seen by a query for any id.
  pub find_location-update :
      (db : Db)
      → find_location j (update_location k c f db).locations
        ≡ change_found k c f (find_location j db.locations)
  unfolding update_location
  find_location-update db = find_location-update_where db.locations

pub find_location-delete_ne :
    (j k : ℕ) (ls : List StorageLocation)
    → j ≢ k
    → find_location j (delete_where (λ l. l.id == k) ls) ≡ find_location j ls
unfolding find_location delete_where
find_location-delete_ne j k [] h = refl
find_location-delete_ne j k (x ∷ ls) h = ground (arith, find_location-delete_ne j k ls h)

pub find_location-delete_self :
    (k : ℕ) (ls : List StorageLocation) → find_location k (delete_where (λ l. l.id == k) ls) ≡ none
unfolding find_location delete_where
find_location-delete_self k [] = refl
find_location-delete_self k (x ∷ ls) = ground (arith, find_location-delete_self k ls)
