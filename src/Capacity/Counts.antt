-- ===== src/Capacity/Counts.antt =====
-- The locations after a cursor of internal/storagecapacity/service.go, through an eviction.
use git_hub_action_cache_ser.Prelude.{
  ℕ, ◌+◌, ◌≤◌, ◌<◌, ◌≡◌, refl, sym, subst, Bool, true, false, Option, none, some, List, [], ◌∷◌,
  if◌then◌else◌, ◌==◌, any, length, update_where, delete_where, inl, inr, Bool-cases, arith,
}
use git_hub_action_cache_ser.Db.{
  Db, StorageLocation, add_lease_version, update_location, delete_location, enqueue,
}
use git_hub_action_cache_ser.Lifecycle.Tx.{
  update, delete_entries, delete_leases, enqueue_task, delete_location_row,
}
use git_hub_action_cache_ser.Capacity.{CapacityCursor, is_after, comes_first, cursor_of}
use git_hub_action_cache_ser.Capacity.Statements.{StatementLaws, mark_deleted}
use git_hub_action_cache_ser.Capacity.Ordering.{is_row, IsFirst}

-- The locations after a cursor.
abbrev pub locations_after : Option CapacityCursor → List StorageLocation → ℕ
locations_after cursor [] = 0
locations_after cursor (l ∷ ls) = (if is_after cursor l then 1 else 0) + locations_after cursor ls

pub locations_after-le :
    (cursor : Option CapacityCursor) (ls : List StorageLocation)
    → locations_after cursor ls ≤ length ls
locations_after-le cursor [] = omega arith
locations_after-le cursor (l ∷ ls) = ground (arith, locations_after-le cursor ls)

-- A later cursor has no more locations after it.
abbrev pub IsLater : Option CapacityCursor → Option CapacityCursor → Type 0
IsLater cursor later = (l : StorageLocation) → is_after later l ≡ true → is_after cursor l ≡ true

pub locations_after-later :
    (cursor later : Option CapacityCursor) (ls : List StorageLocation)
    → IsLater cursor later
    → locations_after later ls ≤ locations_after cursor ls
locations_after-later cursor later [] h = omega arith
locations_after-later cursor later (l ∷ ls) h =
    ground (arith, h l, locations_after-later cursor later ls h)

row-not_after : (c l : StorageLocation) → is_row c l ≡ true → is_after (cursor_of c) l ≡ false
unfolding is_after
row-not_after c l h = ground arith

row-after :
    (cursor : Option CapacityCursor) (c l : StorageLocation)
    → is_row c l ≡ true
    → is_after cursor c ≡ true
    → is_after cursor l ≡ true
unfolding is_after
row-after none c l h k = refl
row-after (some cursor) c l h k = ground arith

-- Past a row of the table there are fewer.
pub locations_after-row :
    (cursor : Option CapacityCursor) (c : StorageLocation) (ls : List StorageLocation)
    → IsLater cursor (cursor_of c)
    → is_after cursor c ≡ true
    → any (is_row c) ls ≡ true
    → locations_after (cursor_of c) ls < locations_after cursor ls
unfolding any
locations_after-row cursor c [] h k e = cc
locations_after-row cursor c (l ∷ ls) h k e = elim (Bool-cases (is_row c l)) [
  | inl y ↦ ground (
    arith,
    row-not_after c l y,
    row-after cursor c l y k,
    locations_after-later cursor (cursor_of c) ls h,
  )
  | inr y ↦ ground (arith, h l, locations_after-row cursor c ls h k)
]

pub after-IsLater :
    (cursor : Option CapacityCursor) (c : StorageLocation)
    → is_after cursor c ≡ true
    → IsLater cursor (cursor_of c)
unfolding is_after
after-IsLater none c h l k = refl
after-IsLater (some cursor) c h l k = ground arith

pub first-IsLater : (c d : StorageLocation) → IsFirst c d → IsLater (cursor_of c) (cursor_of d)
unfolding is_after comes_first
first-IsLater c d h l k = ground arith

module _ (now : ℕ) (cursor : Option CapacityCursor) (n : ℕ) where
  abbrev pub HasFewer : Db → Type 0
  HasFewer db = locations_after cursor db.locations ≤ n

  locations_after-update :
      (p : StorageLocation → Bool) (f : StorageLocation → StorageLocation)
      (ls : List StorageLocation)
      → ((l : StorageLocation) → is_after cursor (f l) ≡ is_after cursor l)
      → locations_after cursor (update_where p f ls) ≡ locations_after cursor ls
  unfolding update_where
  locations_after-update p f [] h = refl
  locations_after-update p f (l ∷ ls) h = ground (arith, h l, locations_after-update p f ls h)

  locations_after-delete :
      (p : StorageLocation → Bool) (ls : List StorageLocation)
      → locations_after cursor (delete_where p ls) ≤ locations_after cursor ls
  unfolding delete_where
  locations_after-delete p [] = omega arith
  locations_after-delete p (l ∷ ls) = ground (arith, locations_after-delete p ls)

  same_bumped :
      (o : Option CapacityCursor) (l : StorageLocation)
      → is_after o (add_lease_version l) ≡ is_after o l
  unfolding is_after
  same_bumped none l = refl
  same_bumped (some c) l = refl

  same_marked :
      (o : Option CapacityCursor) (l : StorageLocation)
      → is_after o (mark_deleted now l) ≡ is_after o l
  unfolding is_after
  same_marked none l = refl
  same_marked (some c) l = refl

  row-HasFewer : (k : ℕ) (db : Db) → HasFewer db → HasFewer (delete_location_row k db).1
  unfolding delete_location_row delete_location
  row-HasFewer k db h = ground (arith, locations_after-delete (λ l. l.id == k) db.locations)

  pub HasFewer-Laws : StatementLaws HasFewer now
  unfolding update update_location enqueue_task enqueue delete_entries delete_leases
  HasFewer-Laws = record {
    bump = λ k c. record {
      apply = λ db h.
          subst (λ m. m ≤ n)
            (sym (locations_after-update _ add_lease_version db.locations (same_bumped cursor))) h;
    };
    mark = λ k. record {
      apply = λ db h.
          subst (λ m. m ≤ n)
            (sym (locations_after-update _ (mark_deleted now) db.locations (same_marked cursor))) h;
    };
    entries = λ p. record { apply = λ db h. h };
    leases = λ k. record { apply = λ db h. h };
    task = λ folder. record { apply = λ db h. h };
    row = λ k. record { apply = row-HasFewer k };
  }
