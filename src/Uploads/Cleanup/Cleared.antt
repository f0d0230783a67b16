-- ===== src/Uploads/Cleanup/Cleared.antt =====
-- The uploads that `RunUploads` of internal/cleanup/service.go leaves.
use git_hub_action_cache_ser.Prelude.{
  ℕ, ◌≤◌, ◌≡◌, Bool, Option, none, some, List, delete_where, length,
}
use git_hub_action_cache_ser.Db.{Bytes, Db, Upload}
use git_hub_action_cache_ser.Uploads.{is_inactive}

-- A pass ends with the uploads that stay.
abbrev IsClean : List Upload → Option (ℕ × Db) → Type 0
IsClean rest none = ⊥
IsClean rest (some s) = s.1.uploads ≡ rest

module _ (delete_folder : Bytes → Bool) (now cutoff : ℕ) where
  -- The uploads that stay, and how many there are.
  abbrev IsCleanedFrom : List Upload → ℕ × Db → Type 0
  IsCleanedFrom us s =
      (delete_where (is_inactive cutoff) s.1.uploads ≡ delete_where (is_inactive cutoff) us)
      × (length s.1.uploads ≤ length us)
