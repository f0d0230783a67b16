-- ===== src/Lifecycle/Exclusion.antt =====
-- The materialization lease while it has not expired.
pub mod Statements
pub mod Histories
pub mod Finish
use git_hub_action_cache_ser.Prelude.{
  ℕ, ◌≡◌, Bool, true, false, ◌&&◌, Option, none, some, ◌==◌, is_none, holds,
}
use git_hub_action_cache_ser.Db.{Db, StorageLocation, find_location}

abbrev pub is_held_row : ℕ → ℕ → Option StorageLocation → Bool
is_held_row token expiry none = false
is_held_row token expiry (some l) =
    holds l.merge_lease_token (λ t. t == token)
    && holds l.merge_lease_expires_at (λ t. t == expiry)
    && is_none l.merged_at

-- The location `k` is leased for a merge to `token` until `expiry`.
abbrev pub IsHeld : ℕ → ℕ → ℕ → Db → Type 0
IsHeld k token expiry db = is_held_row token expiry (find_location k db.locations) ≡ true
