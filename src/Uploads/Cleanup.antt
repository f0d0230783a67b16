-- ===== src/Uploads/Cleanup.antt =====
-- `RunUploads` of internal/cleanup/service.go: every upload that is idle at the start goes, page by
-- page, each with its folder's deletion tried at once. No other transaction runs meanwhile, and the
-- time is that of the start. `delete_folder` is the storage adapter's, as in Outbox.
pub mod Cleared
use git_hub_action_cache_ser.Prelude.{
  ℕ, zero, suc, ◌+◌, ◌-◌, ◌≤◌, ◌<◌, ◌≡◌, refl, ap, subst, sym, ◌∙◌, Bool, true, false, not, ◌&&◌,
  Option, none, some, List, [], ◌∷◌, if◌then◌else◌, if-cases, any, delete_where, take, length,
  Bool-cases, inl, inr, ◌==◌, arith,
}
use git_hub_action_cache_ser.Db.{Bytes, Db, Upload, StorageDeletion, enqueue}
use git_hub_action_cache_ser.Outbox.{process}
use git_hub_action_cache_ser.Uploads.{
  cleanup_idle_timeout, is_inactive, inactive_by_id, delete_if_inactive,
}

abbrev pub items_per_page : ℕ
items_per_page = 10

-- The task that `Enqueue` creates in these tables.
abbrev pub next_task : ℕ → Bytes → Db → StorageDeletion
next_task now folder_name db = record {
  id = db.next_deletion;
  folder_name = folder_name;
  created_at = now;
  attempt_count = 0;
  last_attempted_at = none;
}

-- The rows of the query, in the table's order.
abbrev pub inactive_page : ℕ → Db → List Upload
inactive_page cutoff db =
    take items_per_page (delete_where (λ u. not (is_inactive cutoff u)) db.uploads)

module _ (delete_folder : Bytes → Bool) (now cutoff : ℕ) where
  -- One upload of a page, with the number of deleted ones.
  unfoldable pub clean_upload : Upload → ℕ × Db → ℕ × Db
  clean_upload u (deleted, db) =
      if (delete_if_inactive now u.id u.folder_name cutoff db).0
      then (
        deleted + 1,
        (process delete_folder now (next_task now u.folder_name db)
            (delete_if_inactive now u.id u.folder_name cutoff db).1).1,
      )
      else (deleted, (delete_if_inactive now u.id u.folder_name cutoff db).1)

  unfoldable pub clean_page : List Upload → ℕ × Db → ℕ × Db
  clean_page [] s = s
  clean_page (u ∷ us) s = clean_page us (clean_upload u s)

  unfoldable pub next_uploads : List Upload → ℕ × Db → (ℕ × Db → Option (ℕ × Db)) → Option (ℕ × Db)
  next_uploads [] s again = some s
  next_uploads (u ∷ us) s again = again (clean_page (u ∷ us) s)

  -- The loop, with the rounds that remain; `none` where they run out.
  unfoldable pub clean_pages : ℕ → ℕ × Db → Option (ℕ × Db)
  clean_pages zero s = none
  clean_pages (suc rounds) s = next_uploads (inactive_page cutoff s.1) s (clean_pages rounds)

-- `RunUploads`; there is a round for each upload, and one for the last page.
unfoldable pub run_uploads : (Bytes → Bool) → ℕ → Db → Option (ℕ × Db)
run_uploads delete_folder now db =
    clean_pages delete_folder now (now - cleanup_idle_timeout) (suc (length db.uploads)) (0, db)
