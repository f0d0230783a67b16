-- ===== src/Uploads.antt =====
-- Idle uploads: internal/uploadsession/session.go, and the renewal of an upload's activity,
-- `touchUploadActivity` of internal/cache/upload_activity.go. The timers that call it are left out.
pub mod Activity
pub mod Cleanup
use git_hub_action_cache_ser.Prelude.{
  ℕ, ◌-◌, Bool, true, false, ◌&&◌, ◌||◌, Option, none, some, List, [], ◌∷◌, if◌then◌else◌, ltb,
  ◌==◌, is_none, holds, any, update_where, delete_where,
}
use git_hub_action_cache_ser.Db.{Bytes, Db, Upload, StorageDeletion, enqueue}

-- Five minutes, in milliseconds.
abbrev pub takeover_idle_timeout : ℕ
takeover_idle_timeout = 300000

abbrev pub cleanup_idle_timeout : ℕ
cleanup_idle_timeout = 900000

-- `Inactive`
abbrev pub is_inactive : ℕ → Upload → Bool
is_inactive cutoff u =
    ltb u.created_at cutoff
    && (is_none u.last_part_uploaded_at || holds u.last_part_uploaded_at (λ t. ltb t cutoff))

-- `InactiveByID`
abbrev pub inactive_by_id : ℕ → ℕ → Upload → Bool
inactive_by_id upload_id cutoff u = u.id == upload_id && is_inactive cutoff u

-- `DeleteIfInactive`, with whether it deleted; its task is the last of the outbox then.
unfoldable pub delete_if_inactive : ℕ → ℕ → Bytes → ℕ → Db → Bool × Db
delete_if_inactive now upload_id folder_name cutoff db =
    if any (inactive_by_id upload_id cutoff) db.uploads
    then (
      true,
      enqueue now folder_name
          (record db { uploads = delete_where (inactive_by_id upload_id cutoff) db.uploads }),
    )
    else (false, db)

abbrev pub set_activity : ℕ → Upload → Upload
set_activity now u = record u { last_part_uploaded_at = some now }

-- `touchUploadActivity`, with whether the upload is there.
unfoldable pub touch_upload_activity : ℕ → ℕ → Db → Bool × Db
touch_upload_activity now upload_id db =
    if any (λ u. u.id == upload_id) db.uploads
    then (
      true,
      record db { uploads = update_where (λ u. u.id == upload_id) (set_activity now) db.uploads },
    )
    else (false, db)

-- What happens to uploads, each at its time.
pub data UploadStep : Type 0 where
  touch : (upload_id : ℕ) → UploadStep
  take_over clean_up : (upload_id : ℕ) (folder_name : Bytes) → UploadStep

unfoldable pub upload_step : ℕ → UploadStep → Db → Db
upload_step now (touch upload_id) db = (touch_upload_activity now upload_id db).1
upload_step now (take_over upload_id folder_name) db =
    (delete_if_inactive now upload_id folder_name (now - takeover_idle_timeout) db).1
upload_step now (clean_up upload_id folder_name) db =
    (delete_if_inactive now upload_id folder_name (now - cleanup_idle_timeout) db).1

unfoldable pub upload_steps : List (ℕ × UploadStep) → Db → Db
upload_steps [] db = db
upload_steps ((now, step) ∷ steps) db = upload_steps steps (upload_step now step db)
